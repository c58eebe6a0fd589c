-- ===== src/Session/CrossTab/Lease/Tests.antt =====
-- Examples for the lease.
use mystic_auth.Prelude.{ℕ, ◌≡◌, refl, ℕ_eq}
use mystic_auth.Session.CrossTab.Lease.{
  Tabs, holding, read_lease, write_lease, verify_lease, may_take, acquire, no_tabs, start,
  then_step, acquires,
}
use mystic_auth.Session.CrossTab.Lease.Exclusion.{Reached-holding}

-- Two tabs that both read before either writes, the second of which writes after the first has
-- checked.
abbrev interleaved : Tabs
interleaved =
    verify_lease 2
      (write_lease 2 (verify_lease 1 (write_lease 1 (read_lease 2 (read_lease 1 (no_tabs 7))))))

both_hold : (interleaved.phase_of 1 ≡ holding) × (interleaved.phase_of 2 ≡ holding)
unfolding read_lease write_lease verify_lease may_take
both_hold = (refl, refl)

abbrev one_tab : Tabs
one_tab = acquire 1 (no_tabs 7)

one_holds : one_tab.phase_of 1 ≡ holding
unfolding acquire read_lease write_lease verify_lease may_take
one_holds = refl

abbrev holder : ℕ
holder = 1

Reached-holding_example : holder ≡ holder
Reached-holding_example =
    Reached-holding 7 holder holder one_tab
      (then_step (no_tabs 7) one_tab start (acquires 1 (no_tabs 7))) one_holds one_holds
