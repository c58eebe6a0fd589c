-- ===== src/Session/CrossTab/Lease/Exclusion.antt =====
-- The lease of crossTabRefresh.ts keeps the tabs apart when no tab steps in between another's read,
-- write and check.
use mystic_auth.Prelude.{
  ℕ, ◌+◌, Bool, true, false, ◌≡◌, sym, ap, ◌∙◌, inl, inr, Bool-cases, Option, none, some, ◌==◌,
  ℕ_eq, ==_iff, if◌then◌else◌, arith,
}
use mystic_auth.Session.CrossTab.Lease.{
  Lease, Phase, idle, holding, Tabs, is_owner, is_unexpired, may_take, read_lease, write_lease,
  verify_lease, heartbeat, release_lease, acquire, no_tabs, LeaseStep, acquires, beats, releases,
  passes, Reached, start, then_step,
}

-- Every tab that sends the request owns the lease, which has not expired.
abbrev pub Owns : ℕ → Tabs → Type 0
Owns tab s = (is_owner tab s.lease ≡ true) × (is_unexpired s.now s.lease ≡ true)

abbrev pub IsGuarded : Tabs → Type 0
IsGuarded s = (tab : ℕ) → s.phase_of tab ≡ holding → Owns tab s

may_take-is_owner :
    (tab other now : ℕ) (lease : Option Lease)
    → may_take tab now lease ≡ true
    → (is_owner other lease ≡ true) × (is_unexpired now lease ≡ true)
    → (other == tab) ≡ true
unfolding may_take
may_take-is_owner tab other now none h (k, l) = ground (arith, k)
may_take-is_owner tab other now (some lease) h (k, l) =
    ground (arith, h, k, l, ==_iff lease.owner tab, ==_iff lease.owner other, ==_iff other tab)

one_owner :
    (i j : ℕ) (lease : Option Lease) → is_owner i lease ≡ true → is_owner j lease ≡ true → i ≡ j
one_owner i j none h k = ground (arith, h)
one_owner i j (some lease) h k = ground (arith, h, k)

idle-holding : ¬ (idle ≡ holding)
idle-holding e = ground (arith, e)

-- The phase of a tab that none of the steps is about.
kept_phase :
    (b : Bool) (x y z w : Phase)
    → b ≡ false
    → (if b then x else (if b then y else (if b then z else w))) ≡ holding
    → w ≡ holding
kept_phase true x y z w h k = absurd (ground (arith, h))
kept_phase false x y z w h k = k

fresh-Owns :
    (tab other now : ℕ)
    → (other == tab) ≡ true
    → (is_owner other (some (record { owner = tab; expires_at = now + 15000 })) ≡ true)
      × (is_unexpired now (some (record { owner = tab; expires_at = now + 15000 })) ≡ true)
fresh-Owns tab other now e = (ground (arith, e), ground arith)

acquire-IsGuarded : (tab : ℕ) (s : Tabs) → IsGuarded s → IsGuarded (acquire tab s)
unfolding acquire read_lease write_lease verify_lease
acquire-IsGuarded tab s h = elim (Bool-cases (may_take tab s.now s.lease)) [
  | inr e ↦ rw e h
  | inl e ↦ rw e (λ other k. elim (Bool-cases (other == tab)) [
    | inl same ↦ fresh-Owns tab other s.now same
    | inr differs ↦
        let at_it = kept_phase (other == tab) _ _ _ (s.phase_of other) differs k in
        absurd
          (ground (arith, differs, may_take-is_owner tab other s.now s.lease e (h other at_it)))
  ])
]

beat-IsGuarded :
    (tab : ℕ) (s : Tabs) → s.phase_of tab ≡ holding → IsGuarded s → IsGuarded (heartbeat tab s)
unfolding heartbeat
beat-IsGuarded tab s k h = rw ((h tab k).0) (λ other e.
    fresh-Owns tab other s.now
      (ground (arith, one_owner other tab s.lease (h other e).0 (h tab k).0)))

release-IsGuarded :
    (tab : ℕ) (s : Tabs) → s.phase_of tab ≡ holding → IsGuarded s → IsGuarded (release_lease tab s)
unfolding release_lease
release-IsGuarded tab s k h = λ other e. elim (Bool-cases (other == tab)) [
  | inl same ↦ absurd (idle-holding (ap (λ b. if b then idle else s.phase_of other) (sym same) ∙ e))
  | inr differs ↦
      let at_it = ap (λ b. if b then idle else s.phase_of other) (sym differs) ∙ e in
      absurd (ground (arith, differs, one_owner other tab s.lease (h other at_it).0 (h tab k).0))
]

step-IsGuarded : (s u : Tabs) → LeaseStep s u → IsGuarded s → IsGuarded u
step-IsGuarded _ _ (acquires tab s) h = acquire-IsGuarded tab s h
step-IsGuarded _ _ (beats tab s k) h = beat-IsGuarded tab s k h
step-IsGuarded _ _ (releases tab s k) h = release-IsGuarded tab s k h
step-IsGuarded _ _ (passes time s k) h = λ tab e. ((h tab e).0, k tab e)

Reached-IsGuarded : (now : ℕ) (s : Tabs) → Reached (no_tabs now) s → IsGuarded s
Reached-IsGuarded now _ start = λ tab e. absurd (idle-holding e)
Reached-IsGuarded now _ (then_step u v r k) = step-IsGuarded u v k (Reached-IsGuarded now u r)

-- When every tab reads, writes and checks the lease without another tab's step in between, and the
-- heartbeat of a tab that sends the request comes before its lease expires, two tabs never send the
-- refresh request at the same time.
pub Reached-holding :
    (now i j : ℕ) (s : Tabs)
    → Reached (no_tabs now) s
    → s.phase_of i ≡ holding
    → s.phase_of j ≡ holding
    → i ≡ j
Reached-holding now i j s r h k =
    let guarded = Reached-IsGuarded now s r in one_owner i j s.lease (guarded i h).0 (guarded j k).0
