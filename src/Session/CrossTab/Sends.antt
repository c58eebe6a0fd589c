-- ===== src/Session/CrossTab/Sends.antt =====
-- How many requests a refresh of crossTabRefresh.ts sends: those of the one refresh request.
use mystic_auth.Prelude.{ℕ, Option, none, some, inl, inr, Bool-cases, arith}
use mystic_auth.Session.{Tab, RotationResult}
use mystic_auth.Session.CrossTab.{
  publish_answer, rotation_completed_after, refresh_under_lock, run_cross_tab_refresh,
}
use mystic_auth.Session.Run.{M, after, Within, free, Pays-after, Pays-charge_zero}

module _ {R : Type 0} (locked : Tab → Tab) (request : M (Option R)) where
  Within-publish_answer :
      (b : ℕ) (o : Option R) (t : Tab) → Within b (publish_answer locked request o t)
  Within-publish_answer b none t = omega arith
  Within-publish_answer b (some r) t = omega arith

  Within-refresh_under_lock :
      (b : ℕ) (before : Option RotationResult) (t : Tab)
      → ((t : Tab) → Within b (request t))
      → Within b (refresh_under_lock locked request before t)
  unfolding refresh_under_lock
  Within-refresh_under_lock b before t h =
      elim (Bool-cases (rotation_completed_after before t.rotation_result)) [
        | inl e ↦ rw e (omega arith)
        | inr e ↦ rw e (
            Pays-charge_zero free b (after (request t) (publish_answer locked request)) (
              Pays-after free free b (request t) (publish_answer locked request) (h t)
                (λ o u. Within-publish_answer 0 o u)))
      ]

  pub Within-run_cross_tab_refresh :
      (b : ℕ) (t : Tab)
      → ((t : Tab) → Within b (request t))
      → Within b (run_cross_tab_refresh locked request t)
  unfolding run_cross_tab_refresh
  Within-run_cross_tab_refresh b t h =
      Pays-charge_zero free b _
        (Pays-charge_zero free b _ (Within-refresh_under_lock b t.rotation_result (locked t) h))
