-- ===== src/Prelude/Awaits.antt =====
-- Awaited calls as explicit state passing: a call takes the state of the world outside to an
-- outcome and the state after it. `await` in sequence stops at the first rejection.

pub data Result (E A : Type 0) : Type 0 where
  rejected : E → Result E A
  resolved : A → Result E A

abbrev pub Async : Type 0 → Type 0 → Type 0 → Type 0
Async W E A = W → Result E A × W

module _ {W E : Type 0} where
  abbrev pub continue_with : {A B : Type 0} → (A → Async W E B) → Result E A × W → Result E B × W
  continue_with next (rejected e, w) = (rejected e, w)
  continue_with next (resolved a, w) = next a w

  -- `next(await call)`
  abbrev pub and_then : {A B : Type 0} → Async W E A → (A → Async W E B) → Async W E B
  and_then call next w = continue_with next (call w)

  -- `try { return await call } catch (error) { throw wrap(error) }`
  abbrev pub wrap_rejection : {F A : Type 0} → (E → F) → Result E A × W → Result F A × W
  wrap_rejection wrap (rejected e, w) = (rejected (wrap e), w)
  wrap_rejection wrap (resolved a, w) = (resolved a, w)
