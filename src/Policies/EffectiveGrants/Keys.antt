-- ===== src/Policies/EffectiveGrants/Keys.antt =====
-- When two grant keys are the same text: `grantKey` of effectiveGrants.ts is one-to-one as long as
-- resource types hold no colon.
use Prim.Native.Char.{Char, code}
use Prim.Native.String.{[], ◌∷◌, ◌++◌}
use text.Mathlib.TextLemmas.{nil-append, cons-append, cons-eq-cons, cons-ne-nil, append_cancel_left}
use mathlib.Core.Path.{ap₂, subst}
use mystic_auth.Prelude.{String, ◌≡◌, ◌≢◌, refl, sym, ◌∙◌, ap}
use mystic_auth.Policies.EffectiveGrants.{grant_key}

abbrev pub NoColon : String → Type 0
NoColon [] = Unit
NoColon (c ∷ s) = (code c ≢ b':') × NoColon s

-- A text that goes on with "::" holds a colon.
colon-append : (s r t : String) → NoColon t → t ≡ s ++ ("::" ++ r) → ⊥
colon-append [] r [] h e = cons-ne-nil _ _ (sym (e ∙ nil-append _ ∙ cons-append _ _ _))
colon-append [] r (c ∷ t) h e =
    h.0 (ap code (cons-eq-cons.0 (e ∙ nil-append _ ∙ cons-append _ _ _)).0)
colon-append (d ∷ s) r [] h e = cons-ne-nil _ _ (sym (e ∙ cons-append _ _ _))
colon-append (d ∷ s) r (c ∷ t) h e =
    colon-append s r t h.1 (cons-eq-cons.0 (e ∙ cons-append _ _ _)).1

abbrev colon : Char
colon = ":"

colons-append : (r : String) → "::" ++ r ≡ colon ∷ (colon ∷ r)
colons-append r =
    cons-append colon ":" r
    ∙ ap (λ t. colon ∷ t) (cons-append colon "" r ∙ ap (λ t. colon ∷ t) (nil-append r))

-- "::" and a colon-free text are not some action's first characters, then "::" and more.
colons_clash : (c : Char) (b r s : String) → NoColon r → "::" ++ r ≡ (c ∷ b) ++ ("::" ++ s) → ⊥
colons_clash c [] r s p e =
    let h = (cons-eq-cons.0 (sym (colons-append r) ∙ e ∙ cons-append _ _ _)).1 in
    let k = (cons-eq-cons.0 (h ∙ nil-append _ ∙ colons-append s)).1 in (subst NoColon k p).0 refl
colons_clash c (d ∷ b) r s p e =
    let h = (cons-eq-cons.0 (sym (colons-append r) ∙ e ∙ cons-append _ _ _)).1 in
    colon-append b s r p (cons-eq-cons.0 (h ∙ cons-append _ _ _)).1

-- Two grant keys are equal only for the same action and the same resource type, as long as the
-- resource types hold no colon; the actions are any text.
pub grant_key_injective :
    (a b r s : String) → NoColon r → NoColon s → grant_key a r ≡ grant_key b s → (a ≡ b) × (r ≡ s)
unfolding grant_key
grant_key_injective [] [] r s p q e =
    (refl, append_cancel_left "::" r s (sym (nil-append _) ∙ e ∙ nil-append _))
grant_key_injective [] (c ∷ b) r s p q e = absurd (colons_clash c b r s p (sym (nil-append _) ∙ e))
grant_key_injective (c ∷ a) [] r s p q e = absurd (colons_clash c a s r q (sym (e ∙ nil-append _)))
grant_key_injective (c ∷ a) (d ∷ b) r s p q e =
    let h = cons-eq-cons.0 (sym (cons-append _ _ _) ∙ e ∙ cons-append _ _ _) in
    let (x, y) = grant_key_injective a b r s p q h.1 in (ap₂ ◌∷◌ h.0 x, y)
