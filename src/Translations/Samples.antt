-- ===== src/Translations/Samples.antt =====
-- A lower case that knows the letter S, and a small bundle, for the examples.
use Prim.Native.Char.{Char, code}
use package.text.Mathlib.TextLemmas.{cons-append, nil-append}
use mystic_auth.Prelude.{
  String, ◌≡◌, refl, ◌∙◌, ap, sym, ◌<>◌, nat_eq, LowerCase, if◌then◌else◌, Bool-cases, inl, inr,
}
use mystic_auth.Translations.{Node, text, branch, end, field}

abbrev lower_char : Char → Char
lower_char c = if nat_eq (code c) b'S' then "s" else c

unfoldable pub lower_text : String → String
lower_text String.[] = ""
lower_text (String.◌∷◌ c s) = String.◌∷◌ (lower_char c) (lower_text s)

lower_char_idem : (c : Char) → lower_char (lower_char c) ≡ lower_char c
lower_char_idem c = elim (Bool-cases (nat_eq (code c) b'S')) [
  | inl e ↦ rw e refl
  | inr e ↦ rw (e, e) refl
]

pub lower_text_idem : (s : String) → lower_text (lower_text s) ≡ lower_text s
unfolding lower_text
lower_text_idem String.[] = refl
lower_text_idem (String.◌∷◌ c s) =
    ap (λ d. String.◌∷◌ d (lower_text (lower_text s))) (lower_char_idem c)
    ∙ ap (λ t. String.◌∷◌ (lower_char c) t) (lower_text_idem s)

lower_text-append : (s t : String) → lower_text (s <> t) ≡ lower_text s <> lower_text t
unfolding lower_text
lower_text-append String.[] t = ap lower_text (nil-append t) ∙ sym (nil-append (lower_text t))
lower_text-append (String.◌∷◌ c s) t =
    ap lower_text (cons-append c s t)
    ∙ ap (λ v. String.◌∷◌ (lower_char c) v) (lower_text-append s t)
    ∙ sym (cons-append (lower_char c) (lower_text s) (lower_text t))

pub lower_text_space :
    (s t : String) → lower_text (s <> (" " <> t)) ≡ lower_text s <> (" " <> lower_text t)
unfolding lower_text
lower_text_space s t =
    lower_text-append s (" " <> t) ∙ ap (λ v. lower_text s <> v) (lower_text-append " " t)

pub lower_text_nil : lower_text "" ≡ ""
unfolding lower_text
lower_text_nil = refl

abbrev pub s_lowered : LowerCase
s_lowered = record {
  lower = lower_text;
  lower_idem = lower_text_idem;
  lower_nil = lower_text_nil;
  lower_space = lower_text_space;
}

abbrev pub sessions_bundle : Node
sessions_bundle = branch (
    field "card"
      (branch (field "heading" (text "Sessions") (field "count" (text "Sessions: {{n}}") end)))
      (field "title" (text "Sessions") end))
