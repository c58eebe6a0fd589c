-- ===== src/Ui/Toaster/Ids.antt =====
-- Facts about all toasts, all ids, and the toast that is found, for toasterInstance.ts.
use mystic_auth.Prelude.{
  ℕ, ◌<◌, true, false, not, ◌≡◌, refl, Option, none, some, List, [], ◌∷◌, map, ◌==◌, ℕ_eq, arith,
  All, All-concat, Bool-cases, inl, inr, filter, has, ==_refl, add, delete, add_all,
}
use mystic_auth.Ui.Toaster.{AppToast, find_toast}

module _ {A : Type 0} where
  pub All-map :
      (P Q : A → Type 0) (f : A → A)
      → ((a : A) → P a → Q (f a))
      → (xs : List A) → All P xs
      → All Q (map f xs)
  All-map P Q f h [] k = tt
  All-map P Q f h (x ∷ xs) k = (h x k.0, All-map P Q f h xs k.1)

  pub All-mono : (P Q : A → Type 0) → ((a : A) → P a → Q a) → (xs : List A) → All P xs → All Q xs
  All-mono P Q h [] k = tt
  All-mono P Q h (x ∷ xs) k = (h x k.0, All-mono P Q h xs k.1)

pub All-filter_ids :
    (P Q : AppToast → Type 0) (id : ℕ)
    → ((t : AppToast) → (t.id == id) ≡ false → P t → Q t)
    → (ts : List AppToast) → All P ts
    → All Q (filter (λ t. not (t.id == id)) ts)
All-filter_ids P Q id h [] k = tt
All-filter_ids P Q id h (t ∷ ts) k = elim (Bool-cases (t.id == id)) [
  | inl same ↦ rw same (All-filter_ids P Q id h ts k.1)
  | inr other ↦ rw other (h t other k.0, All-filter_ids P Q id h ts k.1)
]

pub All-add : (P : ℕ → Type 0) (ks : List ℕ) (k : ℕ) → P k → All P ks → All P (add ks k)
unfolding add
All-add P ks k p h = elim (Bool-cases (has ks k)) [
  | inl old ↦ rw old h
  | inr new ↦ rw new (All-concat P ks h p)
]

pub All-delete : (P : ℕ → Type 0) (ks : List ℕ) (k : ℕ) → All P ks → All P (delete ks k)
unfolding delete
All-delete P [] k h = tt
All-delete P (j ∷ ks) k h = elim (Bool-cases (j == k)) [
  | inl same ↦ rw same (All-delete P ks k h.1)
  | inr other ↦ rw other (h.0, All-delete P ks k h.1)
]

-- A timer that is not below `n` is not pending.
pub has-below : (n : ℕ) (ks : List ℕ) → All (λ i. i < n) ks → has ks n ≡ false
has-below n [] h = refl
has-below n (k ∷ ks) h = ground (arith, has-below n ks h.1)

-- What holds of all toasts holds of the one that is found, and it has the id.
abbrev pub Found : (AppToast → Type 0) → ℕ → Option AppToast → Type 0
Found P id none = Unit
Found P id (some t) = P t × ((t.id == id) ≡ true)

pub find_toast-Found :
    (P : AppToast → Type 0) (id : ℕ) (ts : List AppToast) → All P ts → Found P id (find_toast id ts)
find_toast-Found P id [] h = tt
find_toast-Found P id (t ∷ ts) h = elim (Bool-cases (t.id == id)) [
  | inl same ↦ rw same (h.0, same)
  | inr other ↦ rw other (find_toast-Found P id ts h.1)
]

pub All-add_all : (P : ℕ → Type 0) (ks js : List ℕ) → All P ks → All P js → All P (add_all ks js)
All-add_all P ks [] h k = h
All-add_all P ks (j ∷ js) h k = All-add_all P (add ks j) js (All-add P ks j k.0 h) k.1

pub All-has : (ks : List ℕ) → All (λ i. has ks i ≡ true) ks
All-has [] = tt
All-has (k ∷ ks) = (
  ground (arith, ==_refl k),
  All-mono (λ i. has ks i ≡ true) (λ i. has (k ∷ ks) i ≡ true) (λ i h. ground arith) ks
      (All-has ks),
)
