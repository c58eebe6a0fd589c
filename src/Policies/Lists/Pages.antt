-- ===== src/Policies/Lists/Pages.antt =====
-- The pages of `paginatePolicies` of policyListHelpers.ts put together.
use mystic_auth.Prelude.{
  ℕ, zero, suc, ◌+◌, ◌-◌, ◌*◌, ◌≤◌, ◌≡◌, sym, ◌∙◌, ap, List, [], ◌++◌, length, take, drop, arith,
  take-add, take_all,
}
use mystic_auth.Policies.{PolicyRead}
use mystic_auth.Policies.Lists.{paginate_policies}

-- The pages 1 to `n`, one after the other.
abbrev pub pages : List PolicyRead → ℕ → ℕ → List PolicyRead
pages ps size zero = []
pages ps size (suc n) = pages ps size n ++ paginate_policies ps (suc n) size

page-take :
    (ps : List PolicyRead) (size n : ℕ)
    → paginate_policies ps (suc n) size ≡ take size (drop (n * size) ps)
unfolding paginate_policies
page-take ps size n =
    let e : suc n - 1 ≡ n = omega arith in
    let f : n * size + size - n * size ≡ size = omega arith in
    ap (λ k. take (k * size + size - k * size) (drop (k * size) ps)) e
    ∙ ap (λ k. take k (drop (n * size) ps)) f

pages-take : (ps : List PolicyRead) (size n : ℕ) → pages ps size n ≡ take (n * size) ps
unfolding paginate_policies
pages-take ps size zero = let e : 0 ≡ 0 * size = omega arith in ap (λ k. take k ps) e
pages-take ps size (suc n) =
    let e : n * size + size ≡ suc n * size = omega arith in
    ap (λ xs. xs ++ paginate_policies ps (suc n) size) (pages-take ps size n)
    ∙ ap (λ k. take (n * size) ps ++ k) (page-take ps size n)
    ∙ sym (take-add (n * size) size ps)
    ∙ ap (λ k. take k ps) e

-- Pages 1 to `n`, one after the other, are the whole list, as soon as `n` pages of that size have
-- room for it.
pages-all : (ps : List PolicyRead) (size n : ℕ) → length ps ≤ n * size → pages ps size n ≡ ps
pages-all ps size n h = pages-take ps size n ∙ take_all (n * size) ps h
