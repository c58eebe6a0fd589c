-- ===== src/Policies/Bulk/Chunks.antt =====
-- `chunk` of bulkAssignmentMutations.ts: nothing is lost, repeated or moved, and no chunk is empty
-- or larger than the size.
use mystic_auth.Prelude.{
  ℕ, zero, suc, ◌+◌, ◌-◌, ◌≤◌, ◌≡◌, sym, ap, ◌∙◌, inl, inr, Bool-cases, List, ◌++◌, ltb, length,
  take, drop, concat, All, take-drop, drop_all, drop-drop, length-drop, length-take-le,
  length-take-pos, arith,
}
use mystic_auth.Policies.Bulk.{chunk_from, chunk}

module _ {A : Type 0} (items : List A) (size : ℕ) (size_pos : 1 ≤ size) where
  concat-chunk_from :
      (fuel i : ℕ) → length items ≤ fuel + i → concat (chunk_from fuel i items size) ≡ drop i items
  unfolding chunk_from
  concat-chunk_from zero i h = sym (drop_all i items (omega arith))
  concat-chunk_from (suc fuel) i h = elim (Bool-cases (ltb i (length items))) [
    | inr e ↦ rw e (sym (drop_all i items (ground arith)))
    | inl e ↦ rw e (
        let f : i + size - i ≡ size = omega arith in
        ap (λ k. take k (drop i items) ++ concat (chunk_from fuel (i + size) items size)) f
        ∙ ap (λ ys. take size (drop i items) ++ ys)
            (concat-chunk_from fuel (i + size) (omega arith) ∙ sym (drop-drop i size items))
        ∙ take-drop size (drop i items))
  ]

  chunk_from-All :
      (fuel i : ℕ) → All (λ c. (1 ≤ length c) × (length c ≤ size)) (chunk_from fuel i items size)
  unfolding chunk_from
  chunk_from-All zero i = tt
  chunk_from-All (suc fuel) i = elim (Bool-cases (ltb i (length items))) [
    | inr e ↦ rw e tt
    | inl e ↦ rw e (
      (
        length-take-pos (i + size - i) (drop i items) (omega arith)
            (ground (arith, length-drop i items)),
        omega (arith, length-take-le (i + size - i) (drop i items)),
      ),
      chunk_from-All fuel (i + size),
    )
  ]

  -- For a size of at least 1, the chunks of a list, one after the other, are the list.
  pub concat-chunk : concat (chunk items size) ≡ items
  unfolding chunk
  concat-chunk = concat-chunk_from (length items) 0 (omega arith)

  -- For a size of at least 1, every chunk has at least one element and at most `size` elements.
  pub chunk-All : All (λ c. (1 ≤ length c) × (length c ≤ size)) (chunk items size)
  unfolding chunk
  chunk-All = chunk_from-All (length items) 0
