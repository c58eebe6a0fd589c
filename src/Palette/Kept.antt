-- ===== src/Palette/Kept.antt =====
-- The order of the palette loses no candidate and shows nothing else.
use mystic_auth.Prelude.{
  ℕ, ◌+◌, String, Bool, ◌||◌, ◌≡◌, refl, ◌∙◌, List, [], ◌∷◌, ◌++◌, map, ℕ_eq, any, any-append,
  any-map, concat, upsert, Order, sort_by, insert, arith,
}
use mystic_auth.Palette.{
  PaletteResult, Ranked, by_pair, ranked_from, group_ranked, sort_members, kind_priority, least,
  filtered,
}

module _ {K A : Type 0} (o : Order K) (key : A → K) (p : A → Bool) where
  any-insert : (x : A) (ys : List A) → any p (insert o key x ys) ≡ (p x || any p ys)
  any-insert x [] = refl
  any-insert x (y ∷ ys) = ground (arith, any-insert x ys)

  any-sort_by : (xs : List A) → any p (sort_by o key xs) ≡ any p xs
  unfolding sort_by
  any-sort_by [] = refl
  any-sort_by (x ∷ xs) = ground (arith, any-sort_by xs, any-insert x (sort_by o key xs))

module _ (p : PaletteResult → Bool) where
  abbrev in_ranked : Ranked → Bool
  in_ranked r = p r.result

  abbrev in_group : ℕ × List Ranked → Bool
  in_group g = any in_ranked g.1

  any-upsert :
      (k : ℕ) (r : Ranked) (gs : List (ℕ × List Ranked))
      → any in_group (upsert k (λ g. g ++ r ∷ []) (r ∷ []) gs) ≡ (any in_group gs || in_ranked r)
  unfolding upsert
  any-upsert k r [] = ground arith
  any-upsert k r ((j, g) ∷ gs) = ground (arith, any-upsert k r gs, any-append in_ranked g (r ∷ []))

  module _ (lower : String → String) (q : String) where
    any-group_ranked :
        (gs : List (ℕ × List Ranked)) (rs : List Ranked)
        → any in_group (group_ranked lower q gs rs) ≡ (any in_group gs || any in_ranked rs)
    any-group_ranked gs [] = ground arith
    any-group_ranked gs (r ∷ rs) = ground (
      arith,
      any-group_ranked (upsert (kind_priority r.result.kind) (λ g. g ++ r ∷ []) (r ∷ []) gs) rs,
      any-upsert (kind_priority r.result.kind) r gs,
    )

    any-ranked_from :
        (i : ℕ) (rs : List PaletteResult) → any in_ranked (ranked_from lower q i rs) ≡ any p rs
    any-ranked_from i [] = refl
    any-ranked_from i (r ∷ rs) = ground (arith, any-ranked_from (i + 1) rs)

    any-sort_members : (g : ℕ × List Ranked) → any p (sort_members lower q g) ≡ in_group g
    any-sort_members g =
        any-map (λ r. r.result) p (sort_by by_pair (λ r. (r.relevance, r.index)) g.1)
        ∙ any-sort_by by_pair (λ r. (r.relevance, r.index)) in_ranked g.1

    any-concat :
        (gs : List (ℕ × List Ranked))
        → any p (concat (map (sort_members lower q) gs)) ≡ any in_group gs
    any-concat [] = refl
    any-concat (g ∷ gs) = ground (
      arith,
      any-append p (sort_members lower q g) (concat (map (sort_members lower q) gs)),
      any-sort_members g,
      any-concat gs,
    )

    -- The results shown are the candidates: whatever is asked of a result, some result shown has it
    -- exactly when some candidate has it.
    pub any-filtered :
        (candidates : List PaletteResult) → any p (filtered lower q candidates) ≡ any p candidates
    unfolding filtered
    any-filtered candidates =
        let groups = group_ranked lower q [] (ranked_from lower q 0 candidates) in
        any-concat (sort_by by_pair (λ g. (least lower q g.1, g.0)) groups)
        ∙ any-sort_by by_pair (λ g. (least lower q g.1, g.0)) in_group groups
        ∙ any-group_ranked [] (ranked_from lower q 0 candidates)
        ∙ any-ranked_from 0 candidates
