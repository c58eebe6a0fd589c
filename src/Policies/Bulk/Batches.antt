-- ===== src/Policies/Bulk/Batches.antt =====
-- The bulk mutations against a backend that handles the items of a request one after the other and
-- rejects a request of more than 200 items: the chunks of a mutation have the effect and the answer
-- of one request without a limit.
use mystic_auth.Prelude.{
  ◌+◌, ◌≤◌, ◌≡◌, sym, ap, ◌∙◌, List, [], ◌∷◌, ◌++◌, map, String, Bool, false, ltb, length, filter,
  concat, All, append-nil, append_assoc, filter-append, length-append, map-append, length-map,
  if◌then◌else◌, rejected, resolved, Async, arith,
}
use mystic_auth.Api.{Failure}
use mystic_auth.Policies.Bulk.{
  BulkItem, BulkItemResult, BulkResponse, empty_response, merge, chunk, run_chunks,
  run_chunked_bulk, run_selected,
}
use mystic_auth.Policies.Bulk.Chunks.{concat-chunk, chunk-All}

-- A backend: what it does with one item sent to a path, which results its two counts count, and
-- what it rejects a request with.
pub record Backend (W Params : Type 0) : Type 0 where
  pub serve : String → BulkItem → W → BulkItemResult × W
  pub succeeds : BulkItemResult → Bool
  pub fails : BulkItemResult → Bool
  pub too_many : Failure Params

module _ {W Params : Type 0} (backend : Backend W Params) where
  abbrev pub serve_all : String → List BulkItem → W → List BulkItemResult × W
  serve_all path [] w = ([], w)
  serve_all path (i ∷ is) w =
      let first = backend.serve path i w in
      let rest = serve_all path is first.1 in (first.0 ∷ rest.0, rest.1)

  abbrev pub response_of : List BulkItemResult → BulkResponse
  response_of results = record {
    results = results;
    success_count = length (filter backend.succeeds results);
    error_count = length (filter backend.fails results);
  }

  -- What one request without a limit would give.
  abbrev pub served : String → List BulkItem → Async W (Failure Params) BulkResponse
  served path items w =
      let all_of = serve_all path items w in (resolved (response_of all_of.0), all_of.1)

  abbrev pub answer : String → List BulkItem → Async W (Failure Params) BulkResponse
  answer path items w =
      if ltb 200 (length items) then (rejected backend.too_many, w) else served path items w

  count-append :
      {A : Type 0} (p : A → Bool) (xs ys : List A)
      → length (filter p xs) + length (filter p ys) ≡ length (filter p (xs ++ ys))
  count-append p xs ys =
      sym (length-append (filter p xs) (filter p ys)) ∙ ap length (sym (filter-append p xs ys))

  merge-response_of :
      (xs ys : List BulkItemResult)
      → merge (response_of xs) (response_of ys) ≡ response_of (xs ++ ys)
  merge-response_of xs ys =
      ap
        (λ n. record {
          results = xs ++ ys;
          success_count = n;
          error_count = length (filter backend.fails xs) + length (filter backend.fails ys);
        })
        (count-append backend.succeeds xs ys)
      ∙ ap
          (λ n. record {
            results = xs ++ ys;
            success_count = length (filter backend.succeeds (xs ++ ys));
            error_count = n;
          })
          (count-append backend.fails xs ys)

  -- `served` after results that are already merged.
  abbrev served_after :
      String → List BulkItemResult → List BulkItem → Async W (Failure Params) BulkResponse
  served_after path done items w =
      let all_of = serve_all path items w in (resolved (response_of (done ++ all_of.0)), all_of.1)

  served_after-append :
      (path : String) (done : List BulkItemResult) (is js : List BulkItem) (w : W)
      → served_after path (done ++ (serve_all path is w).0) js (serve_all path is w).1
        ≡ served_after path done (is ++ js) w
  served_after-append path done [] js w = ap (λ d. served_after path d js w) (append-nil done)
  served_after-append path done (i ∷ is) js w =
      let r = backend.serve path i w in
      ap (λ d. served_after path d js (serve_all path is r.1).1)
        (sym (append_assoc done (r.0 ∷ []) (serve_all path is r.1).0))
      ∙ served_after-append path (done ++ r.0 ∷ []) is js r.1
      ∙ ap (λ d. (resolved (response_of d), (serve_all path (is ++ js) r.1).1))
          (append_assoc done (r.0 ∷ []) (serve_all path (is ++ js) r.1).0)

  -- A loop whose every round is served ends as if the items of all rounds had been served.
  run_selected-served :
      {S : Type 0} (path : String) (run : S → Async W (Failure Params) BulkResponse)
      (items : S → List BulkItem)
      → ((s : S) (w : W) → run s w ≡ served path (items s) w)
      → (selected : List S) (done : List BulkItemResult) (w : W)
      → run_selected run selected (response_of done) w
        ≡ served_after path done (concat (map items selected)) w
  run_selected-served path run items h [] done w =
      ap (λ d. (resolved (response_of d), w)) (sym (append-nil done))
  run_selected-served path run items h (s ∷ selected) done w = rw (h s w) (
      ap (λ m. run_selected run selected m (serve_all path (items s) w).1)
        (merge-response_of done (serve_all path (items s) w).0)
      ∙ run_selected-served path run items h selected (done ++ (serve_all path (items s) w).0)
          (serve_all path (items s) w).1
      ∙ served_after-append path done (items s) (concat (map items selected)) w)

  answer-served :
      (path : String) (item : String → BulkItem) (c : List String) (w : W)
      → length c ≤ 200
      → answer path (map item c) w ≡ served path (map item c) w
  answer-served path item c w h =
      let e : ltb 200 (length (map item c)) ≡ false = ground (arith, length-map item c) in
      ap (λ b. if b then (rejected backend.too_many, w) else served path (map item c) w) e

  run_chunks-served :
      (path : String) (item : String → BulkItem) (cs : List (List String))
      (done : List BulkItemResult) (w : W)
      → All (λ c. (1 ≤ length c) × (length c ≤ 200)) cs
      → run_chunks (λ es. answer path (map item es)) cs (response_of done) w
        ≡ served_after path done (map item (concat cs)) w
  run_chunks-served path item [] done w h =
      ap (λ d. (resolved (response_of d), w)) (sym (append-nil done))
  run_chunks-served path item (c ∷ cs) done w (b, h) =
      let answer_to = λ (es : List String). answer path (map item es) in
      let next = serve_all path (map item c) w in
      rw (answer-served path item c w b.1) (
        ap (λ m. run_chunks answer_to cs m next.1) (merge-response_of done next.0)
        ∙ run_chunks-served path item cs (done ++ next.0) next.1 h
        ∙ served_after-append path done (map item c) (map item (concat cs)) w
        ∙ ap (λ items. served_after path done items w) (sym (map-append item c (concat cs))))

  -- Whatever the number of users, a chunked request has the answer and the effect that one request
  -- for all of them would have without the limit.
  pub run_chunked_bulk-served :
      (path : String) (item : String → BulkItem) (user_emails : List String) (w : W)
      → run_chunked_bulk user_emails (λ es. answer path (map item es)) w
        ≡ served path (map item user_emails) w
  unfolding run_chunked_bulk
  run_chunked_bulk-served path item user_emails w =
      run_chunks-served path item (chunk user_emails 200) [] w
        (chunk-All user_emails 200 (omega arith))
      ∙ ap (λ es. served path (map item es) w) (concat-chunk user_emails 200 (omega arith))

  -- The items of a mutation: every user for the first policy or action, then every user for the
  -- next.
  abbrev pub items_for :
      {S : Type 0} → (S → String → BulkItem) → List String → List S → List BulkItem
  items_for item user_emails selected = concat (map (λ s. map (item s) user_emails) selected)

  pub run_selected_bulk-served :
      {S : Type 0} (path : String) (item : S → String → BulkItem) (user_emails : List String)
      (selected : List S) (w : W)
      → run_selected
          (λ s. run_chunked_bulk user_emails (λ es. answer path (map (item s) es)))
          selected
          empty_response
          w
        ≡ served path (items_for item user_emails selected) w
  run_selected_bulk-served path item user_emails selected w =
      run_selected-served path
        (λ s. run_chunked_bulk user_emails (λ es. answer path (map (item s) es)))
        (λ s. map (item s) user_emails) (λ s v. run_chunked_bulk-served path (item s) user_emails v)
        selected [] w

  -- The outcome of serving items, with the error type of a mutation.
  abbrev pub served_as : String → List BulkItem → Async W String BulkResponse
  served_as path items w =
      let all_of = serve_all path items w in (resolved (response_of all_of.0), all_of.1)
