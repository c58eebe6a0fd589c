-- ===== src/Palette.antt =====
-- frontend/src/mystic_auth/layout/command_palette/CommandPaletteResults.ts: the results that come
-- from backend data, and the order of all results. Lower case, the encoding of a URL part and the
-- labels of the pages are parameters; icons are left out. What the queries have answered is none
-- until they have.
pub mod Items
pub mod Search
pub mod Matches
pub mod Gates
pub mod Gated
pub mod Found
mod SearchTests
pub mod Kept
mod Tests
use Prim.Native.String
use text.Mathlib.Text.{starts_with}
use mystic_auth.Prelude.{
  ℕ, ◌+◌, String, Bool, true, false, not, ◌&&◌, ◌||◌, Option, none, some, get_or, List, [], ◌∷◌,
  ◌++◌, map, ◌==◌, ℕ_eq, String_eq, ltb, leb, length, take, has, concat, upsert, includes, Order,
  sort_by, if◌then◌else◌, arith, ◌≡◌, ◌⊎◌, add, add_all,
}
use mystic_auth.Policies.{PolicyRead}
use mystic_auth.Users.AccessRows.{PermissionCatalogEntry}

pub data ResultKind : Type 0 where
  of_page of_content of_match of_policy of_user : ResultKind

pub record PaletteResult : Type 0 where
  pub kind : ResultKind
  pub to : String
  pub label : String
  pub sublabel : Option String

abbrev pub text_match_results_limit : ℕ
text_match_results_limit = 20

-- A user of the list endpoint.
pub record FoundUser : Type 0 where
  pub name : String
  pub email : String

abbrev pub kind_priority : ResultKind → ℕ
kind_priority of_page = 0
kind_priority of_content = 1
kind_priority of_match = 2
kind_priority of_policy = 3
kind_priority of_user = 4

abbrev pub joined : List String → String
joined [] = ""
joined (s ∷ ss) = String.◌++◌ s (joined ss)

module _ (lower encode : String → String) where
  -- The text that a catalog entry is searched in; a description that is null reads "null".
  abbrev pub entry_haystack : PermissionCatalogEntry → String
  entry_haystack e =
      lower (joined (e.action ∷ " " ∷ e.resource_type ∷ " " ∷ get_or e.description "null" ∷ []))

  abbrev pub entry_key : PermissionCatalogEntry → String
  entry_key e = joined (e.action ∷ ":" ∷ e.resource_type ∷ [])

  abbrev pub entry_result : String → PermissionCatalogEntry → PaletteResult
  entry_result permissions_page_label e = record {
    kind = of_match;
    to = String.◌++◌ "/permissions?search=" (encode e.action);
    label = joined (e.action ∷ " · " ∷ e.resource_type ∷ []);
    sublabel = some permissions_page_label;
  }

  -- The loop over the catalog, with the keys seen.
  abbrev pub entry_matches :
      String → String → List String → List PermissionCatalogEntry → List PaletteResult
  entry_matches q page_label seen [] = []
  entry_matches q page_label seen (e ∷ es) =
      let skipped = entry_matches q page_label seen es in
      let rest = entry_matches q page_label (entry_key e ∷ seen) es in
      if not (includes (entry_haystack e) q) || has seen (entry_key e)
      then skipped
      else entry_result page_label e ∷ rest

  unfoldable pub permission_matches :
      String → Bool → Option (List PermissionCatalogEntry) → String → List PaletteResult
  unfolding includes
  permission_matches q can_view_permissions none page_label = []
  permission_matches q can_view_permissions (some catalog) page_label =
      if q == "" || not can_view_permissions
      then []
      else take text_match_results_limit (entry_matches q page_label [] catalog)

  abbrev pub user_result : FoundUser → PaletteResult
  user_result u = record {
    kind = of_user;
    to = String.◌++◌ "/users?search=" (encode u.email);
    label = u.name;
    sublabel = some u.email;
  }

  unfoldable pub filtered_users : Bool → String → Option (List FoundUser) → List PaletteResult
  filtered_users can_search_users trimmed_query users =
      map user_result
        (if can_search_users && not (trimmed_query == "") then get_or users [] else [])

  -- `policy.description || policiesPageLabel`
  abbrev pub described_by : Option String → String → String
  described_by none page_label = page_label
  described_by (some d) page_label = if d == "" then page_label else d

  abbrev pub policy_result : String → PolicyRead → PaletteResult
  policy_result page_label p = record {
    kind = of_policy;
    to = String.◌++◌ "/policies?search=" (encode p.name);
    label = p.name;
    sublabel = some (described_by p.description page_label);
  }

  unfoldable pub filtered_policies :
      Bool → String → Option (List PolicyRead) → String → List PaletteResult
  filtered_policies can_search_policies trimmed_query policies page_label =
      map (policy_result page_label)
        (if can_search_policies && not (trimmed_query == "") then get_or policies [] else [])

pub record Ranked : Type 0 where
  pub result : PaletteResult
  pub relevance : ℕ
  pub index : ℕ

-- Pairs of numbers, by the first and then by the second.
abbrev pub pair_le : ℕ × ℕ → ℕ × ℕ → Bool
pair_le (a, b) (c, d) = ltb a c || (a == c && leb b d)

pub pair_le_total : (j k : ℕ × ℕ) → (pair_le j k ≡ true) ⊎ (pair_le k j ≡ true)
pair_le_total (a, b) (c, d) = ground arith

pub pair_le_trans : (i j k : ℕ × ℕ) → pair_le i j ≡ true → pair_le j k ≡ true → pair_le i k ≡ true
pair_le_trans (a, b) (c, d) (e, f) h l = ground arith

abbrev pub by_pair : Order (ℕ × ℕ)
by_pair = record { le = pair_le; le_total = pair_le_total; le_trans = pair_le_trans }

module _ (lower : String → String) (q : String) where
  abbrev pub relevance_of : PaletteResult → ℕ
  relevance_of r =
      let label = lower r.label in
      if label == q
      then 0
      else (if starts_with label q
          then 1
          else (if includes label q
              then 2
              else (if includes (lower (get_or r.sublabel "")) q then 3 else 4)))

  -- The results with their relevance and their place, from place `i`.
  abbrev pub ranked_from : ℕ → List PaletteResult → List Ranked
  ranked_from i [] = []
  ranked_from i (r ∷ rs) =
      record { result = r; relevance = relevance_of r; index = i } ∷ ranked_from (i + 1) rs

  -- The groups by kind, a kind known by its priority, in the order of their first result.
  abbrev pub group_ranked : List (ℕ × List Ranked) → List Ranked → List (ℕ × List Ranked)
  group_ranked groups [] = groups
  group_ranked groups (r ∷ rs) =
      group_ranked (upsert (kind_priority r.result.kind) (λ g. g ++ r ∷ []) (r ∷ []) groups) rs

  abbrev pub least : List Ranked → ℕ
  least [] = 5
  least (r ∷ rs) = let rest = least rs in if leb r.relevance rest then r.relevance else rest

  abbrev pub sort_members : ℕ × List Ranked → List PaletteResult
  sort_members g = map (λ r. r.result) (sort_by by_pair (λ r. (r.relevance, r.index)) g.1)

  unfoldable pub filtered : List PaletteResult → List PaletteResult
  unfolding sort_by upsert includes
  filtered candidates = concat (
      map sort_members
        (sort_by by_pair (λ g. (least g.1, g.0)) (group_ranked [] (ranked_from 0 candidates))))

-- `kindCount`: the number of kinds among the results.
unfoldable pub kind_count : List PaletteResult → ℕ
unfolding add
kind_count results = length (add_all [] (map (λ r. kind_priority r.kind) results))
