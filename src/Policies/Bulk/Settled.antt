-- ===== src/Policies/Bulk/Settled.antt =====
-- The `onSuccess` handlers of bulkAssignmentMutations.ts, on the state of the tab.
use mystic_auth.Prelude.{
  ℕ, ◌+◌, ◌≡◌, refl, ap, ◌∙◌, List, [], ◌∷◌, map, String, String_eq, Bool, true, false, some,
  get_or, ◌==◌, ==_iff, length, filter, has, add, add_all, Unique, has-add_all, add-Unique,
  length-append, filter-append, if◌then◌else◌, Bool-cases, inl, inr, arith,
}
use mystic_auth.Session.{
  Tab, QueryKey, QueryCommand, invalidate, command, current_user, users, permission_catalog_usage,
  my_policies, my_permissions, user_policies, user_permissions,
}
use mystic_auth.Session.Guards.{mark_self_permission_mutation}
use mystic_auth.Policies.Bulk.{BulkResponse, distinct_emails, invalidate_self_if_included}

-- `emails.forEach((email) => queryClient.invalidateQueries({ queryKey: key(email) }))`
abbrev pub invalidate_each : (String → QueryKey) → List String → Tab → Tab
invalidate_each key [] t = t
invalidate_each key (e ∷ es) t = invalidate_each key es (command (invalidate (key e)) t)

-- `onSuccess` of the two mutations of policies.
unfoldable pub policies_on_success : BulkResponse → Tab → Tab
unfolding distinct_emails invalidate_self_if_included
policies_on_success response t =
    let emails = distinct_emails response in
    invalidate_self_if_included emails true (
      command (invalidate my_policies)
        (invalidate_each user_policies emails (command (invalidate permission_catalog_usage) t)))

-- `onSuccess` of the two mutations of permissions.
unfoldable pub permissions_on_success : BulkResponse → Tab → Tab
unfolding distinct_emails invalidate_self_if_included
permissions_on_success response t =
    let emails = distinct_emails response in
    invalidate_self_if_included emails true (
      command (invalidate my_permissions)
        (invalidate_each user_permissions emails (command (invalidate permission_catalog_usage) t)))

-- `onSuccess` of the mutation of the role.
unfoldable pub role_on_success : BulkResponse → Tab → Tab
unfolding distinct_emails invalidate_self_if_included
role_on_success response t =
    invalidate_self_if_included (distinct_emails response) false (command (invalidate users) t)

-- The invalidations of a user's policies.
abbrev pub is_policies_of : String → QueryCommand → Bool
is_policies_of email (invalidate (user_policies e)) = e == email
is_policies_of email _ = false

abbrev pub count_policies_of : String → Tab → ℕ
count_policies_of email t = length (filter (is_policies_of email) t.queries)

count-command :
    (email : String) (c : QueryCommand) (t : Tab)
    → count_policies_of email (command c t)
      ≡ count_policies_of email t + (if is_policies_of email c then 1 else 0)
count-command email c t = ground (
  arith,
  filter-append (is_policies_of email) t.queries (c ∷ []),
  length-append (filter (is_policies_of email) t.queries) (filter (is_policies_of email) (c ∷ [])),
)

count-invalidate_each :
    (email : String) (es : List String) (t : Tab)
    → Unique es
    → count_policies_of email (invalidate_each user_policies es t)
      ≡ count_policies_of email t + (if has es email then 1 else 0)
count-invalidate_each email [] t u = omega arith
count-invalidate_each email (e ∷ es) t (n, u) =
    let next = command (invalidate (user_policies e)) t in
    ground (
      arith,
      count-invalidate_each email es next u,
      count-command email (invalidate (user_policies e)) t,
      ==_iff e email,
    )

add_all-Unique : (s bs : List String) → Unique s → Unique (add_all s bs)
add_all-Unique s [] u = u
add_all-Unique s (b ∷ bs) u = add_all-Unique (add s b) bs (add-Unique s b u)

distinct_emails-Unique : (response : BulkResponse) → Unique (distinct_emails response)
unfolding distinct_emails
distinct_emails-Unique response = add_all-Unique [] (map (λ r. r.user_email) response.results) tt

-- What the invalidations leave of the tab, for the flag of the caller's own change.
abbrev IsSameSelf : Tab → Tab → Type 0
IsSameSelf s t =
    (s.auth ≡ t.auth) × (s.now ≡ t.now) × (s.last_self_mutation_at ≡ t.last_self_mutation_at)

invalidate_each-IsSameSelf :
    (key : String → QueryKey) (es : List String) (t : Tab) → IsSameSelf (invalidate_each key es t) t
invalidate_each-IsSameSelf key [] t = (refl, refl, refl)
invalidate_each-IsSameSelf key (e ∷ es) t =
    invalidate_each-IsSameSelf key es (command (invalidate (key e)) t)

abbrev pub affected : BulkResponse → String → Bool
affected response email = has (map (λ r. r.user_email) response.results) email

abbrev pub own_email : Tab → String
own_email t = get_or t.auth.email ""

has-distinct_emails :
    (response : BulkResponse) (email : String)
    → has (distinct_emails response) email ≡ affected response email
unfolding distinct_emails
has-distinct_emails response email = has-add_all [] (map (λ r. r.user_email) response.results) email

count-invalidate_self :
    (email : String) (es : List String) (t : Tab)
    → count_policies_of email (invalidate_self_if_included es true t) ≡ count_policies_of email t
unfolding invalidate_self_if_included mark_self_permission_mutation
count-invalidate_self email es t = elim (Bool-cases (has es (own_email t))) [
  | inl e ↦ rw e (ground (arith, count-command email (invalidate current_user) t))
  | inr e ↦ rw e refl
]

invalidate_self-marks :
    (es : List String) (t : Tab)
    → (invalidate_self_if_included es true t).last_self_mutation_at
      ≡ (if has es (own_email t) then some t.now else t.last_self_mutation_at)
unfolding invalidate_self_if_included mark_self_permission_mutation
invalidate_self-marks es t = elim (Bool-cases (has es (own_email t))) [
  | inl e ↦ rw e refl
  | inr e ↦ rw e refl
]

marks-IsSameSelf :
    (es : List String) (s t : Tab)
    → IsSameSelf s t
    → (if has es (own_email s) then some s.now else s.last_self_mutation_at)
      ≡ (if has es (own_email t) then some t.now else t.last_self_mutation_at)
marks-IsSameSelf es s t (a, n, l) =
    ap (λ auth. if has es (get_or auth.email "") then some s.now else s.last_self_mutation_at) a
    ∙ ap (λ now. if has es (own_email t) then some now else s.last_self_mutation_at) n
    ∙ ap (λ last. if has es (own_email t) then some t.now else last) l

-- When a bulk change of policies has resolved, each user in its results has their policies
-- invalidated once and no other user has; and the tab notes a change of its own permissions exactly
-- if its user is among them.
policies_on_success-affected :
    (response : BulkResponse) (t : Tab)
    → ((email : String)
        → count_policies_of email (policies_on_success response t)
          ≡ count_policies_of email t + (if affected response email then 1 else 0))
      × ((policies_on_success response t).last_self_mutation_at
          ≡ (if affected response (own_email t) then some t.now else t.last_self_mutation_at))
unfolding policies_on_success
policies_on_success-affected response t =
    let es = distinct_emails response in
    let start = command (invalidate permission_catalog_usage) t in
    let each = invalidate_each user_policies es start in
    (
      λ email. ground (
        arith,
        count-invalidate_self email es (command (invalidate my_policies) each),
        count-command email (invalidate my_policies) each,
        count-invalidate_each email es start (distinct_emails-Unique response),
        count-command email (invalidate permission_catalog_usage) t,
        has-distinct_emails response email,
      ),
      invalidate_self-marks es (command (invalidate my_policies) each)
          ∙ marks-IsSameSelf es each t (invalidate_each-IsSameSelf user_policies es start)
          ∙ ap (λ b. if b then some t.now else t.last_self_mutation_at)
              (has-distinct_emails response (own_email t)),
    )
