-- ===== src/Users/Page.antt =====
-- frontend/src/mystic_auth/users/useUsersPageState.ts, usePageResetOn of ui/hooks, and
-- fetchAllMatchingUserEmails of users/queries/userQueries.ts. The list endpoint, the translations
-- and the fields of a row that no modelled code reads are parameters or left out; the keys that
-- stand for all filters are texts.
pub mod Stale
pub mod Fetched
pub mod Bounds
mod Tests
use mystic_auth.Prelude.{
  ℕ, zero, suc, ◌+◌, ◌-◌, ◌*◌, ◌/◌, String, Bool, true, false, not, ◌||◌, Option, none, some,
  get_or, List, [], ◌∷◌, ◌++◌, map, ◌==◌, String_eq, ℕ_eq, ltb, leb, length, filter, has,
  if◌then◌else◌, Result, rejected, resolved, Async, and_then,
}
use mystic_auth.Ui.Toaster.{success, error}
use mystic_auth.Ui.Undo.{Screen, Pending, Handled, toast_of, show, show_error, on_page}

pub record ManagedUser : Type 0 where
  pub id : ℕ
  pub email : String

abbrev pub page_size : ℕ
page_size = 25

-- `toBoolFilter`
unfoldable pub to_bool_filter : String → Option Bool
to_bool_filter value = if value == "" then none else some (value == "true")

-- `totalPages`: the whole part of the quotient, rounded up.
unfoldable pub total_pages : Option ℕ → ℕ
total_pages none = 1
total_pages (some total) =
    let pages = (total + (page_size - 1)) / page_size in if ltb pages 1 then 1 else pages

-- `value || undefined`
abbrev pub given_text : String → Option String
given_text s = if s == "" then none else some s

pub record ActiveFilters : Type 0 where
  pub search : String
  pub role : Option String
  pub is_verified : Option Bool
  pub status : Option String
  pub policy : Option String
  pub permission : Option String
  pub permission_source : Option String
  pub last_login : Option String

-- The values of the filters of a render, and whether the user may filter by access.
unfoldable pub active_filters :
    (search role verified status policy permission : String)
    → Option String
    → String
    → Bool
    → ActiveFilters
unfolding to_bool_filter
active_filters search role verified status policy permission permission_source last_login
      can_filter_by_access =
    record {
      search = search;
      role = given_text role;
      is_verified = to_bool_filter verified;
      status = given_text status;
      policy = if can_filter_by_access then given_text policy else none;
      permission = if can_filter_by_access then given_text permission else none;
      permission_source = if can_filter_by_access then permission_source else none;
      last_login = given_text last_login;
    }

-- `usePageResetOn`: the page, and the key it was reset for.
pub record PageReset : Type 0 where
  pub page : ℕ
  pub prev_reset_key : String

unfoldable pub use_page_reset_on : String → PageReset → PageReset
use_page_reset_on reset_key p =
    if reset_key == p.prev_reset_key then p else record { page = 1; prev_reset_key = reset_key }

pub record UsersPage : Type 0 where
  pub selected_user_ids : List ℕ
  pub select_all_matching : Bool
  pub all_matching_emails : List String
  pub is_selecting_all_matching : Bool
  pub prev_selection_key : String
  pub deleting_user : Option ManagedUser
  pub purging_user : Option ManagedUser
  pub pending_role_change : Option (ManagedUser × String)

-- The reset during a render.
unfoldable pub render_selection : String → UsersPage → UsersPage
render_selection selection_reset_key p =
    if selection_reset_key == p.prev_selection_key then p else record p {
      prev_selection_key = selection_reset_key;
      selected_user_ids = [];
      select_all_matching = false;
    }

unfoldable pub selected_user_emails : Option (List ManagedUser) → UsersPage → List String
selected_user_emails users p =
    if p.select_all_matching
    then p.all_matching_emails
    else map (λ u. u.email) (filter (λ u. has p.selected_user_ids u.id) (get_or users []))

unfoldable pub selected_count : Option ℕ → UsersPage → ℕ
selected_count total p =
    if p.select_all_matching
    then get_or total (length p.all_matching_emails)
    else length p.selected_user_ids

unfoldable pub clear_selection : UsersPage → UsersPage
clear_selection p = record p { selected_user_ids = []; select_all_matching = false }

unfoldable pub handle_selection_change : (List ℕ → List ℕ) → UsersPage → UsersPage
handle_selection_change update p = record p {
  select_all_matching = false;
  selected_user_ids = update p.selected_user_ids;
}

-- `handleSelectAllMatching` until it awaits the emails.
unfoldable pub start_select_all : UsersPage → UsersPage
start_select_all p = record p { is_selecting_all_matching = true }

module _ {R : Type 0} where
  -- The rest of it, on the page of that time.
  unfoldable pub finish_select_all :
      Result String (List String) → Screen R UsersPage → Screen R UsersPage
  finish_select_all (resolved emails) screen = record screen {
    page = record screen.page {
      all_matching_emails = emails;
      select_all_matching = true;
      is_selecting_all_matching = false;
    };
  }
  finish_select_all (rejected message) screen =
      on_page (λ p. record p { is_selecting_all_matching = false }) (show_error message screen)

-- The requests of the page's mutations.
pub data UserRequest : Type 0 where
  update_role : String → String → UserRequest
  delete_user : String → UserRequest
  purge_user : String → UserRequest
  reactivate_user : String → UserRequest

module _ (t : String → String) where
  abbrev pub start_request :
      UserRequest → String → (UsersPage → UsersPage) → Pending UserRequest UsersPage
  start_request request title closed = record {
    request = request;
    on_success = λ screen. on_page closed (show (toast_of title success) screen);
    on_error = show_error;
  }

  abbrev pub role_change_of : Option (ManagedUser × String) → Option (Pending UserRequest UsersPage)
  role_change_of none = none
  role_change_of (some (user, role)) = some (
      start_request (update_role user.email role) (t "users:page.roleUpdatedToast")
        (λ p. record p { pending_role_change = none }))

  unfoldable pub handle_role_change_confirm :
      Screen UserRequest UsersPage → Handled UserRequest UsersPage
  handle_role_change_confirm screen = (screen, role_change_of screen.page.pending_role_change)

  abbrev pub delete_of : Option ManagedUser → Option (Pending UserRequest UsersPage)
  delete_of none = none
  delete_of (some user) = some (
      start_request (delete_user user.email) (t "users:page.userDeactivatedToast")
        (λ p. record p { deleting_user = none }))

  unfoldable pub handle_delete_confirm :
      Screen UserRequest UsersPage → Handled UserRequest UsersPage
  handle_delete_confirm screen = (screen, delete_of screen.page.deleting_user)

  abbrev pub purge_of : Option ManagedUser → Option (Pending UserRequest UsersPage)
  purge_of none = none
  purge_of (some user) = some (
      start_request (purge_user user.email) (t "users:page.userDeletedToast")
        (λ p. record p { purging_user = none }))

  unfoldable pub handle_purge_confirm : Screen UserRequest UsersPage → Handled UserRequest UsersPage
  handle_purge_confirm screen = (screen, purge_of screen.page.purging_user)

  unfoldable pub handle_reactivate :
      String → Screen UserRequest UsersPage → Handled UserRequest UsersPage
  handle_reactivate user_email screen = (
    screen,
    some
        (start_request (reactivate_user user_email) (t "users:page.userReactivatedToast") (λ p. p)),
  )

-- `SELECT_ALL_MATCHING_MAX`, and the page size of the loop below.
abbrev pub select_all_matching_max : ℕ
select_all_matching_max = 2000

abbrev pub fetch_page_size : ℕ
fetch_page_size = 1000

-- What the list endpoint answers: the rows, and the total of its header if that is a number.
pub record ListAnswer : Type 0 where
  pub rows : List ManagedUser
  pub total : Option ℕ

-- `!Number.isFinite(total) || emails.length >= total || res.data.length === 0`
abbrev pub is_last : List String → ListAnswer → Bool
is_last emails answer =
    elim answer.total [ none ↦ true | some total ↦ leb total (length emails) ]
    || length answer.rows == 0

module _ {W E : Type 0} (list_users : ℕ → ℕ → Async W E ListAnswer) (too_many stuck : E) where
  -- The loop of `fetchAllMatchingUserEmails`, on fuel: `stuck` when it runs out.
  unfoldable pub fetch_from : ℕ → ℕ → List String → Async W E (List String)
  fetch_from zero offset emails w = (rejected stuck, w)
  fetch_from (suc fuel) offset emails w =
      and_then (list_users fetch_page_size offset)
        (λ answer.
          let more = emails ++ map (λ u. u.email) answer.rows in
          let rest = fetch_from fuel (offset + fetch_page_size) more in
          if ltb select_all_matching_max (length more)
          then (λ v. (rejected too_many, v))
          else (if is_last more answer then (λ v. (resolved more, v)) else rest))
        w

  -- Each round but the last brings an email at least, and more than the maximum end the loop.
  unfoldable pub fetch_all_matching_user_emails : Async W E (List String)
  unfolding fetch_from
  fetch_all_matching_user_emails = fetch_from (select_all_matching_max + 2) 0 []
