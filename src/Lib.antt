-- ===== src/Lib.antt =====
-- The session, the permission logic and the access management of the mystic-auth front end.
--
-- All paths below are under frontend/src/mystic_auth/.
--
-- Policies models what a user holds by policies and direct grants: Policies/EffectiveGrants is
-- policies/logic/effectiveGrants.ts, function by function, under the source's names. Its child
-- modules hold the theorems: Keys (grant keys as texts), Coverage (the key set against a direct
-- reading of policies and grants), Wildcards (grants on "*"), Sources, Provenance and Pairs (the list
-- that says why a pair is held), Groups. A `Set` is an insertion-ordered list without duplicates, a
-- `Map` an association list in insertion order (Prelude/Sets, Prelude/Maps). Texts are lists of
-- characters, compared whole.
--
-- Policies/Bulk is policies/queries/bulkAssignmentMutations.ts with the requests of
-- api/bulk_assignment_api.ts: the chunks of a request, the five mutations against a backend that is
-- a parameter, and what they do to the tab when they succeed. An awaited call is a function on the
-- state of the world outside that gives an outcome and the state after it (Prelude/Awaits).
--
-- Api is api/apiError.ts: the message that a failed request is shown by. Api/Requests is
-- api/users_api.ts, api/policies_api.ts, api/permissions_api.ts and the reset of
-- api/rate_limits_api.ts, each request as a value, and Api/Requests/Calls gathers those that name
-- something, with their endpoints.
--
-- Ui/Undo is what the handlers below share: a screen with its toaster, mutations in flight, and the
-- closures that the actions of toasts run, kept as data by the id of their toast. A click on the
-- action of a toast (ui/toaster/toaster.tsx) runs the closure that its id has.
--   Users/AccessHandlers   users/dialogs/userAccessDialogHandlers.ts
--   Policies/PageHandlers  policies/policiesPageHandlers.ts
--   Policies/Form          policies/dialogs/usePolicyFormState.ts, with the options it offers
--   Users/Page             users/useUsersPageState.ts, ui/hooks/usePageResetOn.ts and
--                          fetchAllMatchingUserEmails of users/queries/userQueries.ts
--   Users/Filters          users/useUsersPageFilters.ts, users/usersUiStore.ts and
--                          ui/hooks/useSortState.ts
--   Users/AccessDialog     users/dialogs/useUserAccessDialogState.ts
-- A handler is split where it waits for its request; what happens on success and on an error runs
-- on the screen of that time. Loops of the source that count are on fuel: as many rounds as a list
-- has elements for the chunks, and 2002 for the fetch of all emails, since every round but the last
-- brings an email at least and more than 2000 end it.
--
-- Passkeys is passkeys/usePasskeyManagement.ts.
--
-- AuditLog/AccessChanges is audit_log/security_log/securityAccessChangeDetails.ts, AuditLog/TimeRange
-- is audit_log/auditLogListConfig.ts.
--
-- Translations is translations/searchText.ts: the search in the trees of the translation library.
--
-- Palette is layout/command_palette/CommandPaletteResults.ts: the results from backend data and the
-- order of all results. Palette/Items is layout/app_layout/navItems.ts and
-- layout/command_palette/searchItems.ts, Palette/Search the pages, features and texts that match,
-- and the whole hook. `toLowerCase` is a parameter with three laws of Unicode (Prelude/Texts).
--
-- Language is store/languageStore.ts, with the loads under way, and those that have failed, as part
-- of the state.
--
-- Policies/Lists is policies/policyListHelpers.ts: the filtered list, its pages and its groups. The
-- text functions of the browser are parameters.
--
-- Users/AccessRows is users/dialogs/userAccessDialogRows.ts: the lists of the access dialog.
--
-- Ui/Selection is ui/DataTable/DataTableSelection.ts, Ui/Toaster is ui/toaster/toasterInstance.ts,
-- with the timers that are pending as part of the state and their firing as steps, Ui/Cooldown is
-- ui/hooks/useCooldown.ts, with the intervals that run, Ui/Preferences is store/fontSizeStore.ts and
-- store/themeStore.ts, and Passwords is auth/password_rules/passwordRules.ts.
--
-- Authorization models authorization/useAuthorization.ts, useCan.ts, grantability.ts and
-- destructiveActions.ts: the checks that a screen makes on the auth store.
--
-- Session models one browser tab. The record `Tab` holds the auth store, the module-level variables
-- of auth/session_lifecycle, the shared localStorage item of the last rotation, the calls made on
-- the query client and on the toaster, and the clock.
--   Session/AuthStore    store/authStore.ts
--   Session/Guards       auth/session_lifecycle/sessionRotationGuard.ts and
--                        selfPermissionMutationGuard.ts
--   Session/CrossTab     auth/session_lifecycle/crossTabRefresh.ts, with Web Locks; its child
--                        Lease is the fallback without them, as steps of several tabs
--   Session/Interceptor  auth/session_lifecycle/setupAuthInterceptor.ts
--   Session/Events       auth/login/useLoginMutation.ts, auth/current_user/useCurrentUserQuery.ts,
--                        auth/session_lifecycle/clearMyAccountSessionCaches.ts and
--                        useSessionEventsStream.ts, policies/queries/policyMutations.ts and
--                        permissionMutations.ts: what each handler does to the tab
--   Session/Mutations    the mutations of auth/login, auth/logout, auth/logout_all,
--                        account_deletion, account_settings, active_sessions, users/queries,
--                        policies/queries and rate_limits, request and handlers together
-- Asynchronous code of the interceptor is a state monad (Session/Run) that also counts the HTTP
-- requests sent. What a promise waits for is a parameter, the record `Network`: it answers a request,
-- joins a refresh that is under way, waits for the lock and for the rotation of another request, and
-- each time hands back a tab that may have changed meanwhile in any way. A wait for another request
-- may be one without an end; a request that waits for its own promise never ends
-- (Session/Interceptor/SelfWait). The one law asked of every network is that an error names the
-- request that it is about, or none, as axios documents. An intercepted request may send further
-- intercepted requests; `api` takes fuel for that nesting, and four is enough, since each nested
-- request has a flag set or an excluded path that its parent had not.
--
-- Not modelled: React components, the texts of the translations and the styling, the other wrappers
-- that make one HTTP call each, the waits in the lease loop of crossTabRefresh.ts, exceptions of
-- localStorage, and the backend.
pub mod Prelude
pub mod Passwords
pub mod Passkeys
pub mod Ui
pub mod Users
pub mod Api
pub mod Language
pub mod Policies
pub mod Authorization
pub mod Session
pub mod Translations
pub mod Palette
pub mod AuditLog
