-- ===== src/Users/Page/Fetched.antt =====
-- `fetchAllMatchingUserEmails` against an endpoint that pages through a fixed list of users.
use mystic_auth.Prelude.{
  ℕ, zero, suc, ◌+◌, ◌*◌, ◌≤◌, ◌≡◌, refl, sym, ap, ◌∙◌, inl, inr, Bool-cases, List, ◌++◌, map, true,
  false, String, some, ltb, leb, length, take, drop, ℕ_eq, take-add, take_all, length-take,
  length-map, length-drop, map-append, Result, rejected, resolved, Async, if◌then◌else◌, arith,
}
use mystic_auth.Users.Page.{ManagedUser, ListAnswer, fetch_from, fetch_all_matching_user_emails}

more-emails_to :
    (us : List ManagedUser) (offset : ℕ)
    → map (λ u. u.email) (take offset us) ++ map (λ u. u.email) (take 1000 (drop offset us))
      ≡ map (λ u. u.email) (take (offset + 1000) us)
more-emails_to us offset =
    sym (map-append (λ u. u.email) (take offset us) (take 1000 (drop offset us)))
    ∙ ap (map (λ u. u.email)) (sym (take-add offset 1000 us))

over_max : (n total : ℕ) → leb total n ≡ false → ltb 2000 n ≡ true → ltb 2000 total ≡ true
over_max n total h k = ground arith

ltb-false : (a b : ℕ) → ltb a b ≡ false → b ≤ a
ltb-false a b h = ground arith

leb-false : (a b : ℕ) → leb a b ≡ false → b + 1 ≤ a
leb-false a b h = ground arith

leb-true : (a b : ℕ) → leb a b ≡ true → a ≤ b
leb-true a b h = ground arith

-- An endpoint that answers a request by the rows from the offset on, and their total number.
abbrev pub paged : {W E : Type 0} → List ManagedUser → ℕ → ℕ → Async W E ListAnswer
paged us limit offset w =
    (resolved (record { rows = take limit (drop offset us); total = some (length us) }), w)

module _ {W E : Type 0} (us : List ManagedUser) (too_many stuck : E) where
  abbrev expected : W → Result E (List String) × W
  expected w =
      if ltb 2000 (length us) then (rejected too_many, w) else (resolved (map (λ u. u.email) us), w)

  fetch_from-expected :
      (fuel offset : ℕ) (w : W)
      → offset ≤ 2000
      → offset ≤ length us
      → 3000 ≤ fuel * 1000 + offset
      → fetch_from (paged us) too_many stuck fuel offset (map (λ u. u.email) (take offset us)) w
        ≡ expected w
  unfolding fetch_from
  fetch_from-expected zero offset w h k l = absurd (omega arith)
  fetch_from-expected (suc fuel) offset w h k l =
      rw (more-emails_to us offset) (elim (Bool-cases (leb (length us) (offset + 1000))) [
        | inl last ↦
            let all_of : take (offset + 1000) us ≡ us =
              take_all (offset + 1000) us (leb-true _ _ last) in
            let within : leb (length us) (length us) ≡ true = ground arith in
            rw all_of (
              rw (length-map (λ u. u.email) us) (elim (Bool-cases (ltb 2000 (length us))) [
                | inl over ↦ rw over refl
                | inr fits ↦ rw fits (rw within refl)
              ]))
        | inr goes_on ↦
            let count : length (map (λ u. u.email) (take (offset + 1000) us)) ≡ offset + 1000 =
              length-map (λ u. u.email) (take (offset + 1000) us)
              ∙ length-take (offset + 1000) us (omega (arith, leb-false _ _ goes_on)) in
            let rows : length (take 1000 (drop offset us)) ≡ 1000 =
              length-take 1000 (drop offset us)
                (omega (arith, length-drop offset us, leb-false _ _ goes_on)) in
            rw count (elim (Bool-cases (ltb 2000 (offset + 1000))) [
              | inl over ↦
                  let many : ltb 2000 (length us) ≡ true =
                    over_max (offset + 1000) (length us) goes_on over in
                  rw over (rw many refl)
              | inr fits ↦ rw fits (
                  rw goes_on (
                    rw rows (
                      fetch_from-expected fuel (offset + 1000) w (ltb-false _ _ fits)
                        (omega (arith, leb-false _ _ goes_on)) (omega arith))))
            ])
      ])

  -- Against an endpoint that pages through a fixed list, the fetch ends: with the emails of all
  -- users, each once and in order, if there are at most 2000, and otherwise with the error that
  -- asks for narrower filters.
  pub fetch_all_matching_user_emails-expected :
      (w : W)
      → fetch_all_matching_user_emails (paged us) too_many stuck w ≡ (
          if ltb 2000 (length us)
          then (rejected too_many, w)
          else (resolved (map (λ u. u.email) us), w))
  unfolding fetch_all_matching_user_emails
  fetch_all_matching_user_emails-expected w =
      fetch_from-expected 2002 0 w (omega arith) (omega arith) (omega arith)
