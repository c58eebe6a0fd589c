-- ===== src/Api/Requests/Served.antt =====
-- What a server reads from the paths of the requests.
use Prim.Native.Char.{Char, code}
use Prim.Native.String.{String}
use text.Mathlib.TextLemmas.{append_assoc, append-nil, nil-append, cons-append}
use mystic_auth.Prelude.{
  ℕ, Bool, false, ◌||◌, ◌≡◌, refl, sym, ap, ◌∙◌, List, [], ◌∷◌, map, ℕ_eq, ◌<>◌, behind_each,
  split_from, split_at, All, nat_eq, arith,
}
use mystic_auth.Api.Requests.{path}
use mystic_auth.Api.Requests.Calls.{
  ApiCall, update_user, delete_user, purge_user, reactivate_user, list_user_passkeys,
  revoke_user_passkey, revoke_all_user_passkeys, update_user_role, get_policy, update_policy,
  delete_policy, get_policy_history, rollback_policy, get_policy_holders, assign_policy,
  revoke_policy, revoke_policy_action, get_user_policies, grant_permission, revoke_permission,
  get_user_permissions, reset_rate_limit, Segment, fixed, name, id, request_of, endpoint,
}

-- Whether a text has a slash.
abbrev pub has_slash : String → Bool
has_slash String.[] = false
has_slash (String.◌∷◌ c s) = let rest = has_slash s in nat_eq (code c) 47 || rest

no_slash :
    (c : Char) (s : String)
    → has_slash (String.◌∷◌ c s) ≡ false
    → (nat_eq (code c) 47 ≡ false) × (has_slash s ≡ false)
no_slash c s h = (ground arith, ground arith)

regroup :
    (part : String) (c : Char) (s : String)
    → (part <> String.◌∷◌ c "") <> s ≡ part <> String.◌∷◌ c s
regroup part c s =
    append_assoc part (String.◌∷◌ c "") s
    ∙ ap (λ v. part <> v) (cons-append c "" s ∙ ap (String.◌∷◌ c) (nil-append s))

abbrev slash : Char
slash = "/"

slash_cons : (t : String) → "/" <> t ≡ String.◌∷◌ slash t
slash_cons t = cons-append slash "" t ∙ ap (String.◌∷◌ slash) (nil-append t)

split_from-end : (part s : String) → has_slash s ≡ false → split_from 47 part s ≡ (part <> s) ∷ []
split_from-end part String.[] h = ap (λ v. v ∷ []) (sym (append-nil part))
split_from-end part (String.◌∷◌ c s) h =
    let (here, rest) = no_slash c s h in
    rw here (split_from-end (part <> String.◌∷◌ c "") s rest ∙ ap (λ v. v ∷ []) (regroup part c s))

split_from-slash :
    (part s t : String)
    → has_slash s ≡ false
    → split_from 47 part (s <> ("/" <> t)) ≡ (part <> s) ∷ split_from 47 "" t
split_from-slash part String.[] t h =
    ap (split_from 47 part) (nil-append ("/" <> t) ∙ slash_cons t)
    ∙ ap (λ v. v ∷ split_from 47 "" t) (sym (append-nil part))
split_from-slash part (String.◌∷◌ c s) t h =
    let (here, rest) = no_slash c s h in
    ap (split_from 47 part) (cons-append c s ("/" <> t))
    ∙ rw here (
        split_from-slash (part <> String.◌∷◌ c "") s t rest
        ∙ ap (λ v. v ∷ split_from 47 "" t) (regroup part c s))

split_from-segments :
    (s : String) (ss : List String)
    → has_slash s ≡ false
    → All (λ v. has_slash v ≡ false) ss
    → split_from 47 "" (s <> behind_each "/" ss) ≡ s ∷ ss
split_from-segments s [] h hs =
    ap (split_from 47 "") (append-nil s) ∙ (split_from-end "" s h ∙ ap (λ v. v ∷ []) (nil-append s))
split_from-segments s (t ∷ ss) h (ht, hs) =
    split_from-slash "" s (t <> behind_each "/" ss) h
    ∙ (ap (λ v. v ∷ split_from 47 "" (t <> behind_each "/" ss)) (nil-append s)
        ∙ ap (λ v. s ∷ v) (split_from-segments t ss ht hs))

-- Splitting a path gives its segments, behind an empty one.
split_at-path :
    (segments : List String)
    → All (λ s. has_slash s ≡ false) segments
    → split_at 47 (path segments) ≡ "" ∷ segments
unfolding split_at
split_at-path segments h =
    ap (split_from 47 "") (sym (nil-append (path segments)))
    ∙ split_from-segments "" segments refl h

-- Whether a text has a percent sign.
abbrev pub has_percent : String → Bool
has_percent String.[] = false
has_percent (String.◌∷◌ c s) = let rest = has_percent s in nat_eq (code c) 37 || rest

-- What `decodeURIComponent` and the text of a number promise of texts without a percent sign.
pub record PlainText (decode : String → String) (number_text : ℕ → String) : Type 0 where
  pub decode_plain : (s : String) → has_percent s ≡ false → decode s ≡ s
  pub number_slash : (n : ℕ) → has_slash (number_text n) ≡ false
  pub number_percent : (n : ℕ) → has_percent (number_text n) ≡ false

abbrev IsPlain : Segment → Type 0
IsPlain (fixed s) = (has_slash s ≡ false) × (has_percent s ≡ false)
IsPlain (name s) = Unit
IsPlain (id n) = Unit

module _ (encode decode : String → String) (number_text : ℕ → String) where
  -- A name that `encodeURIComponent` and `decodeURIComponent` take there and back, without a slash.
  abbrev pub IsEncoded : Segment → Type 0
  IsEncoded (fixed s) = Unit
  IsEncoded (name s) = (has_slash (encode s) ≡ false) × (decode (encode s) ≡ s)
  IsEncoded (id n) = Unit

  abbrev rendered : Segment → String
  rendered (fixed s) = s
  rendered (name s) = encode s
  rendered (id n) = number_text n

  -- A segment as it is meant.
  abbrev pub meant : Segment → String
  meant (fixed s) = s
  meant (name s) = s
  meant (id n) = number_text n

  rendered-slash :
      PlainText decode number_text
      → (g : Segment) → IsPlain g
      → IsEncoded g
      → has_slash (rendered g) ≡ false
  rendered-slash l (fixed s) p e = p.0
  rendered-slash l (name s) p e = e.0
  rendered-slash l (id n) p e = l.number_slash n

  decode-rendered :
      PlainText decode number_text
      → (g : Segment) → IsPlain g
      → IsEncoded g
      → decode (rendered g) ≡ meant g
  decode-rendered l (fixed s) p e = l.decode_plain s p.1
  decode-rendered l (name s) p e = e.1
  decode-rendered l (id n) p e = l.decode_plain (number_text n) (l.number_percent n)

  no_slashes :
      PlainText decode number_text
      → (gs : List Segment) → All IsPlain gs
      → All IsEncoded gs
      → All (λ s. has_slash s ≡ false) (map rendered gs)
  no_slashes l [] ps es = tt
  no_slashes l (g ∷ gs) (p, ps) (e, es) = (rendered-slash l g p e, no_slashes l gs ps es)

  map-rendered :
      PlainText decode number_text
      → (gs : List Segment) → All IsPlain gs
      → All IsEncoded gs
      → map decode (map rendered gs) ≡ map meant gs
  map-rendered l [] ps es = refl
  map-rendered l (g ∷ gs) (p, ps) (e, es) =
      rw (decode-rendered l g p e, map-rendered l gs ps es) refl

  module _ {P : Type 0} where
    abbrev Written : ApiCall P → Type 0
    Written c =
        ((request_of encode number_text c).url ≡ path (map rendered (endpoint c)))
        × All IsPlain (endpoint c)

    endpoint-Written : (c : ApiCall P) → Written c
    unfolding request_of endpoint
    endpoint-Written (update_user e p) = (refl, ((refl, refl), (tt, tt)))
    endpoint-Written (delete_user e) = (refl, ((refl, refl), (tt, tt)))
    endpoint-Written (purge_user e) = (refl, ((refl, refl), (tt, ((refl, refl), tt))))
    endpoint-Written (reactivate_user e) = (refl, ((refl, refl), (tt, ((refl, refl), tt))))
    endpoint-Written (list_user_passkeys e) = (refl, ((refl, refl), (tt, ((refl, refl), tt))))
    endpoint-Written (revoke_user_passkey e n) =
        (refl, ((refl, refl), (tt, ((refl, refl), (tt, tt)))))
    endpoint-Written (revoke_all_user_passkeys e) = (refl, ((refl, refl), (tt, ((refl, refl), tt))))
    endpoint-Written (update_user_role e role) = (refl, ((refl, refl), (tt, ((refl, refl), tt))))
    endpoint-Written (get_policy p) = (refl, ((refl, refl), ((refl, refl), (tt, tt))))
    endpoint-Written (update_policy p body) = (refl, ((refl, refl), ((refl, refl), (tt, tt))))
    endpoint-Written (delete_policy p reason) = (refl, ((refl, refl), ((refl, refl), (tt, tt))))
    endpoint-Written (get_policy_history p limit offset) =
        (refl, ((refl, refl), ((refl, refl), (tt, ((refl, refl), tt)))))
    endpoint-Written (rollback_policy p n reason) =
        (refl, ((refl, refl), ((refl, refl), (tt, ((refl, refl), (tt, ((refl, refl), tt)))))))
    endpoint-Written (get_policy_holders p) =
        (refl, ((refl, refl), ((refl, refl), (tt, ((refl, refl), tt)))))
    endpoint-Written (assign_policy e p) =
        (refl, ((refl, refl), ((refl, refl), (tt, ((refl, refl), tt)))))
    endpoint-Written (revoke_policy e p) =
        (refl, ((refl, refl), ((refl, refl), (tt, ((refl, refl), (tt, tt))))))
    endpoint-Written (revoke_policy_action e p a) =
        (refl, ((refl, refl), ((refl, refl), (tt, ((refl, refl), (tt, ((refl, refl), tt)))))))
    endpoint-Written (get_user_policies e) =
        (refl, ((refl, refl), ((refl, refl), (tt, ((refl, refl), tt)))))
    endpoint-Written (grant_permission e body) =
        (refl, ((refl, refl), ((refl, refl), (tt, ((refl, refl), tt)))))
    endpoint-Written (revoke_permission e a r) =
        (refl, ((refl, refl), ((refl, refl), (tt, ((refl, refl), (tt, tt))))))
    endpoint-Written (get_user_permissions e) =
        (refl, ((refl, refl), ((refl, refl), (tt, ((refl, refl), tt)))))
    endpoint-Written (reset_rate_limit key) = (refl, ((refl, refl), (tt, tt)))

    -- A server that splits the path of a request at its slashes and decodes every segment gets the
    -- endpoint that is meant and the names as they are, whatever characters they have, as long as
    -- `encodeURIComponent` and `decodeURIComponent` take them there and back.
    pub request_of-endpoint :
        PlainText decode number_text
        → (c : ApiCall P) → All IsEncoded (endpoint c)
        → map decode (split_at 47 (request_of encode number_text c).url)
          ≡ "" ∷ map meant (endpoint c)
    request_of-endpoint l c e =
        let (url, plain) = endpoint-Written c in
        rw
          (
            url,
            split_at-path (map rendered (endpoint c)) (no_slashes l (endpoint c) plain e),
            l.decode_plain "" refl,
            map-rendered l (endpoint c) plain e,
          )
          refl
