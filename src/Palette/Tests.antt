-- ===== src/Palette/Tests.antt =====
-- Examples for the command palette.
use mystic_auth.Prelude.{
  String_eq, ℕ_eq, false, ◌≡◌, refl, none, some, List, [], ◌∷◌, map, upsert, includes, sort_by, add,
}
use mystic_auth.Palette.{
  PaletteResult, of_page, of_content, filtered, kind_count, permission_matches,
}

abbrev dashboard : PaletteResult
dashboard = record { kind = of_page; to = "/dashboard"; label = "dashboard"; sublabel = none }

abbrev events : PaletteResult
events = record {
  kind = of_content;
  to = "/audit-log";
  label = "security events";
  sublabel = some "audit log";
}

abbrev candidates : List PaletteResult
candidates = dashboard ∷ events ∷ []

label_match_first :
    map (λ r. r.label) (filtered (λ s. s) "secur" candidates) ≡ "security events" ∷ "dashboard" ∷ []
unfolding filtered sort_by upsert includes
label_match_first = refl

two_kinds : kind_count candidates ≡ 2
unfolding kind_count add
two_kinds = refl

no_permission :
    permission_matches
      (λ s. s)
      (λ s. s)
      "read"
      false
      (some (record { action = "users:read"; resource_type = "users"; description = none } ∷ []))
      "Permissions"
    ≡ []
unfolding permission_matches
no_permission = refl
