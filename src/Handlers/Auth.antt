-- ===== src/Handlers/Auth.antt =====
-- handlers/auth.go. SHA-256 is a parameter; subtle.ConstantTimeCompare is equality of byte slices.
use tiny_url.Prelude.{
  ℕ, zero, suc, ◌+◌, ◌/◌, ◌%◌, Text, Bool, true, false, Option, none, some, [], ◌∷◌, ◌++◌, ◌&&◌,
  not, ltb, is_empty, same, codes, if◌then◌else◌,
}
use tiny_url.Prelude.Int.{ℤ, pos, negsuc, same_int}
use tiny_url.Prelude.Strings.{strip_prefix, trim_space}
use tiny_url.Models.{Time, UrlMapping, AuditEvent}
use tiny_url.Store.{Store, ok, err}

unfoldable pub digits : ℕ → ℕ → Text
digits zero n = []
digits (suc fuel) n =
    let more = digits fuel (n / 10) in
    if ltb n 10 then (48 + n) ∷ [] else more ++ (48 + n % 10) ∷ []

-- fmt.Sprintf("%d", n), for an int64, which has at most 19 digits
unfoldable pub decimal : ℤ → Text
unfolding digits
decimal (pos n) = digits 20 n
decimal (negsuc n) = 45 ∷ digits 20 (suc n)

module _ (sha256 : Text → Text) where
  -- The hash of the bearer token; `none` for the nil hash.
  unfoldable pub extract_bearer : Text → Option Text
  extract_bearer authorization = elim (strip_prefix (codes "Bearer ") authorization) [
    | none ↦ none
    | some rest ↦
        let token = trim_space rest in if is_empty token then none else some (sha256 token)
  ]

  unfoldable pub authorize_owner : Text → Text → Bool
  authorize_owner authorization expected_hash =
      if is_empty expected_hash
      then false
      else elim (extract_bearer authorization) [ none ↦ false | some got ↦ same got expected_hash ]

  -- The admin token's check, in authorizeAccess and resolveActor.
  abbrev pub owns : Text → UrlMapping → Bool
  owns hash m = not (is_empty m.owner_token_hash) && same hash m.owner_token_hash

  module _ (S : Store) where
    unfoldable pub authorize_access : Time → Text → UrlMapping → S.State → Bool × S.State
    authorize_access now authorization m s = elim (extract_bearer authorization) [
      | none ↦ (false, s)
      | some hash ↦
          if owns hash m
          then (true, s)
          else if same_int m.api_key_id (pos 0)
          then (false, s)
          else let (found, after) = S.lookup_api_key now hash s in
            elim found [ err e ↦ (false, after) | ok key ↦ (same_int key.id m.api_key_id, after) ]
    ]

    unfoldable pub resolve_actor :
        Time → Text → Option UrlMapping → S.State → (Text × Text) × S.State
    resolve_actor now authorization mapping s = elim (extract_bearer authorization) [
      | none ↦ ((codes "anon", []), s)
      | some hash ↦
          let owned : Bool = elim mapping [ none ↦ false | some m ↦ owns hash m ] in
          let code : Text = elim mapping [ none ↦ [] | some m ↦ m.id ] in
          let (found, after) = S.lookup_api_key now hash s in
          if owned then ((codes "admin_token", code), s) else elim found [
            | err e ↦ ((codes "anon", []), after)
            | ok key ↦ ((codes "apikey", decimal key.id), after)
          ]
    ]

module _ (S : Store) where
  -- An error of the write is logged and dropped.
  unfoldable pub log_audit_best_effort : Time → AuditEvent → S.State → S.State
  log_audit_best_effort now ev s = (S.log_audit now ev s).1
