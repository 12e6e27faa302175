-- ===== src/Handlers/Shorten.antt =====
-- handlers/shorten.go: shortenOne, detectAPIKey and the messages of the validation errors. What the
-- steps draw at random is in `Draws`; a read of random bytes that fails is `none`. SHA-256, PBKDF2 and
-- base64url are parameters, and so are those of the validation.
pub mod One
pub mod Serve
pub mod Created
use tiny_url.Prelude.{
  ℕ, ◌*◌, List, Text, Bool, true, false, Option, none, some, [], ◌∷◌, ◌++◌, is_empty, ltb, codes,
  length, if◌then◌else◌,
}
use tiny_url.Prelude.Int.{ℤ, pos, lt_int, ◌+ℤ◌}
use tiny_url.Prelude.Words.{mul64}
use tiny_url.Models.{Time, UrlMapping, ShortenRequest, Destination}
use tiny_url.Store.{
  Store, Result, ok, err, StoreError, not_found, expired, code_conflict, backend, panicked, Done,
}
use tiny_url.Services.DenyList.{DenyList}
use tiny_url.Services.ShortCode.{Drawn, drawn, failed, exhausted, starved, generate_short_code}
use tiny_url.Services.Validation.{
  ValidationError, invalid_url, invalid_scheme, url_too_long, user_info, invalid_host,
  private_address, denied_host, invalid_custom_code, reserved_code, invalid_tag, too_many_tags,
  invalid_destination, too_many_destinations, Checked, valid, invalid, Network, normalize_tags,
  validate_destination_url, validate_destinations, validate_custom_code,
}
use tiny_url.Handlers.{Clock}
use tiny_url.Handlers.Auth.{extract_bearer, log_audit_best_effort, decimal}
use tiny_url.Handlers.Owner.{audit_of}

pub record ItemError : Type 0 where
  pub status : ℕ
  pub error_code : Text
  pub message : Text

pub record ShortenResponse : Type 0 where
  pub short_code : Text
  pub short_url : Text
  pub original_url : Text
  pub expires_at : Option Time
  pub admin_token : Text
  pub tags : List Text
  pub max_clicks : ℤ
  pub has_password : Bool
  pub webhook_url : Text
  pub webhook_secret : Text
  pub destinations : List Destination

pub data Item : Type 0 where
  created : ShortenResponse → Item
  rejected : ItemError → Item

pub record Draws : Type 0 where
  pub salt : Option Text
  pub secret : Option Text
  pub code_reads : List (Option Text)
  pub token_bytes : Option Text

pub record Crypto : Type 0 where
  pub sha256 : Text → Text
  pub pbkdf2 : Text → Text → Option Text
  pub base64url : Text → Text

pub record ShortenHandler : Type 0 where
  pub base_url : Text
  pub max_expiration_minutes : ℤ
  pub deny_list : DenyList
  pub unfurler : Bool

abbrev pub bad : ℕ → Text → Text → ItemError
bad status code message = record { status = status; error_code = code; message = message }

unfoldable pub custom_code_message : ValidationError → Text
custom_code_message invalid_custom_code =
    codes "Custom code must be 3-32 characters of letters, digits, '_' or '-'"
custom_code_message reserved_code = codes "Custom code is reserved and cannot be used"
custom_code_message e = codes "Invalid custom code"

unfoldable pub tags_message : ValidationError → Text
tags_message invalid_tag = codes "tag must be 1-32 characters after trimming"
tags_message too_many_tags = codes "too many tags (max 16)"
tags_message e = codes "invalid tags"

unfoldable pub validation_message : ValidationError → Text
validation_message url_too_long = codes "URL exceeds maximum length"
validation_message invalid_scheme = codes "URL must start with http:// or https://"
validation_message user_info = codes "URL must not contain user credentials"
validation_message denied_host = codes "URL host is not permitted"
validation_message private_address = codes "URL host points at a private or reserved network"
validation_message invalid_host = codes "URL host could not be resolved"
validation_message e = codes "Invalid URL"

unfoldable pub destinations_message : ValidationError → Text
unfolding validation_message
destinations_message invalid_destination =
    codes "destination URL or weight is invalid (weight must be 1-100)"
destinations_message too_many_destinations = codes "too many destinations (max 10)"
destinations_message e = validation_message e

-- hashPassword, for a password that may be empty: hash and salt
unfoldable pub hash_password : Crypto → Draws → Text → Result (Text × Text)
hash_password C R password = elim R.salt [
  | none ↦ err backend
  | some salt ↦ elim (C.pbkdf2 password salt) [ none ↦ err backend | some key ↦ ok (key, salt) ]
]

unfoldable pub generate_owner_token : Crypto → Draws → Option (Text × Text)
generate_owner_token C R = elim R.token_bytes [
  | none ↦ none
  | some b ↦ some (C.base64url b, C.sha256 (C.base64url b))
]

-- What the steps before the store is written yield: the code, the capped expiration, the tags, the
-- password's hash and salt, the destinations, the webhook's secret, the token and its hash.
pub record Prepared : Type 0 where
  pub short_code : Text
  pub mins : ℤ
  pub tags : List Text
  pub password_hash : Text
  pub password_salt : Text
  pub destinations : List Destination
  pub webhook_secret : Text
  pub token : Text
  pub token_hash : Text

-- Either the rest of a computation or the error that ends it
pub data Step (A : Type 0) : Type 0 where
  go : A → Step A
  stop : ItemError → Step A

unfoldable pub and_then : {A B : Type 0} → Step A → (A → Step B) → Step B
and_then (go a) f = f a
and_then (stop e) f = stop e

module _ (C : Crypto) (N : Network) (h : ShortenHandler) (R : Draws) where
  unfoldable pub check_custom_code : (Text → Bool) → Text → Step Text
  check_custom_code exists code =
      if is_empty code then go [] else elim (validate_custom_code N code) [
        | some e ↦ stop (bad 400 (codes "invalid_custom_code") (custom_code_message e))
        | none ↦
            if exists code
            then stop (bad 409 (codes "code_conflict") (codes "custom code is already in use"))
            else go code
      ]

  unfoldable pub check_url : Text → Step Done
  check_url url = elim (validate_destination_url N url h.deny_list) [
    | some e ↦ stop (bad 400 (codes "invalid_url") (validation_message e))
    | none ↦ go tt
  ]

  unfoldable pub check_expiration : ℤ → Step ℤ
  check_expiration mins =
      if lt_int mins (pos 0)
      then stop
          (bad 400 (codes "invalid_expiration") (codes "expiration_mins must be non-negative"))
      else go (if lt_int h.max_expiration_minutes mins then h.max_expiration_minutes else mins)

  unfoldable pub check_tags : List Text → Step (List Text)
  check_tags tags = elim (normalize_tags tags) [
    | invalid e ↦ stop (bad 400 (codes "invalid_tags") (tags_message e))
    | valid out ↦ go out
  ]

  unfoldable pub check_max_clicks : ℤ → Step Done
  check_max_clicks n =
      if lt_int n (pos 0)
      then stop (bad 400 (codes "invalid_max_clicks") (codes "max_clicks must be non-negative"))
      else go tt

  unfoldable pub check_password : Text → Step (Text × Text)
  check_password password =
      if is_empty password
      then go ([], [])
      else if ltb 256 (length password)
      then stop (bad 400 (codes "password_too_long") (codes "password too long"))
      else elim (hash_password C R password) [
        | err e ↦ stop (bad 500 (codes "internal") (codes "Failed to hash password"))
        | ok hashed ↦ go hashed
      ]

  unfoldable pub check_destinations_of : List Destination → Step (List Destination)
  check_destinations_of dests = elim (validate_destinations N dests h.deny_list) [
    | invalid e ↦ stop (bad 400 (codes "invalid_destinations") (destinations_message e))
    | valid out ↦ go out
  ]

  unfoldable pub check_webhook : Text → Step Text
  check_webhook url =
      if is_empty url then go [] else elim (validate_destination_url N url h.deny_list) [
        | some e ↦
            stop (
              bad 400 (codes "invalid_webhook_url") (codes "webhook_url: " ++ validation_message e))
        | none ↦ elim R.secret [
          | none ↦ stop (bad 500 (codes "internal") (codes "Failed to generate webhook secret"))
          | some secret ↦ go secret
        ]
      ]

  -- The code: the custom one, or one that GenerateShortCode draws
  unfoldable pub choose_code : (Text → Bool) → Text → Step Text
  choose_code exists custom =
      if is_empty custom
      then (elim (generate_short_code exists R.code_reads) [
        | drawn code rest ↦ go code
        | failed ↦ stop (bad 500 (codes "internal") (codes "Failed to generate short code"))
        | exhausted ↦ stop (bad 500 (codes "internal") (codes "Failed to generate short code"))
        | starved ↦ stop (bad 500 (codes "internal") (codes "Failed to generate short code"))
      ])
      else go custom
