-- ===== src/Handlers/Patch.antt =====
-- handlers/patch.go. `body` is what the decoder makes of the request's body, `none` if it fails, and an
-- absent field of it is `none`. `R` holds the salt and the webhook secret that may be drawn.
pub mod Serve
pub mod Accepted
pub mod Effect
use tiny_url.Prelude.{
  ℕ, List, Text, Bool, true, false, Option, none, some, [], ◌∷◌, ◌++◌, ◌&&◌, ◌||◌, not, is_empty,
  is_some, codes, if◌then◌else◌,
}
use tiny_url.Prelude.Int.{ℤ, pos, lt_int, le_int, ◌+ℤ◌}
use tiny_url.Prelude.Words.{mul64}
use tiny_url.Models.{Time, UrlMapping, Destination}
use tiny_url.Store.{
  Store, Result, ok, err, not_found, expired, code_conflict, backend, panicked, Done, UpdateFields,
}
use tiny_url.Services.DenyList.{DenyList}
use tiny_url.Services.Validation.{
  valid, invalid, Network, normalize_tags, validate_destination_url, validate_destinations,
}
use tiny_url.Handlers.{Clock, Request, Response, plain}
use tiny_url.Handlers.Auth.{resolve_actor, log_audit_best_effort}
use tiny_url.Handlers.Owner.{audit_of}
use tiny_url.Handlers.Shorten.{
  Draws, Crypto, hash_password, validation_message, tags_message, destinations_message,
}
use tiny_url.Handlers.Gates.{
  Gate, pass, refuse, Reply, simple, answered, ◌>>=◌, ◌>>◌, refuse_if, admit,
}

pub record PatchHandler : Type 0 where
  pub max_expiration_minutes : ℤ
  pub deny_list : DenyList

pub record PatchRequest : Type 0 where
  pub url : Option Text
  pub expiration_mins : Option ℤ
  pub tags : Option (List Text)
  pub max_clicks : Option ℤ
  pub password : Option Text
  pub webhook_url : Option Text
  pub rotate_webhook : Bool
  pub destinations : Option (List Destination)

-- The JSON object of the answer; `webhook_secret` is empty where the key is left out.
pub record PatchResponse : Type 0 where
  pub short_code : Text
  pub original_url : Text
  pub expires_at : Option Time
  pub tags : List Text
  pub max_clicks : ℤ
  pub has_password : Bool
  pub webhook_url : Text
  pub destinations : List Destination
  pub webhook_secret : Text

abbrev pub internal : {A : Type 0} → Gate A
internal = refuse (plain 500 (codes "Internal server error"))

unfoldable pub is_blank : PatchRequest → Bool
is_blank req = not (
    is_some req.url
    || is_some req.expiration_mins
    || is_some req.tags
    || is_some req.max_clicks
    || is_some req.password
    || is_some req.webhook_url
    || req.rotate_webhook
    || is_some req.destinations)

-- ClearPassword, PasswordHash and PasswordSalt
pub record PasswordChange : Type 0 where
  pub cleared : Bool
  pub hash : Option Text
  pub salt : Text

-- ClearWebhook, WebhookURL and WebhookSecret, and the secret that the answer shows
pub record WebhookChange : Type 0 where
  pub cleared : Bool
  pub url : Option Text
  pub secret : Option Text
  pub issued : Text

abbrev pub no_webhook_change : WebhookChange
no_webhook_change = record { cleared = false; url = none; secret = none; issued = [] }

module _ (C : Crypto) (N : Network) (h : PatchHandler) (R : Draws) where
  unfoldable pub new_url : Option Text → Gate (Option Text)
  new_url none = pass none
  new_url (some url) = do
    refuse_if (is_empty url) 400 (codes "url must be non-empty when provided")
    elim (validate_destination_url N url h.deny_list) [
      | some e ↦ refuse (plain 400 (validation_message e))
      | none ↦ pass (some url)
    ]

  -- Whether the expiration goes, and the new one.
  unfoldable pub new_expiration : Time → Option ℤ → Gate (Bool × Option Time)
  new_expiration now none = pass (false, none)
  new_expiration now (some mins) =
      let capped =
        if lt_int h.max_expiration_minutes mins then h.max_expiration_minutes else mins in
      if lt_int mins (pos 0)
      then refuse (plain 400 (codes "expiration_mins must be non-negative"))
      else if le_int mins (pos 0)
      then pass (true, none)
      else pass (false, some (now +ℤ mul64 capped (pos 60000000000)))

  unfoldable pub new_tags : Option (List Text) → Gate (Option (List Text))
  new_tags none = pass none
  new_tags (some tags) = elim (normalize_tags tags) [
    | invalid e ↦ refuse (plain 400 (tags_message e))
    | valid out ↦ pass (some out)
  ]

  unfoldable pub new_max_clicks : UrlMapping → Option ℤ → Gate (Option ℤ)
  new_max_clicks m none = pass none
  new_max_clicks m (some n) = do
    refuse_if (lt_int n (pos 0)) 400 (codes "max_clicks must be non-negative")
    refuse_if (lt_int (pos 0) n && le_int n m.click_count) 400
        (codes "max_clicks must exceed current click_count")
    pass (some n)

  unfoldable pub new_password : Option Text → Gate PasswordChange
  new_password none = pass (record { cleared = false; hash = none; salt = [] })
  new_password (some password) =
      if is_empty password
      then pass (record { cleared = true; hash = none; salt = [] })
      else elim (hash_password C R password) [
        | err e ↦ internal
        | ok (hash, salt) ↦ pass (record { cleared = false; hash = some hash; salt = salt })
      ]

  unfoldable pub new_destinations : Option (List Destination) → Gate (Option (List Destination))
  new_destinations none = pass none
  new_destinations (some dests) = elim (validate_destinations N dests h.deny_list) [
    | invalid e ↦ refuse (plain 400 (codes "destinations: " ++ destinations_message e))
    | valid out ↦ pass (some out)
  ]

  -- A webhook URL gets a fresh secret, which the answer shows.
  unfoldable pub with_fresh_secret : Text → Gate WebhookChange
  with_fresh_secret url = elim R.secret [
    | none ↦ internal
    | some secret ↦
        pass (record { cleared = false; url = some url; secret = some secret; issued = secret })
  ]

  unfoldable pub new_webhook : UrlMapping → Bool → Option Text → Gate WebhookChange
  unfolding with_fresh_secret
  new_webhook m rotate none = pass no_webhook_change
  new_webhook m rotate (some url) =
      if is_empty url
      then pass (record no_webhook_change { cleared = true })
      else elim (validate_destination_url N url h.deny_list) [
        | some e ↦ refuse (plain 400 (codes "webhook_url: " ++ validation_message e))
        | none ↦
            if is_empty m.webhook_secret || rotate
            then with_fresh_secret url
            else pass (record no_webhook_change { url = some url; secret = some m.webhook_secret })
      ]

  -- The rotation without a URL, which comes after all other checks.
  unfoldable pub rotated : UrlMapping → PatchRequest → WebhookChange → Gate WebhookChange
  unfolding with_fresh_secret
  rotated m req change =
      if req.rotate_webhook && not (is_some req.webhook_url)
      then if is_empty m.webhook_url
        then refuse (plain 400 (codes "webhook_rotate_secret requires an existing webhook_url"))
        else with_fresh_secret m.webhook_url
      else pass change

  -- The fields that the store is asked to change, and the secret that the answer shows.
  unfoldable pub patch_fields : Time → UrlMapping → PatchRequest → Gate (UpdateFields × Text)
  patch_fields now m req = do
    url ← new_url req.url
    expiration ← new_expiration now req.expiration_mins
    tags ← new_tags req.tags
    max_clicks ← new_max_clicks m req.max_clicks
    password ← new_password req.password
    checked ← new_webhook m req.rotate_webhook req.webhook_url
    destinations ← new_destinations req.destinations
    webhook ← rotated m req checked
    pass (
      record {
        original_url = url;
        expires_at = expiration.1;
        clear_expiration = expiration.0;
        tags = tags;
        max_clicks = max_clicks;
        password_hash = password.hash;
        password_salt = password.salt;
        clear_password = password.cleared;
        webhook_url = webhook.url;
        webhook_secret = webhook.secret;
        clear_webhook = webhook.cleared;
        api_key_id = none;
        preview_title = none;
        preview_image = none;
        preview_description = none;
        set_preview_fetched = false;
        destinations = destinations;
      },
      webhook.issued,
    )
