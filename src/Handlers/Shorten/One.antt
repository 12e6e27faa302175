-- ===== src/Handlers/Shorten/One.antt =====
-- handlers/shorten.go: the steps of shortenOne in their order, and detectAPIKey.
use tiny_url.Prelude.{
  List, Text, Bool, Option, none, some, [], ◌∷◌, ◌++◌, is_empty, not, codes, if◌then◌else◌,
}
use tiny_url.Prelude.Int.{ℤ, pos, lt_int, ◌+ℤ◌}
use tiny_url.Prelude.Words.{mul64}
use tiny_url.Models.{Time, UrlMapping, ShortenRequest}
use tiny_url.Store.{Store, ok, err, StoreError, code_conflict}
use tiny_url.Services.Validation.{Network}
use tiny_url.Handlers.{Clock}
use tiny_url.Handlers.Auth.{extract_bearer, log_audit_best_effort, decimal}
use tiny_url.Handlers.Owner.{audit_of}
use tiny_url.Handlers.Shorten.{
  ItemError, ShortenResponse, Item, created, rejected, Draws, Crypto, ShortenHandler, bad,
  generate_owner_token, Prepared, Step, go, stop, and_then, check_custom_code, check_url,
  check_expiration, check_tags, check_max_clicks, check_password, check_destinations_of,
  check_webhook, choose_code,
}

module _ (C : Crypto) (N : Network) (h : ShortenHandler) (R : Draws) where
  -- shortenOne up to the store's Set; the store is only asked whether it has a code.
  unfoldable pub prepare : (Text → Bool) → ShortenRequest → Step Prepared
  prepare exists req = and_then (check_custom_code C N h R exists req.custom_code) λ custom.
      and_then (check_url C N h R req.url) λ _.
        and_then (check_expiration C N h R req.expiration_mins) λ mins.
          and_then (check_tags C N h R req.tags) λ tags.
            and_then (check_max_clicks C N h R req.max_clicks) λ _.
              and_then (check_password C N h R req.password) λ hashed.
                and_then (check_destinations_of C N h R req.destinations) λ dests.
                  and_then (check_webhook C N h R req.webhook_url) λ secret.
                    and_then (choose_code C N h R exists custom) λ code.
                      elim (generate_owner_token C R) [
                        | none ↦
                            stop
                              (bad 500 (codes "internal") (codes "Failed to generate owner token"))
                        | some token ↦ go (record {
                          short_code = code;
                          mins = mins;
                          tags = tags;
                          password_hash = hashed.0;
                          password_salt = hashed.1;
                          destinations = dests;
                          webhook_secret = secret;
                          token = token.0;
                          token_hash = token.1;
                        })
                      ]

  -- time.Now().Add(time.Duration(mins) * time.Minute)
  unfoldable pub deadline : Time → ℤ → Option Time
  deadline now mins =
      if lt_int (pos 0) mins then some (now +ℤ mul64 mins (pos 60000000000)) else none

  unfoldable pub mapping_of : Clock → ShortenRequest → ℤ → Prepared → UrlMapping
  mapping_of clock req api_key_id p = record {
    id = p.short_code;
    original_url = req.url;
    created_at = clock 1;
    expires_at = deadline (clock 0) p.mins;
    click_count = pos 0;
    last_accessed = none;
    owner_token_hash = p.token_hash;
    tags = p.tags;
    max_clicks = req.max_clicks;
    password_hash = p.password_hash;
    password_salt = p.password_salt;
    webhook_url = req.webhook_url;
    webhook_secret = p.webhook_secret;
    api_key_id = api_key_id;
    preview_title = [];
    preview_image = [];
    preview_description = [];
    preview_fetched_at = none;
    destinations = p.destinations;
  }

  unfoldable pub response_of : Clock → ShortenRequest → Prepared → ShortenResponse
  response_of clock req p = record {
    short_code = p.short_code;
    short_url = h.base_url ++ codes "/" ++ p.short_code;
    original_url = req.url;
    expires_at = deadline (clock 0) p.mins;
    admin_token = p.token;
    tags = p.tags;
    max_clicks = req.max_clicks;
    has_password = not (is_empty p.password_hash);
    webhook_url = req.webhook_url;
    webhook_secret = if is_empty p.webhook_secret then [] else C.base64url p.webhook_secret;
    destinations = p.destinations;
  }

  unfoldable pub store_error : StoreError → ItemError
  store_error code_conflict =
      bad 409 (codes "code_conflict") (codes "custom code is already in use")
  store_error e = bad 500 (codes "internal") (codes "Failed to store URL")

  module _ (S : Store) where
    -- The response, the previews that are queued, and the store.
    unfoldable pub shorten_one :
        Clock → ShortenRequest → ℤ → Text → S.State → Item × List (Text × Text) × S.State
    shorten_one clock req api_key_id req_id s = elim (prepare (λ code. S.exists code s) req) [
      | stop e ↦ (rejected e, [], s)
      | go p ↦
          let (stored, after) = S.set p.short_code (mapping_of clock req api_key_id p) s in
          let keyed = lt_int (pos 0) api_key_id in
          let kind = if keyed then codes "apikey" else codes "anon" in
          let actor = if keyed then decimal api_key_id else [] in
          let logged =
            log_audit_best_effort S (clock 2)
              (audit_of kind actor (codes "url.create") p.short_code req_id) after in
          elim stored [
            | err e ↦ (rejected (store_error e), [], after)
            | ok _ ↦ (
              created (response_of clock req p),
              if h.unfurler then (p.short_code, req.url) ∷ [] else [],
              logged,
            )
          ]
    ]

    unfoldable pub detect_api_key : Time → Text → S.State → ℤ × S.State
    detect_api_key now authorization s = elim (extract_bearer C.sha256 authorization) [
      | none ↦ (pos 0, s)
      | some hash ↦
          let (found, after) = S.lookup_api_key now hash s in
          elim found [ ok key ↦ (key.id, after) | err e ↦ (pos 0, after) ]
    ]
