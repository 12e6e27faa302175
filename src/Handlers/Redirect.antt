-- ===== src/Handlers/Redirect.antt =====
-- handlers/redirect.go and the password check of handlers/password.go. Parameters: SHA-256, PBKDF2
-- with the handler's iterations and key length, url.Parse with Hostname, the resolution of
-- ValidateHostAtRuntime, the generator of PickDestination, the three regular expressions of the
-- user-agent classes, and the country of an address (`none` without GeoIP, and for an address that
-- does not parse).
use tiny_url.Prelude.{
  List, Text, Bool, true, false, Option, none, some, [], ◌∷◌, ◌&&◌, not, is_empty, same, codes,
  if◌then◌else◌,
}
use tiny_url.Prelude.Int.{ℤ, pos, lt_int, le_int}
use tiny_url.Models.{Time, UrlMapping, ClickEvent}
use tiny_url.Store.{Store, ok, err}
use tiny_url.Services.Clicks.{truncate_referer, classify_user_agent, hash_ip}
use tiny_url.Services.Destinations.{no_pool, panicked, picked, pick_destination}
use tiny_url.Services.DenyList.{DenyList, contains}
use tiny_url.Services.DnsCache.{DnsCache, validate_host}
use tiny_url.Handlers.{Clock, Request, Response, plain, form, found, refusal}

pub record World : Type 0 where
  pub sha256 : Text → Text
  pub pbkdf2 : Text → Text → Option Text
  pub parse_url : Text → Option Text
  pub resolve : Time → Text → Option Text
  pub int_n : ℤ → ℤ
  pub unicode_lower : Text → Text
  pub ua_bot : Text → Bool
  pub ua_tablet : Text → Bool
  pub ua_mobile : Text → Bool
  pub country : Text → Option Text
  pub process_salt : Text

pub record RedirectConfig : Type 0 where
  pub deny_list : DenyList
  pub log_ip : Bool
  pub stream : Bool
  pub webhook : Bool

-- What a request did besides its response: published on the click stream, queued a webhook.
pub record Effects : Type 0 where
  pub published : List ClickEvent
  pub enqueued : List ClickEvent

abbrev pub quiet : Effects
quiet = record { published = []; enqueued = [] }

-- MaxClicks > 0 && ClickCount >= MaxClicks
abbrev pub is_used_up : UrlMapping → Bool
is_used_up m = lt_int (pos 0) m.max_clicks && le_int m.max_clicks m.click_count

module _ (W : World) where
  unfoldable pub verify_password : Text → Text → Text → Bool
  verify_password password hash salt =
      if is_empty hash
      then false
      else if is_empty salt
      then false
      else elim (W.pbkdf2 password salt) [ none ↦ false | some got ↦ same got hash ]

  -- passwordOK: `none` if the request may go on, or else the response that it has written.
  unfoldable pub password_ok : Request → UrlMapping → Option Response
  password_ok r m =
      if same r.method (codes "POST")
      then elim r.password [
        | none ↦ some (form 400 [])
        | some password ↦
            if verify_password password m.password_hash m.password_salt
            then none
            else some (form 401 (codes "Incorrect password. Try again."))
      ]
      else if same r.method (codes "GET")
      then some (form 200 [])
      else some (plain 405 (codes "Method Not Allowed"))

  -- The target; `none` if IntN panics, which Recover answers with a 500.
  unfoldable pub target_of : UrlMapping → Option Text
  target_of m = elim (pick_destination W.int_n m.destinations) [
    | no_pool ↦ some m.original_url
    | panicked ↦ none
    | picked d ↦ some d.url
  ]

  -- The two checks of the target: whether it is disabled, and the cache after them. A nil cache
  -- resolves every time.
  unfoldable pub is_disabled :
      Time → RedirectConfig → Text → Option (DnsCache Text) → Bool × Option (DnsCache Text)
  is_disabled now cfg target cache = elim (W.parse_url target) [
    | none ↦ (false, cache)
    | some host ↦
        if contains W.unicode_lower cfg.deny_list host then (true, cache) else elim cache [
          | none ↦ (elim (W.resolve now host) [ none ↦ false | some e ↦ true ], none)
          | some c ↦
              let (error, after) = validate_host W.resolve now host c in
              (elim error [ none ↦ false | some e ↦ true ], some after)
        ]
  ]

  unfoldable pub click_of : Time → RedirectConfig → Request → UrlMapping → Text → ClickEvent
  click_of now cfg r m target = record {
    at = now;
    ip_hash = if cfg.log_ip then hash_ip W.sha256 W.process_salt r.client_ip else [];
    referer = truncate_referer r.referer;
    ua_class = classify_user_agent W.unicode_lower W.ua_bot W.ua_tablet W.ua_mobile r.user_agent;
    country =
        if is_empty r.client_ip
        then []
        else elim (W.country r.client_ip) [ none ↦ [] | some c ↦ c ];
    destination_url = elim m.destinations [ [] ↦ [] | d ∷ ds ↦ target ];
  }

  -- The fan-out after a RecordClick that succeeded.
  unfoldable pub fan_out : RedirectConfig → UrlMapping → ClickEvent → Effects
  fan_out cfg m ev = record {
    published = if cfg.stream then ev ∷ [] else [];
    enqueued = if cfg.webhook && not (is_empty m.webhook_url) then ev ∷ [] else [];
  }

  module _ (S : Store) where
    -- ServeHTTP from the choice of the target on, behind the click cap and the password gate.
    unfoldable pub serve_target :
        Clock
        → RedirectConfig
        → Request
        → UrlMapping
        → S.State × Option (DnsCache Text)
        → Response × Effects × S.State × Option (DnsCache Text)
    serve_target clock cfg r m (s, cache) = elim (target_of m) [
      | none ↦ (plain 500 (codes "Internal Server Error"), quiet, s, cache)
      | some target ↦
          let (disabled, checked) = is_disabled (clock 1) cfg target cache in
          let ev = click_of (clock 2) cfg r m target in
          let (recorded, after) = S.record_click r.code ev s in
          if disabled
          then (plain 451 (codes "This short URL has been disabled."), quiet, s, checked)
          else (
            found target,
            elim recorded [ ok _ ↦ fan_out cfg m ev | err e ↦ quiet ],
            after,
            checked,
          )
    ]

    unfoldable pub redirect_handler :
        Clock
        → RedirectConfig
        → Request
        → S.State × Option (DnsCache Text)
        → Response × Effects × S.State × Option (DnsCache Text)
    redirect_handler clock cfg r (s, cache) =
        if is_empty r.code
        then (plain 404 (codes "404 page not found"), quiet, s, cache)
        else elim (S.get (clock 0) r.code s) [
          | err e ↦ (refusal e, quiet, s, cache)
          | ok m ↦
              if is_used_up m
              then (plain 410 (codes "This URL has reached its click limit"), quiet, s, cache)
              else if is_empty m.password_hash
              then serve_target clock cfg r m (s, cache)
              else elim (password_ok r m) [
                | some written ↦ (written, quiet, s, cache)
                | none ↦ serve_target clock cfg r m (s, cache)
              ]
        ]
