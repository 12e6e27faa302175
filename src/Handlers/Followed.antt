-- ===== src/Handlers/Followed.antt =====
-- handlers/shorten.go and handlers/redirect.go together: a short URL that is created and then followed.
use tiny_url.Store.Memory.Listing.{Ordering}
use tiny_url.Prelude.{
  arith, Text, Bool, true, false, Option, some, [], ◌≡◌, refl, ap, ◌∙◌, not, is_empty, text_eq,
}
use tiny_url.Prelude.Int.{ℤ, pos}
use tiny_url.Prelude.Table.{lookup}
use tiny_url.Models.{Time, UrlMapping, ShortenRequest}
use tiny_url.Store.{ok}
use tiny_url.Store.Memory.State.{MemoryStore}
use tiny_url.Store.Memory.Urls.{is_past, get}
use tiny_url.Store.Memory.Contract.{memory}
use tiny_url.Services.Destinations.{pick_destination}
use tiny_url.Services.DnsCache.{DnsCache}
use tiny_url.Services.Validation.{Network}
use tiny_url.Handlers.{Clock, Request, found}
use tiny_url.Handlers.Redirect.{
  World, RedirectConfig, is_used_up, target_of, is_disabled, serve_target, redirect_handler,
}
use tiny_url.Handlers.Shorten.{Crypto, Draws, ShortenHandler, ShortenResponse, created}
use tiny_url.Handlers.Shorten.One.{shorten_one}
use tiny_url.Handlers.Shorten.Created.{shorten_one-created}

no_password : (b : Bool) → not b ≡ false → b ≡ true
no_password true h = refl
no_password false h = cc

get_stored :
    (now : Time) (code : Text) (m : UrlMapping) (s : MemoryStore)
    → lookup code s.urls ≡ some m
    → is_past m.expires_at now ≡ false
    → get now code s ≡ ok m
unfolding get
get_stored now code m s there live = rw (there, live, get) refl

unclicked : (m : UrlMapping) → m.click_count ≡ pos 0 → is_used_up m ≡ false
unclicked m h = rw h (ground arith)

module _ (W : World) (C : Crypto) (N : Network) (h : ShortenHandler) (R : Draws)
    (ordering : Ordering) where
  target_plain : (m : UrlMapping) → m.destinations ≡ [] → target_of W m ≡ some m.original_url
  unfolding target_of pick_destination
  target_plain m none_ = rw none_ refl

  serve_found :
      (clock : Clock) (cfg : RedirectConfig) (r : Request) (m : UrlMapping) (s : MemoryStore)
      (cache : Option (DnsCache Text))
      → target_of W m ≡ some m.original_url
      → (is_disabled W (clock 1) cfg m.original_url cache).0 ≡ false
      → (serve_target W (memory ordering) clock cfg r m (s, cache)).0 ≡ found m.original_url
  unfolding serve_target
  serve_found clock cfg r m s cache chosen on = rw (chosen, serve_target, on) refl

  followed :
      (clock : Clock) (cfg : RedirectConfig) (r : Request) (m : UrlMapping) (s : MemoryStore)
      (cache : Option (DnsCache Text))
      → is_empty r.code ≡ false
      → get (clock 0) r.code s ≡ ok m
      → is_used_up m ≡ false
      → is_empty m.password_hash ≡ true
      → target_of W m ≡ some m.original_url
      → (is_disabled W (clock 1) cfg m.original_url cache).0 ≡ false
      → (redirect_handler W (memory ordering) clock cfg r (s, cache)).0 ≡ found m.original_url
  unfolding redirect_handler
  followed clock cfg r m s cache named got open_ free chosen on =
      rw (named, got, open_, free, redirect_handler) (serve_found clock cfg r m s cache chosen on)

  -- A short URL that is created, and then followed in the store as its creation left it, leads to the
  -- URL that was asked for; provided that the answer has no password and no destinations and does not
  -- expire before, and that neither the deny list nor the runtime validation disables the URL's host.
  pub redirect_handler-shorten_one :
      (clock later : Clock) (req : ShortenRequest) (id : ℤ) (req_id : Text) (s : MemoryStore)
      (resp : ShortenResponse) (cfg : RedirectConfig) (r : Request) (cache : Option (DnsCache Text))
      → (shorten_one C N h R (memory ordering) clock req id req_id s).0 ≡ created resp
      → resp.has_password ≡ false
      → resp.destinations ≡ []
      → is_past resp.expires_at (later 0) ≡ false
      → r.code ≡ resp.short_code
      → is_empty r.code ≡ false
      → (is_disabled W (later 1) cfg req.url cache).0 ≡ false
      → let after = (shorten_one C N h R (memory ordering) clock req id req_id s).2 in
        (redirect_handler W (memory ordering) later cfg r (after, cache)).0 ≡ found req.url
  redirect_handler-shorten_one clock later req id req_id s resp cfg r cache made open_ one live at
        named on =
      let (fresh, fine, (m, there, url, clicks, key, expires, gate, dests, token)) =
        shorten_one-created C N h R ordering clock req id req_id s resp made in
      let after = (shorten_one C N h R (memory ordering) clock req id req_id s).2 in
      let got =
        get_stored (later 0) r.code m after (ap (λ c. lookup c after.urls) at ∙ there)
          (ap (λ t. is_past t (later 0)) expires ∙ live) in
      followed later cfg r m after cache named got (unclicked m clicks)
        (no_password (is_empty m.password_hash) (gate ∙ open_)) (target_plain m (dests ∙ one))
        (ap (λ u. (is_disabled W (later 1) cfg u cache).0) url ∙ on)
      ∙ ap found url
