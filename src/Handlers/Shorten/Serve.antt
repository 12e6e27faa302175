-- ===== src/Handlers/Shorten/Serve.antt =====
-- handlers/shorten.go: ServeHTTP. `body` is what the decoder makes of the request's body, `none` if it
-- fails.
use tiny_url.Prelude.{List, Text, Option, none, some, [], codes, not, same, if◌then◌else◌}
use tiny_url.Models.{Time, ShortenRequest}
use tiny_url.Store.{Store}
use tiny_url.Services.Validation.{Network}
use tiny_url.Handlers.{Clock, Request, plain}
use tiny_url.Handlers.Gates.{Reply, simple, answered}
use tiny_url.Handlers.Shorten.{Crypto, ShortenHandler, Draws, ShortenResponse, created, rejected}
use tiny_url.Handlers.Shorten.One.{shorten_one, detect_api_key}

module _ (C : Crypto) (N : Network) (h : ShortenHandler) (R : Draws) (S : Store) where
  unfoldable pub shorten_handler :
      Clock
      → Time
      → Request
      → Option ShortenRequest
      → S.State
      → Reply ShortenResponse × List (Text × Text) × S.State
  shorten_handler clock now r body s =
      if not (same r.method (codes "POST"))
      then (simple (plain 405 (codes "Only POST method is allowed")), [], s)
      else let (id, after) = detect_api_key C N h R S now r.authorization s in
        elim body [
          | none ↦ (simple (plain 400 (codes "Invalid request body")), [], after)
          | some req ↦
              let (item, queued, final) = shorten_one C N h R S clock req id r.request_id after in
              elim item [
                | rejected e ↦ (simple (plain e.status e.message), queued, final)
                | created resp ↦ (answered 201 resp, queued, final)
              ]
        ]
