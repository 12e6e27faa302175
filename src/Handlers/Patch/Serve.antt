-- ===== src/Handlers/Patch/Serve.antt =====
-- handlers/patch.go: ServeHTTP, with the answer and the audit event.
use tiny_url.Prelude.{
  List, Text, Bool, Option, none, some, [], ◌∷◌, ◌++◌, not, is_empty, is_some, codes, if◌then◌else◌,
}
use tiny_url.Models.{UrlMapping}
use tiny_url.Store.{Store, Result, ok, err, not_found, Done}
use tiny_url.Services.Validation.{Network}
use tiny_url.Handlers.{Clock, Request, plain}
use tiny_url.Handlers.Auth.{resolve_actor, log_audit_best_effort}
use tiny_url.Handlers.Owner.{audit_of}
use tiny_url.Handlers.Shorten.{Draws, Crypto}
use tiny_url.Handlers.Gates.{pass, refuse, Reply, simple, answered, admit}
use tiny_url.Handlers.Patch.{PatchHandler, PatchRequest, PatchResponse, is_blank, patch_fields}

abbrev named : Bool → Text → List Text → List Text
named present name later = if present then name ∷ later else later

-- The names of the fields that the request has, in the order of the code
unfoldable pub changed : PatchRequest → List Text
changed req = named (is_some req.url) (codes "url") (
    named (is_some req.expiration_mins) (codes "expiration_mins") (
      named (is_some req.tags) (codes "tags") (
        named (is_some req.max_clicks) (codes "max_clicks") (
          named (is_some req.password) (codes "password") (
            named (is_some req.webhook_url) (codes "webhook_url") (
              named req.rotate_webhook (codes "webhook_rotate_secret")
                (named (is_some req.destinations) (codes "destinations") [])))))))

-- The elements of a JSON array of strings, for names that need no escape
quoted : List Text → Text
quoted [] = []
quoted (name ∷ []) = 34 ∷ name ++ 34 ∷ []
quoted (name ∷ other ∷ names) = 34 ∷ name ++ 34 ∷ 44 ∷ quoted (other ∷ names)

-- json.Marshal(map[string]any{"fields": changed})
unfoldable pub fields_json : List Text → Text
unfolding quoted
fields_json names = (123 ∷ 34 ∷ codes "fields") ++ (34 ∷ 58 ∷ 91 ∷ quoted names) ++ 93 ∷ 125 ∷ []

unfoldable pub patch_response : Crypto → UrlMapping → Text → PatchResponse
patch_response C m issued = record {
  short_code = m.id;
  original_url = m.original_url;
  expires_at = m.expires_at;
  tags = m.tags;
  max_clicks = m.max_clicks;
  has_password = not (is_empty m.password_hash);
  webhook_url = m.webhook_url;
  destinations = m.destinations;
  webhook_secret = if is_empty issued then [] else C.base64url issued;
}

module _ (C : Crypto) (S : Store) where
  -- PatchHandler.ServeHTTP from the second Get on
  unfoldable pub patch_answer :
      Clock → Request → PatchRequest → UrlMapping → Text → S.State → Reply PatchResponse × S.State
  patch_answer clock r req m issued s = elim (S.get (clock 4) r.code s) [
    | err e ↦ (simple (plain 500 (codes "Internal server error")), s)
    | ok updated ↦
        let (actor, after) = resolve_actor C.sha256 S (clock 5) r.authorization (some m) s in
        let event = audit_of actor.0 actor.1 (codes "url.patch") r.code r.request_id in
        (
          answered 200 (patch_response C updated issued),
          log_audit_best_effort S (clock 6) (record event { metadata = fields_json (changed req) })
              after,
        )
  ]

  -- PatchHandler.ServeHTTP from the Update on
  unfoldable pub patch_outcome :
      Clock
      → Request
      → PatchRequest
      → UrlMapping
      → Text
      → Result Done × S.State
      → Reply PatchResponse × S.State
  unfolding patch_answer
  patch_outcome clock r req m issued (ok _, s) = patch_answer clock r req m issued s
  patch_outcome clock r req m issued (err not_found, s) =
      (simple (plain 404 (codes "404 page not found")), s)
  patch_outcome clock r req m issued (err e, s) =
      (simple (plain 500 (codes "Internal server error")), s)

  module _ (N : Network) (h : PatchHandler) (R : Draws) where
    unfoldable pub patch_handler :
        Clock → Request → Option PatchRequest → S.State → Reply PatchResponse × S.State
    unfolding patch_outcome
    patch_handler clock r body s =
        if is_empty r.code
        then (simple (plain 400 (codes "Short code is required")), s)
        else elim body [
          | none ↦ (simple (plain 400 (codes "Invalid request body")), s)
          | some req ↦
              if is_blank req
              then (
                simple (
                    plain 400 (
                      codes
                        "Provide at least one of url, expiration_mins, tags, max_clicks, password, webhook_url, destinations")),
                s,
              )
              else let (gate, after) = admit C.sha256 S clock r s in
                elim gate [
                  | refuse response ↦ (simple response, after)
                  | pass m ↦ elim (patch_fields C N h R (clock 2) m req) [
                    | refuse response ↦ (simple response, after)
                    | pass (fields, issued) ↦
                        patch_outcome clock r req m issued (S.update (clock 3) r.code fields after)
                  ]
                ]
        ]
