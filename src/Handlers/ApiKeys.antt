-- ===== src/Handlers/ApiKeys.antt =====
-- handlers/apikey.go: the endpoints for API keys, and the listing of a key's URLs. `body` is what the
-- decoder makes of the request's body, `none` if it fails; for POST it is the label, which is empty if
-- there is no body, and for PATCH the label if the body has one.
pub mod Lifecycle
use tiny_url.Prelude.{
  ℕ, List, Text, Option, none, some, [], ◌∷◌, map, ltb, length, not, same, is_empty, codes, ◌^◌,
  if◌then◌else◌,
}
use tiny_url.Prelude.Int.{ℤ, pos, le_int, pos_part}
use tiny_url.Models.{
  Time, UrlMapping, ApiKey, AuditEvent, ApiKeyResponse, CreateApiKeyResponse, AnalyticsResponse,
}
use tiny_url.Store.{
  Store, ok, err, Result, Done, not_found, expired, code_conflict, backend, panicked,
}
use tiny_url.Handlers.{Clock, Request, Response, plain}
use tiny_url.Handlers.Auth.{extract_bearer, log_audit_best_effort, decimal}
use tiny_url.Handlers.Shorten.{Crypto}
use tiny_url.Handlers.Gates.{Gate, pass, refuse, Reply, simple, answered}
use tiny_url.Handlers.PosInt.{parse_pos_int}

-- The JSON bodies of the answers
pub data KeyAnswer : Type 0 where
  issued : CreateApiKeyResponse → KeyAnswer
  described : ApiKeyResponse → KeyAnswer

abbrev pub max_label_len : ℕ
max_label_len = 64

unfoldable pub key_event : Text → Text → Text → ApiKey → Request → AuditEvent
key_event actor_kind actor_id action key r = record {
  id = pos 0;
  at = pos 0;
  actor_kind = actor_kind;
  actor_id = actor_id;
  action = action;
  target_kind = codes "api_key";
  target_id = decimal key.id;
  metadata = [];
  request_id = r.request_id;
}

-- The JSON object of writeAPIKeyJSON
abbrev pub describe : ApiKey → ApiKeyResponse
describe key = record {
  id = key.id;
  label = key.label;
  created_at = key.created_at;
  last_used_at = key.last_used_at;
}

module _ (C : Crypto) where
  -- The token and its hash; `none` if the read of random bytes fails.
  unfoldable pub generate_api_key_token : Option Text → Option (Text × Text)
  generate_api_key_token none = none
  generate_api_key_token (some bytes) =
      let token = C.base64url bytes in some (token, C.sha256 token)

  module _ (S : Store) where
    unfoldable pub create_key :
        Clock → Option Text → Request → Option Text → S.State → Reply KeyAnswer × S.State
    create_key clock bytes r body s = elim body [
      | none ↦ (simple (plain 400 (codes "Invalid request body")), s)
      | some label ↦
          if ltb max_label_len (length label)
          then (simple (plain 400 (codes "label too long")), s)
          else elim (generate_api_key_token bytes) [
            | none ↦ (simple (plain 500 (codes "Failed to generate token")), s)
            | some (token, hash) ↦
                let (made, after) = S.create_api_key (clock 0) label hash s in
                elim made [
                  | err e ↦ (simple (plain 500 (codes "Failed to persist key")), after)
                  | ok key ↦ (
                    answered 201 (
                        issued (record {
                          id = key.id;
                          label = key.label;
                          created_at = key.created_at;
                          token = token;
                        })),
                    log_audit_best_effort S (clock 1)
                        (key_event (codes "anon") [] (codes "api_key.create") key r) after,
                  )
                ]
          ]
    ]

    unfoldable pub require_api_key : Time → Request → S.State → Gate ApiKey × S.State
    require_api_key now r s = elim (extract_bearer C.sha256 r.authorization) [
      | none ↦ (refuse (plain 401 (codes "missing API key")), s)
      | some hash ↦
          let (found, after) = S.lookup_api_key now hash s in
          elim found [
            | err e ↦ (refuse (plain 401 (codes "invalid API key")), after)
            | ok key ↦ (pass key, after)
          ]
    ]

    unfoldable pub get_key : Clock → Request → S.State → Reply KeyAnswer × S.State
    get_key clock r s =
        let (gate, after) = require_api_key (clock 0) r s in
        elim gate [
          | refuse response ↦ (simple response, after)
          | pass key ↦ (answered 200 (described (describe key)), after)
        ]

    unfoldable pub update_key :
        Clock → Request → Option (Option Text) → S.State → Reply KeyAnswer × S.State
    update_key clock r body s =
        let (gate, after) = require_api_key (clock 0) r s in
        elim gate [
          | refuse response ↦ (simple response, after)
          | pass key ↦ elim body [
            | none ↦ (simple (plain 400 (codes "Invalid request body")), after)
            | some none ↦ (simple (plain 400 (codes "label is required")), after)
            | some (some label) ↦
                if ltb max_label_len (length label)
                then (simple (plain 400 (codes "label too long")), after)
                else let (done, renamed) = S.update_api_key_label key.id label after in
                  elim done [
                    | err e ↦ (simple (plain 500 (codes "Failed to update")), renamed)
                    | ok _ ↦ (
                      answered 200 (described (describe (record key { label = label }))),
                      log_audit_best_effort S (clock 1)
                          (key_event (codes "apikey") (decimal key.id)
                            (codes "api_key.label_updated") key r)
                          renamed,
                    )
                  ]
          ]
        ]

    -- APIKeyHandler.delete from the DeleteAPIKey on
    unfoldable pub delete_key_outcome :
        Clock → Request → ApiKey → Result Done × S.State → Reply KeyAnswer × S.State
    delete_key_outcome clock r key (ok _, s) = (
      simple (plain 204 []),
      log_audit_best_effort S (clock 1)
          (key_event (codes "apikey") (decimal key.id) (codes "api_key.revoke") key r) s,
    )
    delete_key_outcome clock r key (err not_found, s) = (simple (plain 204 []), s)
    delete_key_outcome clock r key (err e, s) = (simple (plain 500 (codes "Failed to revoke")), s)

    unfoldable pub delete_key : Clock → Request → S.State → Reply KeyAnswer × S.State
    unfolding delete_key_outcome
    delete_key clock r s =
        let (gate, after) = require_api_key (clock 0) r s in
        elim gate [
          | refuse response ↦ (simple response, after)
          | pass key ↦ delete_key_outcome clock r key (S.delete_api_key key.id after)
        ]

    -- APIKeyHandler.ServeHTTP, for the decoder's answers to the two kinds of bodies
    unfoldable pub api_key_handler :
        Clock
        → Option Text
        → Request
        → Option Text
        → Option (Option Text)
        → S.State
        → Reply KeyAnswer × S.State
    api_key_handler clock bytes r label patch s =
        if same r.method (codes "POST")
        then create_key clock bytes r label s
        else if same r.method (codes "GET")
        then get_key clock r s
        else if same r.method (codes "PATCH")
        then update_key clock r patch s
        else if same r.method (codes "DELETE")
        then delete_key clock r s
        else (simple (plain 405 (codes "Method Not Allowed")), s)
