-- ===== src/Handlers/Views.antt =====
-- handlers/clicks.go, handlers/export.go and handlers/audit.go: what an owner, or an operator, may read.
-- The parameters of the query are texts, empty if absent. `format_time` is the layout of the export.
use tiny_url.Prelude.{
  ℕ, List, Text, Bool, true, false, none, some, [], ◌∷◌, map, length, not, same, is_empty, codes,
  ◌&&◌, ◌||◌, ◌^◌, if◌then◌else◌,
}
use tiny_url.Prelude.Int.{ℤ, pos, le_int}
use tiny_url.Models.{Time, ClickEvent, AuditEvent}
use tiny_url.Store.{Store, ok, err}
use tiny_url.Handlers.{Clock, Request, plain}
use tiny_url.Handlers.Auth.{extract_bearer}
use tiny_url.Handlers.Gates.{pass, refuse, Reply, simple, answered, admit}
use tiny_url.Handlers.PosInt.{parse_pos_int}
use tiny_url.Handlers.Query.{limit_of}

pub record ClicksResponse : Type 0 where
  pub short_code : Text
  pub count : ℕ
  pub events : List ClickEvent

-- NewClicksHandler and NewExportHandler
abbrev pub clicks_max_limit : ℤ → ℤ
clicks_max_limit n = if le_int n (pos 0) then pos 200 else n

abbrev pub export_max_limit : ℤ
export_max_limit = pos 50000

abbrev pub export_default_limit : ℤ
export_default_limit = pos 5000

abbrev pub export_limit_of : ℤ → ℤ
export_limit_of n = if le_int n (pos 0) then export_max_limit else n

pub data Export : Type 0 where
  csv : List (List Text) → Export
  json : ClicksResponse → Export

-- The rows of writeClicksCSV; the columns are public.
unfoldable pub csv_rows : (Time → Text) → List ClickEvent → List (List Text)
csv_rows format_time events =
    (codes "at"
      ∷ codes "ua_class"
      ∷ codes "referer"
      ∷ codes "country"
      ∷ codes "ip_hash"
      ∷ codes "destination_url"
      ∷ [])
    ∷ map
        (λ ev.
          format_time ev.at
          ∷ ev.ua_class
          ∷ ev.referer
          ∷ ev.country
          ∷ ev.ip_hash
          ∷ ev.destination_url
          ∷ [])
        events

module _ (sha256 : Text → Text) where
  -- NewAuditHandler: the hash of the operator's token, empty if there is none
  abbrev pub operator_hash : Text → Text
  operator_hash token = if is_empty token then [] else sha256 token

  -- AuditHandler.authorized
  unfoldable pub authorized : Text → Text → Bool
  authorized expected_hash authorization =
      if is_empty expected_hash then true else elim (extract_bearer sha256 authorization) [
        | none ↦ false
        | some got ↦ same got expected_hash
      ]

module _ (sha256 : Text → Text) (S : Store) where
  unfoldable pub clicks_handler :
      ℤ → Clock → Request → Text → S.State → Reply ClicksResponse × S.State
  clicks_handler max_limit clock r limit s =
      let (gate, after) = admit sha256 S clock r s in
      elim gate [
        | refuse response ↦ (simple response, after)
        | pass m ↦ elim (S.recent_clicks r.code (limit_of max_limit max_limit limit) after) [
          | err e ↦ (simple (plain 500 (codes "Internal server error")), after)
          | ok events ↦ (
            answered 200 (record { short_code = r.code; count = length events; events = events }),
            after,
          )
        ]
      ]

  unfoldable pub export_handler :
      (Time → Text) → ℤ → Clock → Request → Text → Text → S.State → Reply Export × S.State
  export_handler format_time max_limit clock r format limit s =
      let (gate, after) = admit sha256 S clock r s in
      let as_csv = is_empty format || same format (codes "csv") in
      elim gate [
        | refuse response ↦ (simple response, after)
        | pass m ↦
            if not as_csv && not (same format (codes "json"))
            then (simple (plain 400 (codes "format must be csv or json")), after)
            else elim (S.recent_clicks r.code (limit_of export_default_limit max_limit limit)
                after) [
                  | err e ↦ (simple (plain 500 (codes "Internal server error")), after)
                  | ok events ↦
                      if as_csv
                      then (answered 200 (csv (csv_rows format_time events)), after)
                      else (
                        answered 200 (
                            json (record {
                              short_code = r.code;
                              count = length events;
                              events = events;
                            })),
                        after,
                      )
                ]
      ]

  -- AuditHandler.ServeHTTP reads the store and changes nothing.
  unfoldable pub audit_handler : Text → Request → Text → Text → S.State → Reply (List AuditEvent)
  audit_handler expected_hash r limit offset s =
      if authorized sha256 expected_hash r.authorization
      then (elim (S.recent_audit_events (pos (parse_pos_int limit 50 500))
          (pos (parse_pos_int offset 0 (2 ^ 30))) s) [
            | err e ↦ simple (plain 500 (codes "Internal server error"))
            | ok events ↦ answered 200 events
          ])
      else simple (plain 401 (codes "missing or invalid operator token"))
