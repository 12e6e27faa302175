-- ===== src/Handlers/Images.antt =====
-- handlers/badge.go, handlers/qr.go, handlers/health.go and handlers/ready.go. The encoder of QR codes is
-- a parameter, `none` for an error; so is the ping of a backend.
use tiny_url.Prelude.{
  ℕ, ◌+◌, ◌*◌, ◌-◌, ◌/◌, List, Text, Option, none, some, [], ◌∷◌, ◌++◌, ◌&&◌, length, ltb, same,
  take, drop, is_empty, codes, if◌then◌else◌,
}
use tiny_url.Prelude.Int.{ℤ}
use tiny_url.Store.{
  Store, StoreError, not_found, expired, code_conflict, backend, panicked, ok, err,
}
use tiny_url.Handlers.{Clock, Request, Response, plain, refusal}
use tiny_url.Handlers.Auth.{decimal}
use tiny_url.Handlers.Gates.{Reply, simple, answered}

-- What the format of renderBadge is filled with
pub record Badge : Type 0 where
  pub total_w : ℕ
  pub label_w : ℕ
  pub count_w : ℕ
  pub label_mid : ℕ
  pub count_mid : ℕ
  pub count : Text

-- The digits of a count have nothing for html.EscapeString to escape.
unfoldable pub render_badge : ℤ → Badge
render_badge count =
    let label_w = 6 * length (codes "clicks") + 10 in
    let count_str = decimal count in
    let wide = 8 * length count_str + 10 in
    let count_w = if ltb wide 24 then 24 else wide in
    record {
      total_w = label_w + count_w;
      label_w = label_w;
      count_w = count_w;
      label_mid = label_w / 2;
      count_mid = label_w + count_w / 2;
      count = count_str;
    }

unfoldable pub badge_code : Text → Text
badge_code raw_code =
    let n = length raw_code - 4 in
    if ltb 4 (length raw_code) && same (drop n raw_code) (codes ".svg")
    then take n raw_code
    else raw_code

-- The switch on the error of a badge's Get
unfoldable pub badge_refusal : StoreError → Response
badge_refusal not_found = plain 404 (codes "404 page not found")
badge_refusal expired = plain 410 []
badge_refusal code_conflict = plain 500 (codes "Internal server error")
badge_refusal backend = plain 500 (codes "Internal server error")
badge_refusal panicked = plain 500 (codes "Internal server error")

module _ (S : Store) where
  unfoldable pub badge_handler : Clock → Request → S.State → Reply Badge
  unfolding badge_code badge_refusal render_badge
  badge_handler clock r s =
      let code = badge_code r.code in
      if is_empty code
      then simple (plain 404 (codes "404 page not found"))
      else (elim (S.get (clock 0) code s) [
        | err e ↦ simple (badge_refusal e)
        | ok m ↦ answered 200 (render_badge m.click_count)
      ])

  unfoldable pub qr_handler : (Text → Option Text) → Text → Clock → Request → S.State → Reply Text
  qr_handler encode base_url clock r s =
      if is_empty r.code
      then simple (plain 404 (codes "404 page not found"))
      else (elim (S.get (clock 0) r.code s) [
        | err e ↦ simple (refusal e)
        | ok m ↦ elim (encode (base_url ++ codes "/" ++ r.code)) [
          | none ↦ simple (plain 500 (codes "qr generation failed"))
          | some png ↦ answered 200 png
        ]
      ])

-- The fields of the answer
unfoldable pub health_handler : Text → Reply (List (Text × Text))
health_handler storage =
    answered 200 ((codes "status", codes "ok") ∷ (codes "storage", storage) ∷ [])

-- `ping` is the text of the error, `none` for nil.
unfoldable pub ready_handler : Option Text → Reply (List (Text × Text))
ready_handler none = answered 200 ((codes "status", codes "ready") ∷ [])
ready_handler (some e) =
    answered 503 ((codes "status", codes "not_ready") ∷ (codes "error", e) ∷ [])
