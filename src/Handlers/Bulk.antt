-- ===== src/Handlers/Bulk.antt =====
-- handlers/shorten_bulk.go. An item has its own draws and its own readings of the clock; `body` is what
-- the decoder makes of the request's body, `none` if it fails.
pub mod Stored
use tiny_url.Prelude.{
  ℕ, zero, suc, List, Text, Option, none, some, [], ◌∷◌, ◌++◌, length, ltb, not, same, ◌==◌, codes,
  if◌then◌else◌,
}
use tiny_url.Prelude.Int.{ℤ, pos, pos_part, le_int}
use tiny_url.Models.{Time, ShortenRequest}
use tiny_url.Store.{Store}
use tiny_url.Services.Validation.{Network}
use tiny_url.Handlers.{Clock, Request, plain}
use tiny_url.Handlers.Shorten.{Item, created, rejected, Draws, Crypto, ShortenHandler}
use tiny_url.Handlers.Shorten.One.{shorten_one, detect_api_key}
use tiny_url.Handlers.Gates.{Reply, simple, answered}

pub record BulkItem : Type 0 where
  pub index : ℕ
  pub outcome : Item

pub record BulkResponse : Type 0 where
  pub created_count : ℕ
  pub failed_count : ℕ
  pub items : List BulkItem

abbrev pub no_items : BulkResponse
no_items = record { created_count = 0; failed_count = 0; items = [] }

-- NewBulkShortenHandler
abbrev pub max_items_of : ℤ → ℕ
max_items_of n = if le_int n (pos 0) then 50 else pos_part n

-- One round's entry and its count, in front of those of the later rounds
unfoldable pub add_entry : ℕ → Item → BulkResponse → BulkResponse
add_entry i (created resp) later = record later {
  created_count = suc later.created_count;
  items = (record { index = i; outcome = created resp }) ∷ later.items;
}
add_entry i (rejected e) later = record later {
  failed_count = suc later.failed_count;
  items = (record { index = i; outcome = rejected e }) ∷ later.items;
}

module _ (C : Crypto) (N : Network) (h : ShortenHandler) (S : Store) where
  -- The loop over the items, from the i-th on
  unfoldable pub shorten_all :
      (ℕ → Draws)
      → (ℕ → Clock)
      → ℤ
      → Text
      → ℕ
      → List ShortenRequest
      → S.State
      → BulkResponse × List (Text × Text) × S.State
  unfolding add_entry
  shorten_all draws clocks id req_id i [] s = (no_items, [], s)
  shorten_all draws clocks id req_id i (item ∷ rest) s =
      let (outcome, queued, after) = shorten_one C N h (draws i) S (clocks i) item id req_id s in
      let (later, more, final) = shorten_all draws clocks id req_id (suc i) rest after in
      (add_entry i outcome later, queued ++ more, final)

  unfoldable pub bulk_handler :
      ℕ
      → (ℕ → Draws)
      → (ℕ → Clock)
      → Time
      → Request
      → Option (List ShortenRequest)
      → S.State
      → Reply BulkResponse × List (Text × Text) × S.State
  bulk_handler max_items draws clocks now r body s =
      if not (same r.method (codes "POST"))
      then (simple (plain 405 (codes "Only POST method is allowed")), [], s)
      else let (id, after) = detect_api_key C N h (draws 0) S now r.authorization s in
        elim body [
          | none ↦ (simple (plain 400 (codes "Invalid request body")), [], after)
          | some items ↦
              let (resp, queued, final) = shorten_all draws clocks id r.request_id 0 items after in
              if length items == 0
              then (simple (plain 400 (codes "items must not be empty")), [], after)
              else if ltb max_items (length items)
              then (simple (plain 400 (codes "too many items in one request")), [], after)
              else (answered 200 resp, queued, final)
        ]
