-- ===== src/Services/Webhooks.antt =====
-- services/webhook.go. HMAC-SHA256 and the HTTP client are parameters: `post n` is what the n-th attempt
-- of a delivery meets. The time that a retry waits for changes nothing here.
pub mod Deliveries
use tiny_url.Prelude.{
  ℕ, zero, suc, ◌+◌, ◌*◌, ◌-◌, List, Text, Bool, true, false, Option, none, some, [], ◌∷◌, ◌++◌,
  ◌&&◌, length, ltb, leb, ◌==◌, same, codes, if◌then◌else◌,
}
use tiny_url.Prelude.Int.{ℤ, pos, pos_part, le_int}
use tiny_url.Prelude.Words.{add64}
use tiny_url.Prelude.Strings.{strip_prefix}
use tiny_url.Services.Clicks.{hex_encode}
use tiny_url.Services.Validation.{Network, validate_host_at_runtime}

pub record WebhookEvent : Type 0 where
  pub code : Text
  pub url : Text
  pub secret : Text
  pub payload : Text

pub record WebhookDispatcher : Type 0 where
  pub queue : List WebhookEvent
  pub queue_size : ℕ
  pub stopped : Bool
  pub sent : ℤ
  pub failed : ℤ
  pub dropped : ℤ

unfoldable pub new_webhook_dispatcher : ℤ → WebhookDispatcher
new_webhook_dispatcher queue_size = record {
  queue = [];
  queue_size = if le_int queue_size (pos 0) then 256 else pos_part queue_size;
  stopped = false;
  sent = pos 0;
  failed = pos 0;
  dropped = pos 0;
}

-- Enqueue, for a dispatcher that Close does not close meanwhile
unfoldable pub enqueue : WebhookEvent → WebhookDispatcher → Bool × WebhookDispatcher
enqueue ev d =
    if d.stopped
    then (false, d)
    else if ltb (length d.queue) d.queue_size
    then (true, record d { queue = d.queue ++ ev ∷ [] })
    else (false, record d { dropped = add64 d.dropped (pos 1) })

-- What an attempt's POST meets: no request can be made of the URL, the client fails, or a status
pub data Posted : Type 0 where
  unsendable : Posted
  unreachable : Posted
  status : ℕ → Posted

-- The result of an attempt: delivered, or an error that is to be retried or not
pub data Attempt : Type 0 where
  delivered : Attempt
  retry : Attempt
  give_up : Attempt

unfoldable pub attempt : Posted → Attempt
attempt unsendable = give_up
attempt unreachable = retry
attempt (status n) =
    if leb 200 n && ltb n 300 then delivered else if leb 500 n then retry else give_up

abbrev pub max_attempts : ℕ
max_attempts = 3

-- The loop over the attempts: whether the event is delivered, and how many POSTs were made
unfoldable pub attempts : (ℕ → Posted) → ℕ → ℕ → Bool × ℕ
attempts post n zero = (false, n)
attempts post n (suc left) =
    let later = attempts post (suc n) left in
    elim (attempt (post n)) [ delivered ↦ (true, suc n) | give_up ↦ (false, suc n) | retry ↦ later ]

module _ (N : Network) where
  -- The dispatcher after the delivery, and the number of POSTs
  unfoldable pub deliver : (ℕ → Posted) → WebhookEvent → WebhookDispatcher → WebhookDispatcher × ℕ
  deliver post ev d =
      let failed = record d { failed = add64 d.failed (pos 1) } in
      elim (N.parse_url ev.url) [
        | none ↦ (failed, 0)
        | some parsed ↦ elim (validate_host_at_runtime N parsed.hostname) [
          | some e ↦ (failed, 0)
          | none ↦
              let (done, posts) = attempts post 0 max_attempts in
              (if done then record d { sent = add64 d.sent (pos 1) } else failed, posts)
        ]
      ]

  -- One turn of a worker
  unfoldable pub work : (ℕ → Posted) → WebhookDispatcher → WebhookDispatcher × ℕ
  work post d = elim d.queue [
    | [] ↦ (d, 0)
    | ev ∷ rest ↦ deliver post ev (record d { queue = rest })
  ]

-- The value of a hexadecimal digit
unfoldable pub nibble : ℕ → Option ℕ
nibble c =
    if leb 48 c && leb c 57
    then some (c - 48)
    else if leb 97 c && leb c 102
    then some (c - 87)
    else if leb 65 c && leb c 70
    then some (c - 55)
    else none

-- hex.DecodeString
unfoldable pub hex_decode : Text → Option Text
hex_decode [] = some []
hex_decode (c ∷ []) = none
hex_decode (c ∷ d ∷ rest) =
    let later = hex_decode rest in
    elim (nibble c) [
      | none ↦ none
      | some high ↦ elim (nibble d) [
        | none ↦ none
        | some low ↦ elim later [ none ↦ none | some bytes ↦ some ((high * 16 + low) ∷ bytes) ]
      ]
    ]

module _ (hmac : Text → Text → Text) where
  -- The value of the signature's header
  unfoldable pub signature : WebhookEvent → Text
  signature ev = codes "sha256=" ++ hex_encode (hmac ev.secret ev.payload)

  -- hmac.Equal is equality of byte slices.
  unfoldable pub verify_webhook_signature : Text → Text → Text → Bool
  verify_webhook_signature secret body header =
      if leb (length header) 7 then false else elim (strip_prefix (codes "sha256=") header) [
        | none ↦ false
        | some rest ↦ elim (hex_decode rest) [
          | none ↦ false
          | some got ↦ same got (hmac secret body)
        ]
      ]
