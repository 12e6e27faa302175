-- ===== src/Services/Webhooks/Deliveries.antt =====
-- services/webhook.go: what a delivery does, and what a receiver can check.
use mathlib.Core.Path.{subst}
use tiny_url.Prelude.{
  ltb, ◌&&◌, ℕ, zero, suc, ◌+◌, ◌*◌, ◌/◌, ◌%◌, ◌≤◌, ◌<◌, Text, Bool, true, false, none, some, [],
  ◌∷◌, ◌++◌, ◌≡◌, ◌≢◌, ◌⊎◌, inl, inr, refl, ap, ◌∙◌, arith, length, leb, same, codes, Bool-cases,
  Option-cases,
}
use tiny_url.Prelude.Int.{pos}
use tiny_url.Prelude.Words.{add64}
use tiny_url.Prelude.Strings.{strip_prefix}
use tiny_url.Store.Memory.Compare.{IsBytes}
use tiny_url.Services.Clicks.{hex_digit, hex_encode}
use tiny_url.Services.Validation.{Network, ParsedUrl, ValidationError, validate_host_at_runtime}
use tiny_url.Services.Webhooks.{
  WebhookEvent, WebhookDispatcher, Posted, delivered, retry, give_up, unsendable, unreachable,
  status, attempt, attempts, max_attempts, deliver, nibble, hex_decode, signature,
  verify_webhook_signature,
}

-- What an attempt met, by its status: success, a failure that may pass, and one that will not
abbrev pub IsSuccess : Posted → Type 0
IsSuccess p = (n : ℕ) × (p ≡ status n) × (200 ≤ n) × (n < 300)

abbrev pub IsTransient : Posted → Type 0
IsTransient p = (p ≡ unreachable) ⊎ ((n : ℕ) × (p ≡ status n) × (500 ≤ n))

abbrev pub IsTerminal : Posted → Type 0
IsTerminal p = (p ≡ unsendable) ⊎ ((n : ℕ) × (p ≡ status n) × ((n < 200) ⊎ ((300 ≤ n) × (n < 500))))

-- The attempts from the n-th on, of which `left` are left: the last one made, the k-th, meets R, and
-- all before it met transient failures.
abbrev EndsIn : (Posted → Type 0) → (ℕ → Posted) → ℕ → ℕ → ℕ → Type 0
EndsIn R post n left made =
    (k : ℕ) × (made ≡ suc k)
    × (n ≤ k)
    × (k < n + left)
    × R (post k)
    × ((j : ℕ) → n ≤ j → j < k → IsTransient (post j))

abbrev IsTried : (ℕ → Posted) → ℕ → ℕ → Bool → ℕ → Type 0
IsTried post n left true made = EndsIn IsSuccess post n left made
IsTried post n left false made =
    EndsIn IsTerminal post n left made
    ⊎ ((made ≡ n + left) × ((j : ℕ) → n ≤ j → j < made → IsTransient (post j)))

Attempt-cases :
    (p : Posted)
    → ((attempt p ≡ delivered) × IsSuccess p)
      ⊎ ((attempt p ≡ retry) × IsTransient p)
      ⊎ ((attempt p ≡ give_up) × IsTerminal p)
unfolding attempt
Attempt-cases unsendable = inr (inr (refl, inl refl))
Attempt-cases unreachable = inr (inl (refl, inl refl))
Attempt-cases (status n) = elim (Bool-cases (leb 200 n && ltb n 300)) [
  | inl good ↦ inl (rw good refl, (n, refl, ground arith, ground arith))
  | inr bad ↦ elim (Bool-cases (leb 500 n)) [
    | inl down ↦ inr (inl (rw (bad, down) refl, inr (n, refl, ground arith)))
    | inr no_ ↦ inr (
        inr (
          rw (bad, no_) refl,
          inr (
            n,
            refl,
            elim (Bool-cases (ltb n 200)) [
              | inl low ↦ inl (ground arith)
              | inr high ↦ inr (ground arith, ground arith)
            ],
          ),
        ))
  ]
]

next_or : (n j : ℕ) → n ≤ j → (n ≡ j) ⊎ (suc n ≤ j)
next_or n j h = elim (Bool-cases (leb (suc n) j)) [
  | inl later ↦ inr (ground arith)
  | inr at ↦ inl (ground arith)
]

-- A property of the n-th attempt and of those after it
from_next : (P : ℕ → Type 0) (n j : ℕ) → n ≤ j → P n → (suc n ≤ j → P j) → P j
from_next P n j h now later = elim (next_or n j h) [ inl e ↦ subst P e now | inr g ↦ later g ]

one_more-EndsIn :
    (R : Posted → Type 0) (post : ℕ → Posted) (n left made : ℕ)
    → IsTransient (post n)
    → EndsIn R post (suc n) left made
    → EndsIn R post n (suc left) made
one_more-EndsIn R post n left made again (k, e, from, low, hit, before) = (
  k,
  e,
  omega (arith, from),
  omega (arith, low),
  hit,
  λ j h g. from_next (λ i. IsTransient (post i)) n j h again (λ later. before j later g),
)

one_more :
    (post : ℕ → Posted) (n left : ℕ) (done : Bool) (made : ℕ)
    → IsTransient (post n)
    → IsTried post (suc n) left done made
    → IsTried post n (suc left) done made
one_more post n left true made again tried = one_more-EndsIn IsSuccess post n left made again tried
one_more post n left false made again (inl tried) =
    inl (one_more-EndsIn IsTerminal post n left made again tried)
one_more post n left false made again (inr (all_, before)) = inr (
  omega (arith, all_),
  λ j h g. from_next (λ i. IsTransient (post i)) n j h again (λ later. before j later g),
)

first_ends :
    (R : Posted → Type 0) (post : ℕ → Posted) (n left : ℕ)
    → R (post n)
    → EndsIn R post n (suc left) (suc n)
first_ends R post n left hit =
    (n, refl, omega arith, omega arith, hit, λ j h g. absurd (omega (arith, h, g)))

attempts-IsTried :
    (post : ℕ → Posted) (n left : ℕ)
    → let (done, made) = attempts post n left in IsTried post n left done made
unfolding attempts
attempts-IsTried post n zero = inr (omega arith, λ j h g. absurd (omega (arith, h, g)))
attempts-IsTried post n (suc left) = elim (Attempt-cases (post n)) [
  | inl (done, hit) ↦ rw (done, attempts) (first_ends IsSuccess post n left hit)
  | inr (inl (again, soft)) ↦
      rw (again, attempts) (one_more post n left _ _ soft (attempts-IsTried post (suc n) left))
  | inr (inr (bad, hard)) ↦ rw (bad, attempts) (inl (first_ends IsTerminal post n left hard))
]

-- The event's URL parses, and the runtime validation lets its host through.
abbrev pub IsAllowed : Network → WebhookEvent → Type 0
IsAllowed N ev =
    (parsed : ParsedUrl) × (N.parse_url ev.url ≡ some parsed)
    × (validate_host_at_runtime N parsed.hostname ≡ none)

abbrev pub IsRefused : Network → WebhookEvent → Type 0
IsRefused N ev =
    (N.parse_url ev.url ≡ none)
    ⊎ ((parsed : ParsedUrl) × (e : ValidationError) × (N.parse_url ev.url ≡ some parsed)
        × (validate_host_at_runtime N parsed.hostname ≡ some e))

-- The attempts of a delivery: the last one made, of three at most, meets R, and all before it met
-- transient failures.
abbrev pub EndsWith : (Posted → Type 0) → (ℕ → Posted) → ℕ → Type 0
EndsWith R post made =
    (k : ℕ) × (made ≡ suc k) × (k < 3) × R (post k) × ((j : ℕ) → j < k → IsTransient (post j))

-- What one delivery does to the counters, and the number of its attempts
abbrev pub IsDelivery :
    Network → (ℕ → Posted) → WebhookEvent → WebhookDispatcher → WebhookDispatcher → ℕ → Type 0
IsDelivery N post ev d after made =
    ((after ≡ record d { sent = add64 d.sent (pos 1) })
      × IsAllowed N ev
      × EndsWith IsSuccess post made)
    ⊎ ((after ≡ record d { failed = add64 d.failed (pos 1) })
        × ((IsRefused N ev × (made ≡ 0))
            ⊎ (IsAllowed N ev
                × (EndsWith IsTerminal post made
                    ⊎ ((made ≡ 3) × ((j : ℕ) → j < 3 → IsTransient (post j)))))))

EndsIn-EndsWith :
    (R : Posted → Type 0) (post : ℕ → Posted) (made : ℕ)
    → EndsIn R post 0 max_attempts made
    → EndsWith R post made
EndsIn-EndsWith R post made (k, e, _, low, hit, before) =
    (k, e, omega (arith, low), hit, λ j g. before j (omega arith) g)

module _ (N : Network) where
  -- A delivery is refused without an attempt, if the event's URL does not parse or the runtime
  -- validation does not let its host through. Otherwise it makes attempts until one is answered with a
  -- status from 200 to 299, which counts the event as sent, until one cannot be sent or is answered
  -- with another status below 500, or until the third: a client's error and a status from 500 on are
  -- retried. A delivery that does not succeed counts the event as failed, and nothing else changes.
  pub deliver-IsDelivery :
      (post : ℕ → Posted) (ev : WebhookEvent) (d : WebhookDispatcher)
      → let (after, made) = deliver N post ev d in IsDelivery N post ev d after made
  unfolding deliver
  deliver-IsDelivery post ev d = elim (Option-cases (N.parse_url ev.url)) [
    | inl broken ↦ rw (broken, deliver) (inr (refl, inl (inl refl, refl)))
    | inr (parsed, fine) ↦ elim (Option-cases (validate_host_at_runtime N parsed.hostname)) [
      | inr (e, bad) ↦ rw (fine, bad, deliver) (inr (refl, inl (inr (parsed, e, refl, bad), refl)))
      | inl safe ↦
          let tried = attempts-IsTried post 0 max_attempts in
          elim (Bool-cases (attempts post 0 max_attempts).0) [
            | inl done ↦
                let hit = EndsIn-EndsWith IsSuccess post _ (rw done at tried) in
                rw (fine, safe, done, deliver) (inl (refl, (parsed, refl, safe), hit))
            | inr failed ↦ elim (let t = rw failed at tried in t) [
              | inl hard ↦
                  let hit = EndsIn-EndsWith IsTerminal post _ hard in
                  rw (fine, safe, failed, deliver) (inr (refl, inr ((parsed, refl, safe), inl hit)))
              | inr (all_, soft) ↦
                  let three : (attempts post 0 max_attempts).1 ≡ 3 = omega (arith, all_) in
                  rw (fine, safe, failed, deliver)
                    (inr (
                      refl,
                      inr (
                        (parsed, refl, safe),
                        inr (three, λ j g. soft j (omega arith) (omega (arith, three, g))),
                      ),
                    ))
            ]
          ]
    ]
  ]

nibble-hex_digit : (n : ℕ) → n < 16 → nibble (hex_digit n) ≡ some n
unfolding nibble
nibble-hex_digit n h = ground arith

decode_pair :
    (c d high low : ℕ) (rest bytes : Text)
    → nibble c ≡ some high
    → nibble d ≡ some low
    → hex_decode rest ≡ some bytes
    → hex_decode (c ∷ d ∷ rest) ≡ some ((high * 16 + low) ∷ bytes)
unfolding hex_decode
decode_pair c d high low rest bytes p q r = rw (p, q, r, hex_decode) refl

hex_decode-hex_encode : (bytes : Text) → IsBytes bytes → hex_decode (hex_encode bytes) ≡ some bytes
unfolding hex_decode hex_encode
hex_decode-hex_encode [] h = refl
hex_decode-hex_encode (b ∷ bytes) (p, h) =
    decode_pair _ _ (b / 16) (b % 16) (hex_encode bytes) bytes
      (nibble-hex_digit (b / 16) (omega arith)) (nibble-hex_digit (b % 16) (omega arith))
      (hex_decode-hex_encode bytes h)
    ∙ ap (λ c. some (c ∷ bytes)) (omega arith)

hex_encode_full : (bytes : Text) → IsBytes bytes → bytes ≢ [] → 0 < length (hex_encode bytes)
unfolding hex_encode
hex_encode_full [] h full = absurd (full refl)
hex_encode_full (b ∷ bytes) h full = omega arith

module _ (hmac : Text → Text → Text) where
  -- A receiver that checks a body with a secret accepts the signature of an event exactly if the two
  -- HMACs are the same bytes; provided that the event's HMAC consists of bytes, at least one.
  pub verify_webhook_signature-signature :
      (ev : WebhookEvent) (secret body : Text)
      → IsBytes (hmac ev.secret ev.payload)
      → hmac ev.secret ev.payload ≢ []
      → verify_webhook_signature hmac secret body (signature hmac ev)
        ≡ same (hmac ev.secret ev.payload) (hmac secret body)
  unfolding verify_webhook_signature signature strip_prefix
  verify_webhook_signature-signature ev secret body bytes full =
      let mac = hmac ev.secret ev.payload in
      let long : leb (length (codes "sha256=" ++ hex_encode mac)) 7 ≡ false =
        ground (arith, hex_encode_full mac bytes full) in
      rw (long, hex_decode-hex_encode mac bytes) refl
