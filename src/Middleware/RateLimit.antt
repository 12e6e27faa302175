-- ===== src/Middleware/RateLimit.antt =====
-- middleware/ratelimit.go. A step of the limiter is a request's LoadOrStore, its section under the
-- bucket's lock, the janitor's section under a bucket's lock, or its Delete: the steps of a request and
-- those of the janitor's turn are separate, so that others come between them. A pointer to a bucket is
-- the number of the bucket among those that have been stored under its address.
pub mod Moves
pub mod Room
pub mod Bound
use tiny_url.Prelude.{
  ℕ, zero, suc, List, Text, Bool, true, false, Option, none, some, [], ◌∷◌, ◌++◌, length, get_elem?,
  not, same, if◌then◌else◌,
}
use tiny_url.Prelude.Int.{ℤ, pos, lt_int, ◌+ℤ◌}
use tiny_url.Prelude.Words.{add64}
use tiny_url.Models.{Time, Duration}

pub record Bucket : Type 0 where
  pub count : ℤ
  pub reset_at : Time

-- The buckets stored under an address, the first one first, and the one that the map has now; a state
-- may leave out one that neither the map nor a request points to any more.
pub record Slot : Type 0 where
  pub made : List Bucket
  pub stored : Option ℕ

pub record Limiter : Type 0 where
  pub rate : ℤ
  pub window : Duration
  pub buckets : Text → Slot

unfoldable pub set_slot : Text → Slot → Limiter → Limiter
set_slot ip slot l = record l { buckets = λ j. if same ip j then slot else l.buckets j }

-- An assignment to the k-th bucket
unfoldable pub replace : ℕ → Bucket → List Bucket → List Bucket
replace k b [] = []
replace zero b (c ∷ made) = b ∷ made
replace (suc k) b (c ∷ made) = c ∷ replace k b made

-- LoadOrStore(ip, &bucket{resetAt: now.Add(l.window)}): the pointer
unfoldable pub load_or_store : Text → Time → Limiter → ℕ × Limiter
unfolding set_slot
load_or_store ip now l =
    let slot = l.buckets ip in
    let n = length slot.made in
    let b : Bucket = record { count = pos 0; reset_at = now +ℤ l.window } in
    elim slot.stored [
      | some k ↦ (k, l)
      | none ↦ (n, set_slot ip (record { made = slot.made ++ b ∷ []; stored = some n }) l)
    ]

unfoldable pub count_request : Time → Duration → Bucket → Bucket
count_request now window b =
    let c =
      if lt_int b.reset_at now then record { count = pos 0; reset_at = now +ℤ window } else b in
    record c { count = add64 c.count (pos 1) }

-- The section of a request that holds the lock of the k-th bucket of its address: whether the request
-- goes on to the next handler, and not to a 429. There is no such bucket for a number that no
-- LoadOrStore has answered.
unfoldable pub request : Text → ℕ → Time → Limiter → Bool × Limiter
unfolding set_slot replace
request ip k now l =
    let slot = l.buckets ip in
    elim (get_elem? slot.made k) [
      | none ↦ (false, l)
      | some b ↦
          let c = count_request now l.window b in
          (
            not (lt_int l.rate c.count),
            set_slot ip (record slot { made = replace k c slot.made }) l,
          )
    ]

-- The janitor's section that holds the lock of a bucket in the map; `now` is the tick's time.
unfoldable pub is_stale : Text → Time → Limiter → Bool
is_stale ip now l = elim (l.buckets ip).stored [
  | none ↦ false
  | some k ↦ elim (get_elem? (l.buckets ip).made k) [
    | none ↦ false
    | some b ↦ lt_int b.reset_at now
  ]
]

-- l.buckets.Delete(k)
unfoldable pub delete_bucket : Text → Limiter → Limiter
unfolding set_slot
delete_bucket ip l = set_slot ip (record (l.buckets ip) { stored = none }) l
