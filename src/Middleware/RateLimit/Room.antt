-- ===== src/Middleware/RateLimit/Room.antt =====
-- How many requests the buckets of an address still let go on in a span of a window's length, and what
-- one move takes of it.
use tiny_url.Prelude.{
  ℕ, zero, suc, ◌+◌, ◌-◌, ◌≤◌, List, true, false, none, some, [], ◌∷◌, ◌++◌, ◌≡◌, refl, arith, not,
  if◌then◌else◌, get_elem?, Bool-cases, inl, inr, some_inj,
}
use tiny_url.Prelude.Int.{pos, pos_part, lt_int, ◌+ℤ◌, ◌≤ℤ◌, +ℤ_parts}
use tiny_url.Prelude.Words.{max_int64, add64-pos}
use tiny_url.Models.{Time, Duration}
use tiny_url.Middleware.RateLimit.{Bucket, Slot, replace, count_request}

-- A bucket that has counted some requests, and can count n more
abbrev pub CanCount : ℕ → Bucket → Type 0
CanCount n b = (c : ℕ) × (b.count ≡ pos c) × (c + n ≤ max_int64)

-- A time from the span's beginning to a window behind it
abbrev pub InSpan : Time → Duration → Time → Type 0
InSpan from w now = (from ≤ℤ now) × (now ≤ℤ from +ℤ w)

module _ (r : ℕ) (w : Duration) (from : Time) where
  -- What a bucket has left, and once more the rate if it may be reset in the span
  abbrev pub bucket_room : Bucket → ℕ
  bucket_room b = r - pos_part b.count + (if lt_int b.reset_at (from +ℤ w) then r else 0)

  unfoldable pub total_room : List Bucket → ℕ
  total_room [] = 0
  total_room (b ∷ made) = bucket_room b + total_room made

  -- An address without a bucket in the map may get one.
  abbrev pub slot_room : Slot → ℕ
  slot_room slot = total_room slot.made + (elim slot.stored [ none ↦ r | some k ↦ 0 ])

  pub total_room-append :
      (made : List Bucket) (b : Bucket)
      → total_room (made ++ b ∷ []) ≡ total_room made + bucket_room b
  unfolding total_room
  total_room-append [] b = omega arith
  total_room-append (c ∷ made) b = omega (arith, total_room-append made b)

  pub total_room-replace :
      (k : ℕ) (b c : Bucket) (made : List Bucket)
      → get_elem? made k ≡ some b
      → total_room (replace k c made) + bucket_room b ≡ total_room made + bucket_room c
  unfolding total_room replace
  total_room-replace k b c [] h = cc
  total_room-replace zero b c (d ∷ made) h = let e : d ≡ b = some_inj d b h in rw e (omega arith)
  total_room-replace (suc k) b c (d ∷ made) h = omega (arith, total_room-replace k b c made h)

  -- A request that counts in a bucket takes its place in the room.
  pub counted_room :
      (now : Time) (n : ℕ) (b : Bucket)
      → InSpan from w now
      → CanCount (suc n) b
      → let c = count_request now w b in
        ((if not (lt_int (pos r) c.count) then 1 else 0) + bucket_room c ≤ bucket_room b)
        × CanCount n c
  unfolding count_request
  counted_room now n b (lo, hi) (c, e, few) = elim (Bool-cases (lt_int b.reset_at now)) [
    | inl stale ↦
        let one = add64-pos 0 1 (omega arith) in
        let late : lt_int (now +ℤ w) (from +ℤ w) ≡ false =
          ground (arith, +ℤ_parts now w, +ℤ_parts from w) in
        let old : lt_int b.reset_at (from +ℤ w) ≡ true = ground arith in
        rw (stale, one, late, old) (ground arith, (1, refl, omega (arith, few)))
    | inr live ↦
        let up = add64-pos c 1 (omega (arith, few)) in
        rw (live, e, up) (ground arith, (c + 1, refl, omega (arith, few)))
  ]
