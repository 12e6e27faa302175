-- ===== src/Middleware/RateLimit/Bound.antt =====
-- The bound that a fixed window gives on any span of a window's length.
use tiny_url.Prelude.{ℕ, ◌+◌, ◌*◌, ◌≤◌, Text, ◌≡◌, All}
use tiny_url.Prelude.Int.{pos}
use tiny_url.Models.{Time, Duration}
use tiny_url.Middleware.RateLimit.{Slot, Limiter}
use tiny_url.Middleware.RateLimit.Moves.{Move, loads, locks, looks, deletes}
use tiny_url.Middleware.RateLimit.Room.{CanCount, InSpan, slot_room}

-- The time that a request has read is in the span.
abbrev pub IsTimely : Time → Duration → Move → Type 0
IsTimely from w (loads ip now) = InSpan from w now
IsTimely from w (locks ip k now) = InSpan from w now
IsTimely from w (looks ip now) = Unit
IsTimely from w deletes = Unit

module _ (r : ℕ) (w : Duration) (ip : Text) (from : Time) where
  abbrev room : Slot → ℕ
  room = slot_room r w from

  -- A limiter of the rate and the window, whose buckets of the address can count n more requests
  abbrev IsReady : ℕ → Limiter → Type 0
  IsReady n l = (l.rate ≡ pos r) × (l.window ≡ w) × All (CanCount n) (l.buckets ip).made

  -- What a change of one slot does: it lets `went` requests go on, for `dropped` deletions.
  abbrev IsPaid : ℕ → ℕ → Limiter → Limiter → Type 0
  IsPaid went dropped l after = went + room (after.buckets ip) ≤ room (l.buckets ip) + r * dropped
