-- ===== src/Middleware/RateLimit/Moves.antt =====
-- middleware/ratelimit.go: requests and the janitor, as a sequence of their steps.
use tiny_url.Prelude.{
  ℕ, ◌+◌, List, Text, Bool, false, Option, none, some, [], ◌∷◌, ◌&&◌, same, if◌then◌else◌,
}
use tiny_url.Models.{Time}
use tiny_url.Middleware.RateLimit.{Limiter, load_or_store, request, is_stale, delete_bucket}

-- `locks ip k now` is the section of a request that has loaded the k-th bucket of its address. That a
-- request does so once, and only with a bucket that it has loaded, is not asked for: the sequences are
-- those of the program and more.
pub data Move : Type 0 where
  loads : (ip : Text) (now : Time) → Move
  locks : (ip : Text) (k : ℕ) (now : Time) → Move
  looks : (ip : Text) (now : Time) → Move
  deletes : Move

-- The limiter, and the address whose bucket the janitor has found stale and not deleted yet
abbrev pub State : Type 0
State = Limiter × Option Text

unfoldable pub move : Move → State → State
move (loads ip now) (l, doomed) = ((load_or_store ip now l).1, doomed)
move (locks ip k now) (l, doomed) = ((request ip k now l).1, doomed)
move (looks ip now) (l, doomed) = (l, if is_stale ip now l then some ip else none)
move deletes (l, none) = (l, none)
move deletes (l, some ip) = (delete_bucket ip l, none)

-- Whether a move lets a request of `ip` go on
unfoldable pub goes_on : Text → Move → State → Bool
goes_on ip (loads j now) s = false
goes_on ip (locks j k now) (l, doomed) = same j ip && (request j k now l).0
goes_on ip (looks j now) s = false
goes_on ip deletes s = false

-- Whether a move deletes the bucket of `ip`
unfoldable pub drops : Text → Move → State → Bool
drops ip (loads j now) s = false
drops ip (locks j k now) s = false
drops ip (looks j now) s = false
drops ip deletes (l, none) = false
drops ip deletes (l, some j) = same j ip

-- How many of the moves do either
unfoldable pub tally : (Move → State → Bool) → List Move → State → ℕ
tally p [] s = 0
tally p (m ∷ moves) s = (if p m s then 1 else 0) + tally p moves (move m s)
