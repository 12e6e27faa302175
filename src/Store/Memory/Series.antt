-- ===== src/Store/Memory/Series.antt =====
-- services/storage.go: ClicksByBucket of MemoryStore.
use tiny_url.Prelude.{
  ℕ, zero, suc, List, Text, none, some, [], ◌∷◌, ◌/◌, ◌||◌, if◌then◌else◌, not, text_eq,
}
use tiny_url.Prelude.Int.{ℤ, pos, negsuc, pos_part, lt_int, le_int, ◌+ℤ◌, ◌-ℤ◌}
use tiny_url.Prelude.Words.{max_int64, add64, mul64, neg64}
use tiny_url.Prelude.Table.{lookup}
use tiny_url.Models.{Time, Duration, ClickEvent}
use tiny_url.Store.{Result, ok, err, not_found}
use tiny_url.Store.Memory.State.{MemoryStore}
use tiny_url.Store.Memory.Clicks.{events_of}

-- t.Sub(u), which stops at the ends of int64
unfoldable pub sub_time : Time → Time → Duration
sub_time t u =
    let d = t -ℤ u in
    if lt_int (pos max_int64) d
    then pos max_int64
    else if lt_int d (negsuc max_int64)
    then negsuc max_int64
    else d

unfoldable pub zeros : ℕ → List ℤ
zeros zero = []
zeros (suc n) = pos 0 ∷ zeros n

-- if idx < count { out[idx]++ }
unfoldable pub bump_at : ℕ → List ℤ → List ℤ
bump_at i [] = []
bump_at zero (n ∷ out) = add64 n (pos 1) ∷ out
bump_at (suc i) (n ∷ out) = n ∷ bump_at i out

-- One round of the loop over the events. A time in the window is not before its start, so the
-- difference is not negative and the division is that of natural numbers.
unfoldable pub tally_event : Time → Time → Duration → ClickEvent → List ℤ → List ℤ
tally_event start until bucket ev out =
    if lt_int ev.at start || not (lt_int ev.at until)
    then out
    else bump_at (pos_part (sub_time ev.at start) / pos_part bucket) out

unfoldable pub tally : Time → Time → Duration → List ClickEvent → List ℤ → List ℤ
tally start until bucket [] out = out
tally start until bucket (ev ∷ evs) out =
    tally start until bucket evs (tally_event start until bucket ev out)

unfoldable pub window_start : Time → Duration → ℤ → Time
window_start until bucket count = until +ℤ mul64 (neg64 count) bucket

unfoldable pub clicks_by_bucket : Text → Time → Duration → ℤ → MemoryStore → Result (List ℤ)
clicks_by_bucket code until bucket count s =
    if le_int count (pos 0) || le_int bucket (pos 0) then ok [] else elim (lookup code s.urls) [
      | none ↦ err not_found
      | some m ↦ ok (
          tally (window_start until bucket count) until bucket (events_of code s)
            (zeros (pos_part count)))
    ]
