-- ===== src/Services/Destinations.antt =====
-- services/destination_picker.go: PickDestination. The generator's IntN(total), which panics unless
-- total is positive, is a parameter.
pub mod Shares
use tiny_url.Prelude.{ℕ, List, [], ◌∷◌, ◌++◌, Option, none, some, if◌then◌else◌}
use tiny_url.Prelude.Int.{ℤ, pos, lt_int, le_int}
use tiny_url.Prelude.Words.{add64}
use tiny_url.Models.{Destination}

pub data Picked : Type 0 where
  no_pool panicked : Picked
  picked : Destination → Picked

-- for _, d := range pool { total += d.Weight }
unfoldable pub add_weights : ℤ → List Destination → ℤ
add_weights total [] = total
add_weights total (d ∷ pool) = add_weights (add64 total d.weight) pool

-- The loop that returns, and the fallback behind it: pool[len(pool)-1] is the last entry seen.
unfoldable pub pick_from : ℤ → ℤ → Destination → List Destination → Destination
pick_from r cum last [] = last
pick_from r cum last (d ∷ pool) =
    let next = add64 cum d.weight in if lt_int r next then d else pick_from r next d pool

unfoldable pub pick_destination : (ℤ → ℤ) → List Destination → Picked
pick_destination int_n [] = no_pool
pick_destination int_n (d ∷ []) = picked d
pick_destination int_n (d ∷ e ∷ pool) =
    let total = add_weights (pos 0) (d ∷ e ∷ pool) in
    if le_int total (pos 0)
    then panicked
    else picked (pick_from (int_n total) (pos 0) d (d ∷ e ∷ pool))
