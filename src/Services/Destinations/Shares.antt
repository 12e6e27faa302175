-- ===== src/Services/Destinations/Shares.antt =====
-- The share of the draws that each entry of a destination pool gets.
use tiny_url.Prelude.{
  true, false, ℕ, ◌+◌, ◌≤◌, ◌<◌, List, [], ◌∷◌, ◌++◌, ◌≡◌, refl, sym, ap, ◌∙◌, arith, All,
  if◌then◌else◌, suc,
}
use tiny_url.Prelude.Int.{ℤ, pos, pos_part, lt_int, le_int}
use tiny_url.Prelude.Words.{max_int64, add64, add64-pos}
use tiny_url.Models.{Destination}
use tiny_url.Services.Destinations.{picked, panicked, add_weights, pick_from, pick_destination}

-- ValidateDestinations lets only weights from 1 on through.
abbrev pub IsWeighted : Destination → Type 0
IsWeighted d = (w : ℕ) × (d.weight ≡ pos (suc w))

abbrev pub weights : List Destination → ℕ
weights [] = 0
weights (d ∷ pool) = pos_part d.weight + weights pool

add_weight :
    (c : ℕ) (d : Destination)
    → IsWeighted d
    → c + pos_part d.weight ≤ max_int64
    → add64 (pos c) d.weight ≡ pos (c + pos_part d.weight)
add_weight c d (w, e) room =
    ap (add64 (pos c)) e
    ∙ add64-pos c (suc w) (omega (arith, ap pos_part e))
    ∙ ap (λ x. pos (c + pos_part x)) (sym e)

add_weights_lem :
    (c : ℕ) (pool : List Destination)
    → All IsWeighted pool
    → c + weights pool ≤ max_int64
    → add_weights (pos c) pool ≡ pos (c + weights pool)
unfolding add_weights
add_weights_lem c [] h room = ap pos (omega arith)
add_weights_lem c (d ∷ pool) (h, hs) room =
    ap (λ t. add_weights t pool) (add_weight c d h (omega arith))
    ∙ add_weights_lem (c + pos_part d.weight) pool hs (omega arith)
    ∙ ap pos (omega arith)

pick_from_lem :
    (r c : ℕ) (last d : Destination) (before after : List Destination)
    → All IsWeighted (before ++ d ∷ after)
    → c + weights (before ++ d ∷ after) ≤ max_int64
    → c + weights before ≤ r
    → r < c + weights before + pos_part d.weight
    → pick_from (pos r) (pos c) last (before ++ d ∷ after) ≡ d
unfolding pick_from
pick_from_lem r c last d [] after (h, hs) room low high =
    ap (λ t. if lt_int (pos r) t then d else pick_from (pos r) t d after)
      (add_weight c d h (omega arith))
    ∙ rw (let e : lt_int (pos r) (pos (c + pos_part d.weight)) ≡ true = ground arith in e) refl
pick_from_lem r c last d (b ∷ before) after (h, hs) room low high =
    ap (λ t. if lt_int (pos r) t then b else pick_from (pos r) t b (before ++ d ∷ after))
      (add_weight c b h (omega arith))
    ∙ rw (let e : lt_int (pos r) (pos (c + pos_part b.weight)) ≡ false = ground arith in e) (
        pick_from_lem r (c + pos_part b.weight) b d before after hs (omega arith) (omega arith)
          (omega arith))

-- A pool of two or more is picked from by the loop.
pick_many :
    (int_n : ℤ → ℤ) (r : ℕ) (x y : Destination) (rest : List Destination)
    → let pool = x ∷ y ∷ rest in
      All IsWeighted pool
      → weights pool ≤ max_int64
      → int_n (pos (weights pool)) ≡ pos r
      → pick_destination int_n pool ≡ picked (pick_from (pos r) (pos 0) x pool)
unfolding pick_destination
pick_many int_n r x y rest ((w, h), hs) room e =
    let pool = x ∷ y ∷ rest in
    let total = weights pool in
    let sum : add_weights (pos 0) pool ≡ pos total =
      add_weights_lem 0 pool ((w, h), hs) (omega arith) ∙ ap pos (omega arith) in
    let some_weight : le_int (pos total) (pos 0) ≡ false = ground (arith, ap pos_part h) in
    ap (λ t. if le_int t (pos 0) then panicked else picked (pick_from (int_n t) (pos 0) x pool)) sum
    ∙ rw some_weight (ap (λ t. picked (pick_from t (pos 0) x pool)) e)

-- In a pool of positive weights whose sum is an int, PickDestination takes an entry for exactly the
-- draws from the sum of the weights before it on, as many as its weight: so each entry gets its
-- weight's share of the draws below the total.
pub pick_destination_share :
    (int_n : ℤ → ℤ) (r : ℕ) (d : Destination) (before after : List Destination)
    → let pool = before ++ d ∷ after in
      All IsWeighted pool
      → weights pool ≤ max_int64
      → int_n (pos (weights pool)) ≡ pos r
      → weights before ≤ r
      → r < weights before + pos_part d.weight
      → pick_destination int_n pool ≡ picked d
unfolding pick_destination
pick_destination_share int_n r d [] [] h room e low high = refl
pick_destination_share int_n r d [] (a ∷ after) h room e low high =
    pick_many int_n r d a after h room e
    ∙ ap picked (pick_from_lem r 0 d d [] (a ∷ after) h (omega arith) (omega arith) (omega arith))
pick_destination_share int_n r d (b ∷ []) after h room e low high =
    pick_many int_n r b d after h room e
    ∙ ap picked (pick_from_lem r 0 b d (b ∷ []) after h (omega arith) (omega arith) (omega arith))
pick_destination_share int_n r d (b ∷ c ∷ before) after h room e low high =
    pick_many int_n r b c (before ++ d ∷ after) h room e
    ∙ ap picked
        (pick_from_lem r 0 b d (b ∷ c ∷ before) after h (omega arith) (omega arith) (omega arith))
