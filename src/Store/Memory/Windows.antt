-- ===== src/Store/Memory/Windows.antt =====
-- The window of ClicksByBucket: where it starts, and which bucket a time in it falls in.
use native.Mathlib.Nat.{
  le-div_iff_mul-le, mul-le-mul_right, mul-lt-mul_of_pos_right, le-mul_of_pos_right, add-mul,
  div-lt_iff_lt-mul,
}
use tiny_url.Prelude.{
  ℕ, suc, ◌+◌, ◌-◌, ◌*◌, ◌^◌, ◌%◌, ◌/◌, ◌≤◌, ◌<◌, ◌↔◌, Bool, true, false, ◌≡◌, refl, sym, ap, ◌∙◌,
  arith, ◌&&◌, ◌||◌, not, ◌==◌,
}
use tiny_url.Prelude.Int.{
  ℤ, pos, negsuc, lt_int, pos_part, ◌-ℤ◌, ◌+ℤ◌, int_laws, +ℤ_parts, eq_of_parts,
}
use tiny_url.Prelude.Words.{max_int64, mul64, neg64}
use tiny_url.Prelude.{text_eq}
use tiny_url.Models.{Time, ClickEvent}
use tiny_url.Store.Memory.Series.{sub_time, window_start}

-- ev.At is in bucket i of the window that starts at `start`.
unfoldable pub in_bucket : Time → ℕ → ℕ → ClickEvent → Bool
in_bucket start bucket i ev =
    not (lt_int ev.at (start +ℤ pos (i * bucket))) && lt_int ev.at (start +ℤ pos (suc i * bucket))

-- The distance of a time from the start of a window that it is in.
distance :
    (start at : Time) (w : ℕ) (d : ℤ)
    → (at ≡ start +ℤ d)
    → lt_int at start ≡ false
    → lt_int at (start +ℤ pos w) ≡ true
    → (d ≡ pos (pos_part d)) × (pos_part d < w)
distance start at w (pos n) e h k =
    (refl, ground (arith, +ℤ_parts start (pos n), +ℤ_parts start (pos w), e))
distance start at w (negsuc n) e h k = absurd (ground (arith, +ℤ_parts start (negsuc n), e))

sub_time_within : (t u : Time) (k : ℕ) → t -ℤ u ≡ pos k → k ≤ max_int64 → sub_time t u ≡ pos k
unfolding sub_time
sub_time_within t u k e room = rw (e) (ground arith)

pub within :
    (start : Time) (b n : ℕ) (at : Time)
    → n * b ≤ max_int64
    → lt_int at start ≡ false
    → lt_int at (start +ℤ pos (n * b)) ≡ true
    → let k = pos_part (sub_time at start) in (k < n * b) × (at ≡ start +ℤ pos k)
within start b n at room h l =
    let e : at ≡ start +ℤ (at -ℤ start) = omega int_laws in
    let (d, k) = distance start at (n * b) (at -ℤ start) e h l in
    let same = ap pos_part (sub_time_within at start _ d (omega arith)) in
    (omega (arith, same), e ∙ ap (λ j. start +ℤ j) (d ∙ ap pos (sym same)))

pub div_bounds :
    (k b i : ℕ)
    → 0 < b
    → ((i * b ≤ k) × (k < suc i * b) → k / b ≡ i) × (k / b ≡ i → (i * b ≤ k) × (k < suc i * b))
div_bounds k b i p =
    let lo : (i ≤ k / b) ↔ (i * b ≤ k) = le-div_iff_mul-le p in
    let hi : (k / b < suc i) ↔ (k < suc i * b) = div-lt_iff_lt-mul p in
    (ground (arith, lo, hi), ground (arith, lo, hi))

pub hit_bucket :
    (start : Time) (b i k : ℕ) (ev : ClickEvent)
    → 0 < b
    → ev.at ≡ start +ℤ pos k
    → in_bucket start b i ev ≡ (k / b == i)
unfolding in_bucket
hit_bucket start b i k ev p e = ground (
  arith,
  +ℤ_parts start (pos k),
  +ℤ_parts start (pos (i * b)),
  +ℤ_parts start (pos (suc i * b)),
  e,
  div_bounds k b i p,
)

neg64-pos : (n : ℕ) → 0 < n → n ≤ max_int64 → neg64 (pos n) ≡ negsuc (n - 1)
unfolding neg64
neg64-pos n p h = ground arith

mod_minus : (x q b : ℕ) → x + q ≡ 2 ^ 64 * b → 0 < q → q ≤ max_int64 → x % 2 ^ 64 ≡ 2 ^ 64 - q
mod_minus x q b h p r = omega arith

complement :
    (n b : ℕ) → 0 < n → n ≤ max_int64 → (2 ^ 64 - 1 - (n - 1) % 2 ^ 64) * b + n * b ≡ 2 ^ 64 * b
complement n b p h =
    sym (add-mul (2 ^ 64 - 1 - (n - 1) % 2 ^ 64) n b)
    ∙ ap (λ x. x * b) (let e : 2 ^ 64 - 1 - (n - 1) % 2 ^ 64 + n ≡ 2 ^ 64 = omega arith in e)

mul64_negsuc :
    (n b : ℕ)
    → 0 < n
    → 0 < n * b
    → n ≤ max_int64
    → b ≤ max_int64
    → n * b ≤ max_int64
    → mul64 (negsuc (n - 1)) (pos b) ≡ negsuc (n * b - 1)
unfolding mul64
mul64_negsuc n b p q nr br room =
    let small : b % 2 ^ 64 ≡ b = omega arith in
    let m = mod_minus _ (n * b) b (complement n b p nr) q room in rw small (rw m (ground arith))

window_start_lem :
    (until : Time) (n b : ℕ)
    → 0 < n
    → 0 < n * b
    → n ≤ max_int64
    → b ≤ max_int64
    → n * b ≤ max_int64
    → until ≡ window_start until (pos b) (pos n) +ℤ pos (n * b)
unfolding window_start
window_start_lem until n b p q nr br room =
    let e = ap (λ c. mul64 c (pos b)) (neg64-pos n p nr) ∙ mul64_negsuc n b p q nr br room in
    rw e (omega (int_laws))

pub outside :
    (start : Time) (b n i : ℕ) (ev : ClickEvent)
    → i < n
    → (lt_int ev.at start || not (lt_int ev.at (start +ℤ pos (n * b)))) ≡ true
    → in_bucket start b i ev ≡ false
unfolding in_bucket
outside start b n i ev within h = ground (
  arith,
  +ℤ_parts start (pos (i * b)),
  +ℤ_parts start (pos (suc i * b)),
  +ℤ_parts start (pos (n * b)),
  mul-le-mul_right {m = suc i} {n = n} b within,
)

pub window_start_unique :
    (start until : Time) (b n : ℕ)
    → 0 < n
    → 0 < b
    → n * b ≤ max_int64
    → until ≡ start +ℤ pos (n * b)
    → window_start until (pos b) (pos n) ≡ start
window_start_unique start until b n p q room e =
    let product = mul-lt-mul_of_pos_right {m = 0} {n = n} {k = b} p q in
    let wide : n ≤ n * b = le-mul_of_pos_right n q in
    let high : b ≤ n * b = omega (arith, mul-le-mul_right {m = 1} {n = n} b p) in
    let w =
      window_start_lem until n b p (omega (arith, product)) (omega arith) (omega arith) room in
    eq_of_parts _ _ (
      ground (
        arith,
        +ℤ_parts start (pos (n * b)),
        +ℤ_parts (window_start until (pos b) (pos n)) (pos (n * b)),
        w,
        e,
      ))
