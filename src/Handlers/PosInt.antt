-- ===== src/Handlers/PosInt.antt =====
-- handlers/apikey.go: parsePosInt. At every call `max` is at most 2^30, or the limit that the handler
-- was built with, and `n` is at most `max` before each round, so that `n*10` does not wrap. A byte of a
-- rune that is not ASCII is no digit, as the rune is none.
use tiny_url.Prelude.{
  ℕ, zero, suc, ◌+◌, ◌*◌, ◌-◌, ◌/◌, ◌%◌, ◌^◌, ◌≤◌, ◌<◌, min, Text, false, [], ◌∷◌, ◌++◌, ◌≡◌, refl,
  ap, ◌∙◌, arith, ltb, ◌==◌, ◌||◌, is_empty, if◌then◌else◌, Bool-cases, inl, inr, All, All-append,
}
use tiny_url.Prelude.Int.{pos}
use tiny_url.Handlers.Auth.{digits, decimal}

-- The loop, with the number read so far
unfoldable pub read_digits : ℕ → ℕ → ℕ → Text → ℕ
read_digits def max n [] = if n == 0 then def else n
read_digits def max n (c ∷ rest) =
    let next = n * 10 + (c - 48) in
    let later = read_digits def max next rest in
    if ltb c 48 || ltb 57 c then def else if ltb max next then max else later

unfoldable pub parse_pos_int : Text → ℕ → ℕ → ℕ
unfolding read_digits
parse_pos_int raw def max = if is_empty raw then def else read_digits def max 0 raw

-- The number that a text of digits writes, behind the number n
value_from : ℕ → Text → ℕ
value_from n [] = n
value_from n (c ∷ rest) = value_from (n * 10 + (c - 48)) rest

abbrev AreDigits : Text → Type 0
AreDigits = All (λ c. (48 ≤ c) × (c ≤ 57))

value_from_grows : (n : ℕ) (s : Text) → n ≤ value_from n s
unfolding value_from
value_from_grows n [] = omega arith
value_from_grows n (c ∷ rest) = omega (arith, value_from_grows (n * 10 + (c - 48)) rest)

read_digits_lem :
    (def max n : ℕ) (s : Text)
    → AreDigits s
    → n ≤ max
    → 1 ≤ value_from n s
    → read_digits def max n s ≡ min (value_from n s) max
unfolding read_digits value_from
read_digits_lem def max n [] d h v = ground arith
read_digits_lem def max n (c ∷ rest) ((low, high), d) h v = ground (
  arith,
  read_digits_lem def max (n * 10 + (c - 48)) rest d,
  value_from_grows (n * 10 + (c - 48)) rest,
)

value_from-append :
    (n : ℕ) (s : Text) (c : ℕ) → value_from n (s ++ c ∷ []) ≡ value_from n s * 10 + (c - 48)
unfolding value_from
value_from-append n [] c = refl
value_from-append n (d ∷ rest) c = value_from-append (n * 10 + (d - 48)) rest c

abbrev ten_to : ℕ → ℕ
ten_to zero = 1
ten_to (suc k) = 10 * ten_to k

digits-AreDigits : (fuel n : ℕ) → AreDigits (digits fuel n)
unfolding digits
digits-AreDigits zero n = tt
digits-AreDigits (suc fuel) n = elim (Bool-cases (ltb n 10)) [
  | inl small ↦ rw small ((omega arith, ground arith), tt)
  | inr large ↦ rw large (
      All-append (λ c. (48 ≤ c) × (c ≤ 57)) (digits fuel (n / 10)) _
        (digits-AreDigits fuel (n / 10)) ((omega arith, omega arith), tt))
]

value_from-digits : (fuel n : ℕ) → n < ten_to fuel → value_from 0 (digits fuel n) ≡ n
unfolding digits value_from
value_from-digits zero n h = omega arith
value_from-digits (suc fuel) n h = elim (Bool-cases (ltb n 10)) [
  | inl small ↦ rw small (omega arith)
  | inr large ↦ rw large (
      value_from-append 0 (digits fuel (n / 10)) (48 + n % 10)
      ∙ omega (arith, value_from-digits fuel (n / 10) (omega arith)))
]

is_empty-append : (s : Text) (c : ℕ) → is_empty (s ++ c ∷ []) ≡ false
is_empty-append [] c = refl
is_empty-append (d ∷ s) c = refl

is_empty-digits : (fuel n : ℕ) → is_empty (digits (suc fuel) n) ≡ false
unfolding digits
is_empty-digits fuel n = elim (Bool-cases (ltb n 10)) [
  | inl small ↦ rw small refl
  | inr large ↦ rw large (is_empty-append (digits fuel (n / 10)) (48 + n % 10))
]

read_digits_zero :
    (def max n : ℕ) (s : Text) → AreDigits s → value_from n s ≡ 0 → read_digits def max n s ≡ def
unfolding read_digits value_from
read_digits_zero def max n [] d v = rw v refl
read_digits_zero def max n (c ∷ rest) ((low, high), d) v = ground (
  arith,
  read_digits_zero def max (n * 10 + (c - 48)) rest d,
  value_from_grows (n * 10 + (c - 48)) rest,
)

parse_pos_int-digits :
    (fuel n def max : ℕ)
    → n < ten_to (suc fuel)
    → parse_pos_int (digits (suc fuel) n) def max ≡ (if n == 0 then def else min n max)
unfolding parse_pos_int
parse_pos_int-digits fuel n def max h =
    let value = value_from-digits (suc fuel) n h in
    let all_ = digits-AreDigits (suc fuel) n in
    elim (Bool-cases (n == 0)) [
      | inl none_ ↦
          rw (none_, is_empty-digits fuel n)
            (read_digits_zero def max 0 (digits (suc fuel) n) all_ (value ∙ ground arith))
      | inr some_ ↦
          rw (some_, is_empty-digits fuel n)
            (read_digits_lem def max 0 (digits (suc fuel) n) all_ (omega arith)
                (ground (arith, value))
              ∙ ap (λ v. min v max) value)
    ]

-- A number that is printed and read again, as `limit` and `offset` are: the default for 0, the number
-- itself up to the bound, and the bound above it.
pub parse_pos_int-decimal :
    (n def max : ℕ)
    → n < 2 ^ 63
    → parse_pos_int (decimal (pos n)) def max ≡ (if n == 0 then def else min n max)
unfolding decimal
parse_pos_int-decimal n def max h = parse_pos_int-digits 19 n def max (omega arith)
