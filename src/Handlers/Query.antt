-- ===== src/Handlers/Query.antt =====
-- handlers/clicks.go, series.go and export.go: the numbers in a query, read by strconv.Atoi.
use tiny_url.Prelude.{
  ℕ, zero, suc, ◌+◌, ◌*◌, ◌-◌, ◌^◌, Text, Bool, Option, none, some, [], ◌∷◌, ◌&&◌, ltb, leb, ◌==◌,
  all, is_empty, if◌then◌else◌,
}
use tiny_url.Prelude.Int.{ℤ, pos, negsuc, lt_int}

abbrev is_digit : ℕ → Bool
is_digit c = leb 48 c && leb c 57

number : ℕ → Text → ℕ
number n [] = n
number n (c ∷ rest) = number (n * 10 + (c - 48)) rest

-- The digits behind the sign; `none` if a byte is no digit, if there is none, or above the bound
magnitude : ℕ → Text → Option ℕ
unfolding number
magnitude bound s =
    if is_empty s
    then none
    else if all is_digit s
    then if ltb bound (number 0 s) then none else some (number 0 s)
    else none

-- strconv.Atoi, for 64-bit integers; `none` for an error
unfoldable pub atoi : Text → Option ℤ
unfolding magnitude
atoi [] = none
atoi (c ∷ s) =
    if c == 45
    then (elim (magnitude (2 ^ 63) s) [
      | none ↦ none
      | some zero ↦ some (pos 0)
      | some (suc n) ↦ some (negsuc n)
    ])
    else elim (magnitude (2 ^ 63 - 1) (if c == 43 then s else c ∷ s)) [
      | none ↦ none
      | some n ↦ some (pos n)
    ]

-- The limit of the query: the default if it is absent, no number or not positive, and at most `max`
unfoldable pub limit_of : ℤ → ℤ → Text → ℤ
limit_of def max raw = if is_empty raw then def else elim (atoi raw) [
  | none ↦ def
  | some n ↦ if lt_int (pos 0) n then if lt_int max n then max else n else def
]
