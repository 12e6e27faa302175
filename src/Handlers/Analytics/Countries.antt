-- ===== src/Handlers/Analytics/Countries.antt =====
-- handlers/analytics.go: the countries of an answer.
use tiny_url.Prelude.{
  ℕ, ◌+◌, ◌≤◌, List, Text, true, false, [], ◌∷◌, ◌≡◌, refl, ap, ◌∙◌, inl, inr, arith, length,
  select, is_empty, same, same_iff, text_eq, Bool-cases, All, if◌then◌else◌,
}
use tiny_url.Prelude.Int.{ℤ, pos}
use tiny_url.Prelude.Words.{add64, add64-pos, max_int64}
use tiny_url.Prelude.Table.{Table, lookup, assign, lookup-assign, Once, Once-assign, All-assign}
use tiny_url.Models.{ClickEvent}
use tiny_url.Handlers.Analytics.{or_zero, count_countries}

-- How many of the events come from a country
abbrev pub clicks_from : Text → List ClickEvent → ℕ
clicks_from iso events = length (select (λ ev. same ev.country iso) events)

bumped : Text → Table Text ℤ → Table Text ℤ
bumped iso counts =
    if is_empty iso then counts else assign iso (add64 (or_zero (lookup iso counts)) (pos 1)) counts

blank_differs : (s t : Text) → is_empty s ≡ true → is_empty t ≡ false → same s t ≡ false
unfolding same
blank_differs [] [] b f = cc
blank_differs [] (c ∷ t) b f = refl
blank_differs (c ∷ s) t b f = cc

add64_one : (z : ℤ) (k : ℕ) → z ≡ pos k → k + 1 ≤ max_int64 → add64 z (pos 1) ≡ pos (k + 1)
add64_one z k e room = ap (λ y. add64 y (pos 1)) e ∙ add64-pos k 1 room

or_zero-bumped :
    (country iso : Text) (k : ℕ) (counts : Table Text ℤ)
    → is_empty iso ≡ false
    → or_zero (lookup iso counts) ≡ pos k
    → k + 1 ≤ max_int64
    → or_zero (lookup iso (bumped country counts)) ≡ pos (k + (if same country iso then 1 else 0))
unfolding bumped
or_zero-bumped country iso k counts named at room = elim (Bool-cases (is_empty country)) [
  | inl blank ↦ rw (blank, blank_differs country iso blank named) (at ∙ ap pos (omega arith))
  | inr full ↦
      let n = add64 (or_zero (lookup country counts)) (pos 1) in
      elim (Bool-cases (same country iso)) [
        | inl hit ↦
            let e = (same_iff country iso).0 hit in
            rw (full, lookup-assign country iso n counts, hit)
              (ap (λ c. add64 (or_zero (lookup c counts)) (pos 1)) e
                ∙ add64_one (or_zero (lookup iso counts)) k at room)
        | inr miss ↦ rw (full, lookup-assign country iso n counts, miss) (at ∙ ap pos (omega arith))
      ]
]

pub count_countries_lem :
    (iso : Text) (events : List ClickEvent) (counts : Table Text ℤ) (k : ℕ)
    → is_empty iso ≡ false
    → or_zero (lookup iso counts) ≡ pos k
    → k + length events ≤ max_int64
    → or_zero (lookup iso (count_countries events counts)) ≡ pos (k + clicks_from iso events)
unfolding count_countries bumped
count_countries_lem iso [] counts k named at room = at ∙ ap pos (omega arith)
count_countries_lem iso (ev ∷ events) counts k named at room =
    count_countries_lem iso events (bumped ev.country counts)
      (k + (if same ev.country iso then 1 else 0)) named
      (or_zero-bumped ev.country iso k counts named at (omega arith)) (ground arith)
    ∙ ap pos (ground arith)

-- The map of counts has one entry for each country, and none for the empty one.
abbrev pub AreNamed : Table Text ℤ → Type 0
AreNamed = All (λ entry. is_empty entry.0 ≡ false)

pub count_countries-Once :
    (events : List ClickEvent) (counts : Table Text ℤ)
    → Once counts
    → AreNamed counts
    → Once (count_countries events counts) × AreNamed (count_countries events counts)
unfolding count_countries
count_countries-Once [] counts once named = (once, named)
count_countries-Once (ev ∷ events) counts once named = elim (Bool-cases (is_empty ev.country)) [
  | inl blank ↦ rw (blank, count_countries) (count_countries-Once events counts once named)
  | inr full ↦
      let n = add64 (or_zero (lookup ev.country counts)) (pos 1) in
      rw (full, count_countries)
        (count_countries-Once events (assign ev.country n counts)
          (Once-assign ev.country n counts once)
          (All-assign (λ entry. is_empty entry.0 ≡ false) ev.country n counts full named))
]
