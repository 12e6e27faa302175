-- ===== src/Handlers/Analytics/Top.antt =====
-- handlers/analytics.go: the top countries, for any sort that sorts.
use mathlib.Core.Path.{subst}
use tiny_url.Prelude.{
  Has, All-Has, ℕ, zero, suc, ◌≤◌, ◌<◌, List, Text, Bool, true, false, Option, none, some, [], ◌∷◌,
  ◌≡◌, ◌↔◌, ◌⊎◌, refl, sym, ap, ◌∙◌, inl, inr, arith, map, take, take_long, length, length-take,
  ltb, ◌==◌, is_empty, same, same_iff, same_refl, text_eq, Bool-cases, some_inj, All, All-weaken,
}
use tiny_url.Prelude.Int.{ℤ, pos, ◌<ℤ◌, lt_int, same_int, same_int_iff}
use tiny_url.Prelude.Words.{max_int64}
use tiny_url.Prelude.Table.{Table, lookup, Once, All-lookup}
use tiny_url.Models.{ClickEvent, CountryCount}
use tiny_url.Store.{Store, ok}
use tiny_url.Handlers.Analytics.{
  less_text, ranks_before, or_zero, count_countries, row, top_countries,
  analytics_top_countries_sample, analytics_top_countries_limit,
}
use tiny_url.Handlers.Analytics.Countries.{
  clicks_from, count_countries_lem, AreNamed, count_countries-Once,
}

take-Has : {A : Type 0} (n : ℕ) (xs : List A) (x : A) → Has x (take n xs) → Has x xs
take-Has zero xs x i = absurd i
take-Has (suc n) [] x i = absurd i
take-Has (suc n) (y ∷ xs) x (inl e) = inl e
take-Has (suc n) (y ∷ xs) x (inr i) = inr (take-Has n xs x i)

take-All : {A : Type 0} (P : A → Type 0) (n : ℕ) (xs : List A) → All P xs → All P (take n xs)
take-All P zero xs h = tt
take-All P (suc n) [] h = tt
take-All P (suc n) (x ∷ xs) (p, h) = (p, take-All P n xs h)

module _ {A : Type 0} (less : A → A → Bool) where
  -- No element stands before one that it should follow.
  abbrev pub IsSorted : List A → Type 0
  IsSorted [] = Unit
  IsSorted (x ∷ xs) = All (λ y. less y x ≡ false) xs × IsSorted xs

  -- What sort.Slice promises of its result ys for a list xs
  pub record IsSorting (xs ys : List A) : Type 0 where
    pub same_elements : (x : A) → Has x ys ↔ Has x xs
    pub sorted : IsSorted ys

  -- An element of a sorted list is in its first n, or comes before none of them.
  cut :
      (n : ℕ) (xs : List A) (x : A)
      → IsSorted xs
      → Has x xs
      → Has x (take n xs) ⊎ ((y : A) → Has y (take n xs) → less x y ≡ false)
  cut zero xs x h i = inr (λ y j. absurd j)
  cut (suc n) [] x h i = absurd i
  cut (suc n) (z ∷ xs) x (first, h) (inl e) = inl (inl e)
  cut (suc n) (z ∷ xs) x (first, h) (inr i) = elim (cut n xs x h i) [
    | inl in_ ↦ inl (inr in_)
    | inr out ↦ inr (λ y j. elim j [
      | inl e ↦ subst (λ u. less x u ≡ false) e (All-Has (λ y. less y z ≡ false) x xs first i)
      | inr k ↦ out y k
    ])
  ]

  take-IsSorted : (n : ℕ) (xs : List A) → IsSorted xs → IsSorted (take n xs)
  take-IsSorted zero xs h = tt
  take-IsSorted (suc n) [] h = tt
  take-IsSorted (suc n) (x ∷ xs) (first, h) =
      (take-All (λ y. less y x ≡ false) n xs first, take-IsSorted n xs h)

-- s is t, or comes before it in the order of the bytes.
abbrev pub IsUpTo : Text → Text → Type 0
IsUpTo [] t = Unit
IsUpTo (c ∷ s) [] = ⊥
IsUpTo (c ∷ s) (d ∷ t) = (c < d) ⊎ ((c ≡ d) × IsUpTo s t)

not_less-IsUpTo : (s t : Text) → less_text t s ≡ false → IsUpTo s t
unfolding less_text
not_less-IsUpTo [] t h = tt
not_less-IsUpTo (c ∷ s) [] h = cc
not_less-IsUpTo (c ∷ s) (d ∷ t) h = elim (Bool-cases (d == c)) [
  | inl e ↦ inr (ground (arith, e), not_less-IsUpTo s t (rw e at h))
  | inr ne ↦ inl (ground (arith, ne, (rw ne at h)))
]

-- a has more events than b, or as many and a code that is not behind that of b.
abbrev pub Outranks : CountryCount → CountryCount → Type 0
Outranks a b = (b.count <ℤ a.count) ⊎ ((a.count ≡ b.count) × IsUpTo a.iso b.iso)

unequal_int : (a b : ℤ) → lt_int b a ≡ false → lt_int a b ≡ false → same_int b a ≡ false → ⊥
unequal_int a b p q ne = ground (arith, p, q, ne)

not_before-Outranks : (a b : CountryCount) → ranks_before b a ≡ false → Outranks a b
unfolding ranks_before
not_before-Outranks a b h = elim (Bool-cases (same_int b.count a.count)) [
  | inl e ↦ inr (sym ((same_int_iff _ _).0 e), not_less-IsUpTo a.iso b.iso (rw e at h))
  | inr ne ↦ elim (Bool-cases (lt_int b.count a.count)) [
    | inl more ↦ inl (ground arith)
    | inr less ↦ absurd (unequal_int a.count b.count less (rw ne at h) ne)
  ]
]

-- Each entry outranks those behind it.
abbrev pub IsRanked : List CountryCount → Type 0
IsRanked [] = Unit
IsRanked (x ∷ xs) = All (Outranks x) xs × IsRanked xs

IsSorted-IsRanked : (xs : List CountryCount) → IsSorted ranks_before xs → IsRanked xs
IsSorted-IsRanked [] h = tt
IsSorted-IsRanked (x ∷ xs) (first, h) = (
  All-weaken (λ y. ranks_before y x ≡ false) (Outranks x) xs (λ y k. not_before-Outranks x y k)
      first,
  IsSorted-IsRanked xs h,
)

none_not_some : {n : ℤ} → none ≡ some n → ⊥
none_not_some h = cc

Has-row :
    (t : Table Text ℤ) (e : CountryCount)
    → Once t
    → Has e (map row t)
    → lookup e.iso t ≡ some e.count
unfolding lookup
Has-row [] e once i = absurd i
Has-row ((iso, n) ∷ t) e (fresh, once) (inl same_) = rw (sym same_, same_refl iso) refl
Has-row ((iso, n) ∷ t) e (fresh, once) (inr i) = elim (Bool-cases (same iso e.iso)) [
  | inl hit ↦ absurd (
      none_not_some
        (sym fresh ∙ ap (λ c. lookup c t) ((same_iff iso e.iso).0 hit) ∙ Has-row t e once i))
  | inr miss ↦ rw miss (Has-row t e once i)
]

row-Has :
    (t : Table Text ℤ) (iso : Text) (n : ℤ) → lookup iso t ≡ some n → Has (row (iso, n)) (map row t)
unfolding lookup
row-Has [] iso n found = cc
row-Has ((j, m) ∷ t) iso n found = elim (Bool-cases (same j iso)) [
  | inl hit ↦ inl (rw ((same_iff j iso).0 hit, some_inj m n (rw hit at found)) refl)
  | inr miss ↦ inr (row-Has t iso n (rw miss at found))
]

entry_of : (o : Option ℤ) (n : ℕ) → or_zero o ≡ pos n → 0 < n → o ≡ some (pos n)
entry_of none n e h = absurd (ground arith)
entry_of (some m) n e h = ap some e

named_of :
    (t : Table Text ℤ) (iso : Text) (n : ℤ)
    → AreNamed t
    → lookup iso t ≡ some n
    → is_empty iso ≡ false
named_of t iso n named found = All-lookup (λ entry. is_empty entry.0 ≡ false) iso n t named found

total :
    (iso : Text) (events : List ClickEvent)
    → is_empty iso ≡ false
    → length events ≤ max_int64
    → or_zero (lookup iso (count_countries events [])) ≡ pos (clicks_from iso events)
unfolding lookup
total iso events full few =
    count_countries_lem iso events [] 0 full refl (omega arith) ∙ ap pos (omega arith)

no_elements : {A : Type 0} (xs : List A) → ((x : A) → Has x xs → ⊥) → xs ≡ []
no_elements [] h = refl
no_elements (x ∷ xs) h = absurd (h x (inl refl))

empty_table : (t : Table Text ℤ) → (length t == 0) ≡ true → t ≡ []
empty_table [] h = refl
empty_table (e ∷ t) h = absurd (ground arith)

no_events : count_countries [] [] ≡ []
unfolding count_countries
no_events = refl

module _
    (sort_slice : (CountryCount → CountryCount → Bool)
      → List CountryCount
      → List CountryCount) where
  -- The counts of a sample of events
  abbrev pub tallied : List ClickEvent → List CountryCount
  tallied events = map row (count_countries events [])

  abbrev pub counted : List ClickEvent → List CountryCount
  counted events = sort_slice ranks_before (tallied events)

  -- The sort sorts the counts of the sample.
  abbrev pub Sorts : List ClickEvent → Type 0
  Sorts events = IsSorting ranks_before (tallied events) (counted events)

  counted_right :
      (events : List ClickEvent) (e : CountryCount)
      → Sorts events
      → length events ≤ max_int64
      → Has e (counted events)
      → (is_empty e.iso ≡ false) × (e.count ≡ pos (clicks_from e.iso events))
  counted_right events e sorts few i =
      let (once, named) = count_countries-Once events [] tt tt in
      let t = count_countries events [] in
      let found = Has-row t e once ((sorts.same_elements e).0 i) in
      let full = named_of t e.iso e.count named found in
      (full, sym (ap or_zero found) ∙ total e.iso events full few)

  counted_all :
      (events : List ClickEvent) (iso : Text)
      → Sorts events
      → length events ≤ max_int64
      → is_empty iso ≡ false
      → 0 < clicks_from iso events
      → Has (row (iso, pos (clicks_from iso events))) (counted events)
  counted_all events iso sorts few full some_ =
      let t = count_countries events [] in
      (sorts.same_elements _).1 (
        row-Has t iso _
          (entry_of (lookup iso t) (clicks_from iso events) (total iso events full few) some_))

  counted_nil :
      (events : List ClickEvent)
      → Sorts events
      → count_countries events [] ≡ []
      → counted events ≡ []
  counted_nil events sorts none_ =
      no_elements _ λ x i. subst (λ t. Has x (map row t)) none_ ((sorts.same_elements x).0 i)

  -- The answered list, by its cases
  shown :
      (S : Store) (code : Text) (events : List ClickEvent) (s : S.State)
      → Sorts events
      → S.recent_clicks code analytics_top_countries_sample s ≡ ok events
      → top_countries sort_slice S code s ≡ take analytics_top_countries_limit (counted events)
  unfolding top_countries
  shown S code [] s sorts sampled =
      rw (sampled, top_countries) (sym (ap (take 10) (counted_nil [] sorts no_events)))
  shown S code (ev ∷ events) s sorts sampled =
      let counts = count_countries (ev ∷ events) [] in
      elim (Bool-cases (length counts == 0)) [
        | inl nothing ↦
            rw (sampled, nothing, top_countries)
              (sym (ap (take 10) (counted_nil (ev ∷ events) sorts (empty_table counts nothing))))
        | inr some_ ↦
            elim (Bool-cases (ltb analytics_top_countries_limit (length (counted (ev ∷ events))))) [
              | inl long ↦ rw (sampled, some_, long, top_countries) refl
              | inr short ↦
                  rw (sampled, some_, short, top_countries)
                    (sym (take_long 10 (counted (ev ∷ events)) (ground arith)))
            ]
      ]

  -- The top countries of an answer, for a sample of events that is no longer than an int64 and whose
  -- counts the sort sorts by the comparison it is given: at most ten entries, each a country that is
  -- not empty with the number of its events in the sample, with higher numbers first and equal numbers
  -- by the code's bytes; and every country with events in the sample has its entry, or all entries
  -- have more events, or as many and a code that is not behind.
  pub top_countries_lem :
      (S : Store) (code : Text) (events : List ClickEvent) (s : S.State)
      → S.recent_clicks code analytics_top_countries_sample s ≡ ok events
      → Sorts events
      → length events ≤ max_int64
      → let top = top_countries sort_slice S code s in
        (length top ≤ 10)
        × IsRanked top
        × ((e : CountryCount)
            → Has e top
            → (is_empty e.iso ≡ false) × (e.count ≡ pos (clicks_from e.iso events)))
        × ((iso : Text)
            → is_empty iso ≡ false
            → 0 < clicks_from iso events
            → let e = row (iso, pos (clicks_from iso events)) in
              Has e top ⊎ ((f : CountryCount) → Has f top → Outranks f e))
  top_countries_lem S code events s sampled sorts few = rw (shown S code events s sorts sampled) (
    omega (arith, length-take 10 (counted events)),
    IsSorted-IsRanked _ (take-IsSorted ranks_before 10 (counted events) sorts.sorted),
    λ e i. counted_right events e sorts few (take-Has 10 (counted events) e i),
    λ iso full some_.
        elim (cut ranks_before 10 (counted events) _ sorts.sorted
          (counted_all events iso sorts few full some_)) [
            | inl in_ ↦ inl in_
            | inr out ↦ inr (λ f i. not_before-Outranks f _ (out f i))
          ],
  )
