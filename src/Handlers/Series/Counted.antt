-- ===== src/Handlers/Series/Counted.antt =====
-- handlers/series.go: what the series of an answer counts, over MemoryStore.
use native.Mathlib.Nat.{add-mul, mul-le-mul_right}
use tiny_url.Prelude.{
  ℕ, ◌+◌, ◌-◌, ◌*◌, ◌/◌, ◌<◌, ◌≤◌, List, Text, false, some, ◌≡◌, refl, sym, ap, ◌∙◌, inl, inr,
  arith, All, is_empty, length, select, get_elem?, Bool-cases, Option-cases, text_eq,
}
use tiny_url.Prelude.Int.{
  ℤ, pos, negsuc, pos_part, lt_int, le_int, ◌+ℤ◌, ◌-ℤ◌, ◌≤ℤ◌, ◌<ℤ◌, int_laws, eq_of_parts,
}
use tiny_url.Prelude.Words.{max_int64}
use tiny_url.Prelude.Table.{lookup, All-lookup}
use tiny_url.Models.{Time, UrlMapping, ClickEvent}
use tiny_url.Store.{Result, ok, err, not_found, expired, code_conflict, backend, panicked}
use tiny_url.Store.Memory.State.{MemoryStore}
use tiny_url.Store.Memory.Clicks.{events_of}
use tiny_url.Store.Memory.Series.{clicks_by_bucket}
use tiny_url.Store.Memory.Buckets.{clicks_by_bucket_counts}
use tiny_url.Store.Memory.Windows.{in_bucket, div_bounds}
use tiny_url.Handlers.{Response}
use tiny_url.Handlers.Query.{atoi}
use tiny_url.Handlers.Gates.{pass, refuse, simple, answered}
use tiny_url.Handlers.Series.{
  RangeCap, second, range_caps, SeriesResponse, range_of, unix_epoch, series_end, series_outcome,
}

end_bounds :
    (n m w : ℕ)
    → pos_part unix_epoch ≤ n
    → m ≤ n - pos_part unix_epoch
    → n - pos_part unix_epoch < m + w
    → let end = unix_epoch +ℤ pos m +ℤ pos w in (pos n <ℤ end) × (end ≤ℤ pos n +ℤ pos w)
end_bounds n m w late low high = (omega int_laws, omega int_laws)

-- The newest bucket holds the time of the request, and its end is a whole number of buckets after 1970.
pub series_end_lem :
    (w : ℕ) (now : Time)
    → 0 < w
    → unix_epoch ≤ℤ now
    → (now <ℤ series_end w now) × (series_end w now ≤ℤ now +ℤ pos w)
unfolding series_end
series_end_lem w (negsuc n) h late = absurd (omega arith)
series_end_lem w (pos n) h late =
    let k = n - 62135596800 * second in
    let since : pos n -ℤ unix_epoch ≡ pos k = eq_of_parts _ _ (omega int_laws) in
    let (low, high) = (div_bounds k w (k / w) h).1 refl in
    rw since (end_bounds n (k / w * w) w (omega arith) low (omega (arith, add-mul (k / w) 1 w)))

abbrev pub IsCap : Text × RangeCap → Type 0
IsCap (name, cap) =
    (0 < cap.bucket)
    × (cap.bucket / second * second ≡ cap.bucket)
    × ((n : ℕ) × (cap.def_n ≡ pos n) × (0 < n) × (n * cap.bucket ≤ max_int64))
    × ((n : ℕ) × (cap.max_n ≡ pos n) × (0 < n) × (n * cap.bucket ≤ max_int64))

are_caps : All IsCap range_caps
are_caps = (
  (omega arith, refl, (60, refl, omega arith, omega arith), (240, refl, omega arith, omega arith)),
  (
    (
      omega arith,
      refl,
      (24, refl, omega arith, omega arith),
      (168, refl, omega arith, omega arith),
    ),
    (
      (
        omega arith,
        refl,
        (30, refl, omega arith, omega arith),
        (365, refl, omega arith, omega arith),
      ),
      tt,
    ),
  ),
)

pub range_caps_lem :
    (name : Text) (cap : RangeCap) → lookup name range_caps ≡ some cap → IsCap (name, cap)
range_caps_lem name cap found = All-lookup IsCap name cap range_caps are_caps found

pass_inj : {A : Type 0} {a b : A} → pass a ≡ pass b → a ≡ b
pass_inj h = cc

refuse_not_pass : {A : Type 0} {r : Response} {a : A} → refuse r ≡ pass a → ⊥
refuse_not_pass h = cc

within_cap :
    (v : ℤ) (m : ℕ)
    → le_int v (pos 0) ≡ false
    → lt_int (pos m) v ≡ false
    → (v ≡ pos (pos_part v)) × (0 < pos_part v) × (pos_part v ≤ m)
within_cap (pos n) m low high = (refl, ground arith, ground arith)
within_cap (negsuc n) m low high = absurd (ground arith)

mul_bound : (a b c : ℕ) → a ≤ b → a * c ≤ b * c
mul_bound a b c h = mul-le-mul_right c h

-- The number of buckets that a query gets: positive, and of a window that is an int64.
pub range_of_lem :
    (name : Text) (cap : RangeCap) (raw : Text) (n : ℤ)
    → IsCap (name, cap)
    → range_of cap raw ≡ pass n
    → (k : ℕ) × (n ≡ pos k) × (0 < k) × (k * cap.bucket ≤ max_int64)
unfolding range_of
range_of_lem name cap raw n (_, _, (d, def, d1, d2), (m, max, m1, m2)) k =
    elim (Bool-cases (is_empty raw)) [
      | inl blank ↦ (d, sym (pass_inj (rw (blank, range_of) at k)) ∙ def, d1, d2)
      | inr given ↦ elim (Option-cases (atoi raw)) [
        | inl bad ↦ absurd (refuse_not_pass (rw (given, bad, range_of) at k))
        | inr (v, read) ↦ elim (Bool-cases (le_int v (pos 0))) [
          | inl low ↦ absurd (refuse_not_pass (rw (given, read, low, range_of) at k))
          | inr fine ↦ elim (Bool-cases (lt_int cap.max_n v)) [
            | inl over ↦
                (m, sym (pass_inj (rw (given, read, fine, over, range_of) at k)) ∙ max, m1, m2)
            | inr within ↦
                let e = sym (pass_inj (rw (given, read, fine, within, range_of) at k)) in
                let (at, positive, below) = within_cap v m fine (rw max at within) in
                (
                  pos_part v,
                  e ∙ at,
                  positive,
                  omega (arith, mul_bound (pos_part v) m cap.bucket below),
                )
          ]
        ]
      ]
    ]

simple_not_answered : {A : Type 0} {r : Response} {n : ℕ} {a : A} → simple r ≡ answered n a → ⊥
simple_not_answered h = cc

answered_inj : {A : Type 0} {n : ℕ} {a b : A} → answered n a ≡ answered n b → a ≡ b
answered_inj h = cc

pub outcome_given :
    (code name : Text) (cap : RangeCap) (end : Time) (counted : Result (List ℤ))
    (resp : SeriesResponse)
    → series_outcome code name cap end counted ≡ answered 200 resp
    → (counted ≡ ok resp.counts) × (resp.end ≡ end) × (resp.bucket_secs ≡ cap.bucket / second)
unfolding series_outcome
outcome_given code name cap end (ok counts) resp k =
    let e = sym (answered_inj k) in
    (ap ok (sym (ap (λ a. a.counts) e)), ap (λ a. a.end) e, ap (λ a. a.bucket_secs) e)
outcome_given code name cap end (err not_found) resp k = absurd (simple_not_answered k)
outcome_given code name cap end (err expired) resp k = absurd (simple_not_answered k)
outcome_given code name cap end (err code_conflict) resp k = absurd (simple_not_answered k)
outcome_given code name cap end (err backend) resp k = absurd (simple_not_answered k)
outcome_given code name cap end (err panicked) resp k = absurd (simple_not_answered k)

ok_inj : {A : Type 0} {a b : A} → ok a ≡ ok b → a ≡ b
ok_inj h = cc

-- A series of buckets of width b that ends at `until`: entry i is the number of events in bucket i.
abbrev pub IsSeries : List ClickEvent → ℕ → Time → List ℤ → Type 0
IsSeries events b until counts =
    let n = length counts in
    (0 < n)
    × ((start : Time) × (until ≡ start +ℤ pos (n * b))
        × ((i : ℕ)
            → i < n
            → get_elem? counts i ≡ some (pos (length (select (in_bucket start b i) events)))))

pub counts-IsSeries :
    (code : Text) (until : Time) (b n : ℕ) (counts : List ℤ) (m : UrlMapping) (s : MemoryStore)
    → lookup code s.urls ≡ some m
    → 0 < n
    → 0 < b
    → n * b ≤ max_int64
    → length (events_of code s) ≤ max_int64
    → clicks_by_bucket code until (pos b) (pos n) s ≡ ok counts
    → IsSeries (events_of code s) b until counts
counts-IsSeries code until b n counts m s stored some_ wide room few made =
    let start = until -ℤ pos (n * b) in
    let meets : until ≡ start +ℤ pos (n * b) = eq_of_parts _ _ (omega int_laws) in
    let entry = λ (i : ℕ) (h : i < n).
      clicks_by_bucket_counts code start until b n i m s stored some_ wide room meets few h in
    let (first, e, long, _) = entry 0 some_ in
    let size : length counts ≡ n = ap length (ok_inj (sym made ∙ e)) ∙ long in
    rw size (
      some_,
      (
        start,
        meets,
        λ i h.
            let (series, e, _, at) = entry i h in
            ap (λ c. get_elem? c i) (ok_inj (sym made ∙ e)) ∙ at,
      ),
    )
