-- ===== src/Store/Memory/Buckets.antt =====
-- The click series of MemoryStore: what ClicksByBucket counts.
use native.Mathlib.Nat.{zero-add}
use tiny_url.Prelude.{
  ℕ, zero, suc, ◌+◌, ◌*◌, ◌≤◌, ◌<◌, List, Text, false, some, [], ◌∷◌, ◌≡◌, refl, ap, ◌∙◌, arith,
  ◌||◌, not, if◌then◌else◌, length, select, get_elem?, Bool-cases, ◌==◌, inl, inr,
}
use tiny_url.Prelude.Int.{ℤ, pos, negsuc, lt_int, le_int, ◌+ℤ◌}
use tiny_url.Prelude.Words.{max_int64, add64-pos}
use tiny_url.Prelude.{text_eq}
use tiny_url.Prelude.Table.{lookup}
use tiny_url.Store.{ok}
use tiny_url.Store.Memory.State.{MemoryStore}
use tiny_url.Store.Memory.Clicks.{events_of}
use tiny_url.Models.{UrlMapping, Time, ClickEvent}
use tiny_url.Store.Memory.Series.{zeros, bump_at, tally_event, tally, clicks_by_bucket}
use tiny_url.Store.Memory.Windows.{in_bucket, within, hit_bucket, outside, window_start_unique}

some_pos : {a b : ℕ} → some (pos a) ≡ some (pos b) → a ≡ b
some_pos h = cc

some_negsuc : {a b : ℕ} → some (negsuc a) ≡ some (pos b) → ⊥
some_negsuc h = cc

get_elem?-zeros : (n i : ℕ) → i < n → get_elem? (zeros n) i ≡ some (pos 0)
unfolding zeros
get_elem?-zeros zero i h = absurd (omega arith)
get_elem?-zeros (suc n) zero h = refl
get_elem?-zeros (suc n) (suc i) h = get_elem?-zeros n i (omega arith)

length-bump_at : (i : ℕ) (out : List ℤ) → length (bump_at i out) ≡ length out
unfolding bump_at
length-bump_at i [] = refl
length-bump_at zero (n ∷ out) = refl
length-bump_at (suc i) (n ∷ out) = ap suc (length-bump_at i out)

get_elem?-bump_at_hit :
    (i c : ℕ) (out : List ℤ)
    → get_elem? out i ≡ some (pos c)
    → suc c ≤ max_int64
    → get_elem? (bump_at i out) i ≡ some (pos (suc c))
unfolding bump_at
get_elem?-bump_at_hit i c [] h room = cc
get_elem?-bump_at_hit zero c (pos n ∷ out) h room =
    ap some (add64-pos n 1 (omega (arith, some_pos h)) ∙ ap pos (omega (arith, some_pos h)))
get_elem?-bump_at_hit zero c (negsuc n ∷ out) h room = absurd (some_negsuc h)
get_elem?-bump_at_hit (suc i) c (n ∷ out) h room = get_elem?-bump_at_hit i c out h room

get_elem?-bump_at_miss :
    (i j : ℕ) (out : List ℤ) → (i ≡ j → ⊥) → get_elem? (bump_at j out) i ≡ get_elem? out i
unfolding bump_at
get_elem?-bump_at_miss i j [] h = refl
get_elem?-bump_at_miss zero zero (n ∷ out) h = absurd (h refl)
get_elem?-bump_at_miss (suc i) zero (n ∷ out) h = refl
get_elem?-bump_at_miss zero (suc j) (n ∷ out) h = refl
get_elem?-bump_at_miss (suc i) (suc j) (n ∷ out) h =
    get_elem?-bump_at_miss i j out (λ e. h (ap suc e))

bumped :
    (i j c : ℕ) (out : List ℤ)
    → get_elem? out i ≡ some (pos c)
    → suc c ≤ max_int64
    → get_elem? (bump_at j out) i ≡ some (pos (if j == i then suc c else c))
bumped i j c out h fits = elim (Bool-cases (j == i)) [
  | inl at ↦ rw (at, let e : j ≡ i = ground arith in e) (get_elem?-bump_at_hit i c out h fits)
  | inr off ↦ rw off (get_elem?-bump_at_miss i j out (ground arith) ∙ h)
]

-- One event, seen from bucket i.
get_elem?-tally_event :
    (start : Time) (b n i c : ℕ) (ev : ClickEvent) (out : List ℤ)
    → 0 < b
    → n * b ≤ max_int64
    → i < n
    → get_elem? out i ≡ some (pos c)
    → suc c ≤ max_int64
    → get_elem? (tally_event start (start +ℤ pos (n * b)) (pos b) ev out) i
      ≡ some (pos (if in_bucket start b i ev then suc c else c))
unfolding tally_event
get_elem?-tally_event start b n i c ev out p room inside h fits =
    elim (Bool-cases (lt_int ev.at start || not (lt_int ev.at (start +ℤ pos (n * b))))) [
      | inl past ↦ rw (past, outside start b n i ev inside past) h
      | inr near ↦
          let (_, e) = within start b n ev.at room (ground arith) (ground arith) in
          rw (near, hit_bucket start b i _ ev p e) (bumped i _ c out h fits)
    ]

nonpos : (n : ℕ) → 0 < n → le_int (pos n) (pos 0) ≡ false
nonpos n h = ground arith

tally_lem :
    (start : Time) (b n i c : ℕ) (evs : List ClickEvent) (out : List ℤ)
    → 0 < b
    → n * b ≤ max_int64
    → i < n
    → get_elem? out i ≡ some (pos c)
    → c + length evs ≤ max_int64
    → get_elem? (tally start (start +ℤ pos (n * b)) (pos b) evs out) i
      ≡ some (pos (c + length (select (in_bucket start b i) evs)))
unfolding tally
tally_lem start b n i c [] out p room inside h fits =
    h ∙ ap (λ k. some (pos k)) (let e : c ≡ c + 0 = omega arith in e)
tally_lem start b n i c (ev ∷ evs) out p room inside h fits =
    let step = get_elem?-tally_event start b n i c ev out p room inside h (omega arith) in
    elim (Bool-cases (in_bucket start b i ev)) [
      | inl here ↦ rw here (
          tally_lem start b n i (suc c) evs _ p room inside
            (step ∙ ap (λ t. some (pos (if t then suc c else c))) here) (omega arith)
          ∙ ap (λ k. some (pos k)) (omega arith))
      | inr away ↦ rw away (
          tally_lem start b n i c evs _ p room inside
            (step ∙ ap (λ t. some (pos (if t then suc c else c))) away) (omega arith))
    ]

length-tally :
    (start until : Time) (bucket : ℤ) (evs : List ClickEvent) (out : List ℤ)
    → length (tally start until bucket evs out) ≡ length out
unfolding tally tally_event
length-tally start until bucket [] out = refl
length-tally start until bucket (ev ∷ evs) out =
    elim (Bool-cases (lt_int ev.at start || not (lt_int ev.at until))) [
      | inl past ↦ rw past (length-tally start until bucket evs out)
      | inr near ↦ rw near (length-tally start until bucket evs _ ∙ length-bump_at _ out)
    ]

length-zeros : (n : ℕ) → length (zeros n) ≡ n
unfolding zeros
length-zeros zero = refl
length-zeros (suc n) = ap suc (length-zeros n)

-- ClicksByBucket of a stored code, for a positive bucket width b and a positive count n whose window
-- n * b is an int64, answers a series of n entries, and entry i is the number of logged events whose
-- time is at or after the start of bucket i and before its end, where the n buckets of width b follow
-- one another from `start` to `until`.
pub clicks_by_bucket_counts :
    (code : Text) (start until : Time) (b n i : ℕ) (m : UrlMapping) (s : MemoryStore)
    → lookup code s.urls ≡ some m
    → 0 < n
    → 0 < b
    → n * b ≤ max_int64
    → until ≡ start +ℤ pos (n * b)
    → length (events_of code s) ≤ max_int64
    → i < n
    → (series : List ℤ) × (clicks_by_bucket code until (pos b) (pos n) s ≡ ok series)
      × (length series ≡ n)
      × (get_elem? series i ≡ some (pos (length (select (in_bucket start b i) (events_of code s)))))
unfolding clicks_by_bucket
clicks_by_bucket_counts code start until b n i m s stored p q room e few inside =
    let evs = events_of code s in
    let w = window_start_unique start until b n p q room e in
    (
      tally start until (pos b) evs (zeros n),
      rw (nonpos n p, nonpos b q, stored, w) refl,
      length-tally start until (pos b) evs (zeros n) ∙ length-zeros n,
      ap (λ u. get_elem? (tally start u (pos b) evs (zeros n)) i) e
          ∙ tally_lem start b n i 0 evs (zeros n) q room inside (get_elem?-zeros n i inside)
              (omega arith)
          ∙ ap (λ k. some (pos k)) (zero-add _),
    )
