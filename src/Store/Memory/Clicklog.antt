-- ===== src/Store/Memory/Clicklog.antt =====
-- The click counter and the bounded click log of MemoryStore.
use mathlib.Core.List.{reverse-append}
use tiny_url.Prelude.{
  ℕ, zero, suc, ◌+◌, ◌≤◌, ◌<◌, min, List, Text, some, true, [], ◌∷◌, ◌++◌, ◌≡◌, refl, sym, ap, ◌∙◌,
  arith, if◌then◌else◌, same, same_iff, text_eq, length, length-append, length-drop, length-reverse,
  take, take_long, drop, reverse, get_elem?, leb, ltb, ltb→lt, leb→le, same_refl, some_of_is_some,
  Bool-cases, inl, inr,
}
use tiny_url.Prelude.Int.{ℤ}
use tiny_url.Prelude.Table.{lookup, lookup-assign}
use tiny_url.Models.{UrlMapping, ClickEvent}
use tiny_url.Store.{ok}
use tiny_url.Store.Memory.State.{
  MemoryStore, memory_click_cap_per_code, push_capped, walk_back, default_limit,
}
use tiny_url.Store.Memory.Clicks.{events_of, counted, record_click, recent_clicks}
use tiny_url.Store.Memory.Urls.{exists}

module _ {ℓ} {A : Type ℓ} where
  pub length-push_capped :
      (cap : ℕ) (list : List A) (x : A)
      → 0 < cap
      → length list ≤ cap
      → length (push_capped cap list x) ≡ min cap (length list + 1)
  unfolding push_capped
  length-push_capped cap list x p h =
      ground (
        arith,
        length-append list (x ∷ []),
        length-append (drop 1 list) (x ∷ []),
        length-drop 1 list,
      )

  reverse-concat : (xs : List A) (x : A) → reverse (xs ++ x ∷ []) ≡ x ∷ reverse xs
  reverse-concat xs x = reverse-append xs (x ∷ [])

  -- The element read at an index, seen from the reversed prefix.
  reverse-take-suc :
      (e : ℕ) (list : List A)
      → suc e ≤ length list
      → (x : A) × (get_elem? list e ≡ some x)
        × (reverse (take (suc e) list) ≡ x ∷ reverse (take e list))
  reverse-take-suc e [] h = absurd (omega arith)
  reverse-take-suc zero (y ∷ ys) h = (y, refl, refl)
  reverse-take-suc (suc e) (y ∷ ys) h =
      let (x, at, eq) = reverse-take-suc e ys (omega arith) in
      (
        x,
        at,
        reverse-append (y ∷ []) (take (suc e) ys)
            ∙ ap (λ l. l ++ y ∷ []) eq
            ∙ ap (λ l. x ∷ l) (sym (reverse-append (y ∷ []) (take e ys))),
      )

  walk_back_step :
      (list : List A) (e k : ℕ) {x : A}
      → get_elem? list e ≡ some x
      → walk_back list (suc e) (suc k) ≡ x ∷ walk_back list e k
  unfolding walk_back
  walk_back_step list e k h = ground arith

  -- The index loop is the front of the reversed list.
  pub walk_back_lem :
      (list : List A) (e k : ℕ)
      → e ≤ length list
      → walk_back list e k ≡ take k (reverse (take e list))
  walk_back_lem list e zero h = unfold walk_back in refl
  walk_back_lem list zero (suc k) h = unfold walk_back in refl
  walk_back_lem list (suc e) (suc k) h =
      let (x, at, eq) = reverse-take-suc e list h in
      rw (walk_back_step list e k at, eq) (ap (λ l. x ∷ l) (walk_back_lem list e k (omega arith)))

clipped {ℓ} :
    {A : Type ℓ} (n : ℕ) (xs : List A)
    → take (if ltb (length xs) n then length xs else n) (reverse xs) ≡ take n (reverse xs)
clipped n xs = elim (Bool-cases (ltb (length xs) n)) [
  | inl short ↦ rw short (
      take_long (length xs) (reverse xs) (omega (arith, length-reverse xs))
      ∙ sym (take_long n (reverse xs) (omega (arith, length-reverse xs, ltb→lt _ _ short))))
  | inr long ↦ rw long
]

recent_walk :
    (code : Text) (limit : ℤ) (s : MemoryStore)
    → exists code s ≡ true
    → let list = events_of code s in
      let n = default_limit limit in
      recent_clicks code limit s
      ≡ ok (walk_back list (length list) (if ltb (length list) n then length list else n))
unfolding recent_clicks exists
recent_walk code limit s h = ground arith

-- For a known code RecentClicks returns the newest events first: the front, as long as the limit
-- asks for (50 if it is not positive), of the reversed event log of that code.
pub recent_clicks_newest_first :
    (code : Text) (limit : ℤ) (s : MemoryStore)
    → exists code s ≡ true
    → recent_clicks code limit s ≡ ok (take (default_limit limit) (reverse (events_of code s)))
recent_clicks_newest_first code limit s h =
    let list = events_of code s in
    let n = default_limit limit in
    let k = if ltb (length list) n then length list else n in
    recent_walk code limit s h
    ∙ ap ok (
        walk_back_lem list (length list) k (omega arith)
        ∙ ap (λ l. take k (reverse l)) (take_long (length list) list (omega arith))
        ∙ clipped (default_limit limit) list)

events_of-record_click :
    (code j : Text) (ev : ClickEvent) (s : MemoryStore)
    → (record_click code ev s).0 ≡ ok tt
    → events_of j (record_click code ev s).1 ≡ (
        if same code j
        then push_capped memory_click_cap_per_code (events_of code s) ev
        else events_of j s)
unfolding record_click
events_of-record_click code j ev s h = ground (
  arith,
  same_iff code j,
  lookup-assign code j (push_capped memory_click_cap_per_code (events_of code s) ev) s.events,
)

take-append_exact {ℓ} :
    {A : Type ℓ} (n : ℕ) (xs ys : List A) → length xs ≡ n → take n (xs ++ ys) ≡ xs
take-append_exact zero [] ys h = refl
take-append_exact zero (x ∷ xs) ys h = absurd (omega arith)
take-append_exact (suc n) [] ys h = absurd (omega arith)
take-append_exact (suc n) (x ∷ xs) ys h = ap (λ l. x ∷ l) (take-append_exact n xs ys (omega arith))

take-reverse-drop {ℓ} :
    {A : Type ℓ} (n : ℕ) (list : List A)
    → length list ≡ suc n
    → take n (reverse list) ≡ reverse (drop 1 list)
take-reverse-drop n [] h = absurd (omega arith)
take-reverse-drop n (y ∷ ys) h =
    ap (take n) (reverse-append (y ∷ []) ys)
    ∙ take-append_exact n (reverse ys) (y ∷ []) (omega (arith, length-reverse ys))

-- A bounded append, seen from the newest end.
pub reverse-push_capped {ℓ} :
    {A : Type ℓ} (n : ℕ) (list : List A) (x : A)
    → length list ≤ suc n
    → reverse (push_capped (suc n) list x) ≡ x ∷ take n (reverse list)
unfolding push_capped
reverse-push_capped n list x h = elim (Bool-cases (leb (suc n) (length list))) [
  | inl full ↦ rw full (
      reverse-concat (drop 1 list) x
      ∙ ap (λ l. x ∷ l) (sym (take-reverse-drop n list (omega (arith, leb→le _ _ full)))))
  | inr room ↦ rw room (
      reverse-concat list x
      ∙ ap (λ l. x ∷ l) (sym (take_long n (reverse list) (ground (arith, length-reverse list)))))
]

-- A successful RecordClick found a mapping.
pub record_click_found :
    (code : Text) (ev : ClickEvent) (s : MemoryStore)
    → (record_click code ev s).0 ≡ ok tt
    → (m : UrlMapping) × (lookup code s.urls ≡ some m)
record_click_found code ev s h =
    some_of_is_some (lookup code s.urls) (unfold record_click in ground arith)

pub lookup-record_click :
    (code j : Text) (ev : ClickEvent) (m : UrlMapping) (s : MemoryStore)
    → lookup code s.urls ≡ some m
    → lookup j (record_click code ev s).1.urls
      ≡ (if same code j then some (counted ev m) else lookup j s.urls)
unfolding record_click
lookup-record_click code j ev m s h = ground (arith, lookup-assign code j (counted ev m) s.urls)

exists-record_click :
    (code : Text) (ev : ClickEvent) (s : MemoryStore)
    → (record_click code ev s).0 ≡ ok tt
    → exists code (record_click code ev s).1 ≡ true
unfolding exists
exists-record_click code ev s h =
    let (m, found) = record_click_found code ev s h in
    ground (arith, lookup-record_click code code ev m s found, same_refl code)

-- After a successful RecordClick of a code whose log is within its cap of 1000, RecentClicks of that
-- code returns the new event and then the 999 newest of the events before it, cut to the limit.
pub recent_clicks-record_click :
    (code : Text) (ev : ClickEvent) (limit : ℤ) (s : MemoryStore)
    → length (events_of code s) ≤ memory_click_cap_per_code
    → (record_click code ev s).0 ≡ ok tt
    → recent_clicks code limit (record_click code ev s).1
      ≡ ok (take (default_limit limit) (ev ∷ take 999 (reverse (events_of code s))))
recent_clicks-record_click code ev limit s capped h =
    recent_clicks_newest_first code limit (record_click code ev s).1
      (exists-record_click code ev s h)
    ∙ ap (λ l. ok (take (default_limit limit) (reverse l)))
        (rw (same_refl code) at (events_of-record_click code code ev s h))
    ∙ ap (λ l. ok (take (default_limit limit) l))
        (reverse-push_capped 999 (events_of code s) ev capped)
