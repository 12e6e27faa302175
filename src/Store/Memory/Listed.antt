-- ===== src/Store/Memory/Listed.antt =====
-- services/storage.go: the pages of ListURLsByAPIKey, each cut by a call with an ordering of its own.
use mathlib.Core.List.{Permᴰ}
use mathlib.Core.List.Permᴰ
use mathlib.Core.Path.{subst}
use tiny_url.Prelude.{
  ℕ, ◌+◌, ◌≤◌, ◌<◌, List, Text, false, [], ◌∷◌, ◌≡◌, ◌≢◌, refl, sym, ap, ◌∙◌, arith, All,
  All-weaken, Has, All-Has, take, drop, Bool-cases, inl, inr,
}
use tiny_url.Prelude.Int.{ℤ, pos, lt_int, same_int, ◌<ℤ◌, eq_of_parts}
use tiny_url.Prelude.Words.{max_int64}
use tiny_url.Prelude.Table.{Table}
use tiny_url.Models.{UrlMapping}
use tiny_url.Store.{ok}
use tiny_url.Store.Memory.State.{MemoryStore, default_limit}
use tiny_url.Store.Memory.Listing.{
  Ordering, newer, owned_by, page, sort_by_created_at_desc, list_urls_by_api_key,
}
use tiny_url.Store.Memory.Paging.{page_lem}

-- No mapping stands before a newer one.
abbrev pub IsNewestFirst : List UrlMapping → Type 0
IsNewestFirst [] = Unit
IsNewestFirst (x ∷ xs) = All (λ y. newer y x ≡ false) xs × IsNewestFirst xs

-- Each mapping is newer than those behind it.
abbrev pub IsDescending : List UrlMapping → Type 0
IsDescending [] = Unit
IsDescending (x ∷ xs) = All (λ y. y.created_at <ℤ x.created_at) xs × IsDescending xs

-- No two mappings were created at the same time.
abbrev pub HaveOwnTimes : List UrlMapping → Type 0
HaveOwnTimes [] = Unit
HaveOwnTimes (x ∷ xs) = All (λ y. x.created_at ≢ y.created_at) xs × HaveOwnTimes xs

-- What Go promises of a call: `range` visits each entry once, and sort.Slice sorts what it is given.
pub record IsOrdering (o : Ordering) (id : ℤ) (t : Table Text UrlMapping) : Type 0 where
  pub visits : Permᴰ (o.range_map t) t
  pub permutes :
      let matched = owned_by id (o.range_map t) in Permᴰ (o.sort_slice newer matched) matched
  pub sorts : IsNewestFirst (o.sort_slice newer (owned_by id (o.range_map t)))

All-perm : {A : Type 0} (P : A → Type 0) {xs ys : List A} → Permᴰ xs ys → All P xs → All P ys
All-perm P Permᴰ.nil h = tt
All-perm P (Permᴰ.cons e p) (q, h) = (subst P e q, All-perm P p h)
All-perm P (Permᴰ.swap e f) (p, (q, h)) = (subst P f q, (subst P e p, h))
All-perm P (Permᴰ.trans p q) h = All-perm P q (All-perm P p h)

All-self : {A : Type 0} (xs : List A) → All (λ x. Has x xs) xs
All-self [] = tt
All-self (x ∷ xs) = (inl refl, All-weaken _ _ xs (λ y i. inr i) (All-self xs))

Has-perm : {A : Type 0} {xs ys : List A} (x : A) → Permᴰ ys xs → Has x xs → Has x ys
Has-perm {xs = xs} {ys = ys} x p i =
    All-Has (λ z. Has z ys) x xs (All-perm (λ z. Has z ys) p (All-self ys)) i

abbrev IsApart : UrlMapping → List UrlMapping → Type 0
IsApart x xs = All (λ y. x.created_at ≢ y.created_at) xs

IsApart-perm :
    {xs ys : List UrlMapping} (x y : UrlMapping) → x ≡ y → Permᴰ xs ys → IsApart x xs → IsApart y ys
IsApart-perm {ys = ys} x y e p h =
    subst (λ z. IsApart z ys) e (All-perm (λ z. x.created_at ≢ z.created_at) p h)

HaveOwnTimes-perm : {xs ys : List UrlMapping} → Permᴰ xs ys → HaveOwnTimes xs → HaveOwnTimes ys
HaveOwnTimes-perm Permᴰ.nil h = tt
HaveOwnTimes-perm (Permᴰ.cons {a = a} {b = b} e p) (first, h) =
    (IsApart-perm a b e p first, HaveOwnTimes-perm p h)
HaveOwnTimes-perm (Permᴰ.swap {a = a} {b = b} {a' = c} {l = l} e f) ((ne, first), (second, h)) =
    let turned : HaveOwnTimes (b ∷ a ∷ l) = (((λ k. ne (sym k)), second), (first, h)) in
    subst (λ z. HaveOwnTimes (c ∷ z ∷ l)) e (subst (λ z. HaveOwnTimes (z ∷ a ∷ l)) f turned)
HaveOwnTimes-perm (Permᴰ.trans p q) h = HaveOwnTimes-perm q (HaveOwnTimes-perm p h)

owned_by-perm :
    (id : ℤ) {t u : Table Text UrlMapping} → Permᴰ t u → Permᴰ (owned_by id t) (owned_by id u)
unfolding owned_by
owned_by-perm id Permᴰ.nil = Permᴰ.nil
owned_by-perm id (Permᴰ.cons {a = a} e p) =
    rw (← e) (elim (Bool-cases (same_int a.1.api_key_id id)) [
      | inl own ↦ rw own (Permᴰ.cons refl (owned_by-perm id p))
      | inr other ↦ rw other (owned_by-perm id p)
    ])
owned_by-perm id (Permᴰ.swap {a = a} {b = b} e f) =
    rw (← e, ← f)
      (elim (Bool-cases (same_int a.1.api_key_id id)) [
        | inl own ↦ elim (Bool-cases (same_int b.1.api_key_id id)) [
          | inl own' ↦ rw (own, own') (Permᴰ.swap refl refl)
          | inr other' ↦ rw (own, other') (Permᴰ.refl _)
        ]
        | inr other ↦ rw other (Permᴰ.refl _)
      ])
owned_by-perm id (Permᴰ.trans p q) = Permᴰ.trans (owned_by-perm id p) (owned_by-perm id q)

older_one :
    (x y : UrlMapping)
    → newer y x ≡ false
    → x.created_at ≢ y.created_at
    → y.created_at <ℤ x.created_at
older_one x y h ne = elim (Bool-cases (lt_int y.created_at x.created_at)) [
  | inl less ↦ ground arith
  | inr no_ ↦ absurd (ne (eq_of_parts x.created_at y.created_at (ground (arith, h, no_))))
]

older :
    (x : UrlMapping) (xs : List UrlMapping)
    → All (λ y. newer y x ≡ false) xs
    → All (λ y. x.created_at ≢ y.created_at) xs
    → All (λ y. y.created_at <ℤ x.created_at) xs
older x [] h k = tt
older x (y ∷ xs) (p, h) (q, k) = (older_one x y p q, older x xs h k)

heads :
    (x y : UrlMapping) (xs ys : List UrlMapping)
    → All (λ z. z.created_at <ℤ x.created_at) xs
    → All (λ z. z.created_at <ℤ y.created_at) ys
    → Has x (y ∷ ys)
    → Has y (x ∷ xs)
    → y ≡ x
heads x y xs ys h k (inl e) j = e
heads x y xs ys h k (inr i) (inl e) = sym e
heads x y xs ys h k (inr i) (inr j) =
    let up = All-Has (λ z. z.created_at <ℤ y.created_at) x ys k i in
    let down = All-Has (λ z. z.created_at <ℤ x.created_at) y xs h j in
    absurd (ground (arith, up, down))

behind :
    (x y : UrlMapping) (xs ys : List UrlMapping)
    → All (λ z. z.created_at <ℤ x.created_at) xs
    → (z : UrlMapping) → y ≡ x
    → Has z xs
    → Has z (y ∷ ys)
    → Has z ys
behind x y xs ys h z e i (inr j) = j
behind x y xs ys h z e i (inl at) =
    let less = All-Has (λ w. w.created_at <ℤ x.created_at) z xs h i in
    let same_ : z.created_at ≡ x.created_at = ap (λ m. m.created_at) (sym at ∙ e) in
    absurd (let bad : x.created_at <ℤ x.created_at = rw same_ at less in ground (arith, bad))

descending : (xs : List UrlMapping) → IsNewestFirst xs → HaveOwnTimes xs → IsDescending xs
descending [] h k = tt
descending (x ∷ xs) (first, h) (own, k) = (older x xs first own, descending xs h k)

only :
    (xs ys : List UrlMapping)
    → IsDescending xs
    → IsDescending ys
    → ((z : UrlMapping) → Has z xs → Has z ys)
    → ((z : UrlMapping) → Has z ys → Has z xs)
    → xs ≡ ys
only [] [] h k f g = refl
only [] (y ∷ ys) h k f g = absurd (g y (inl refl))
only (x ∷ xs) [] h k f g = absurd (f x (inl refl))
only (x ∷ xs) (y ∷ ys) (first, h) (first', k) f g =
    let e : y ≡ x = heads x y xs ys first first' (f x (inl refl)) (g y (inl refl)) in
    let tails =
      only xs ys h k (λ z i. behind x y xs ys first z e i (f z (inr i)))
        (λ z i. behind y x ys xs first' z (sym e) i (g z (inr i))) in
    rw (e, tails) refl

-- The key's mappings, as a call that has an ordering sorts them
abbrev sorted_by : Ordering → ℤ → MemoryStore → List UrlMapping
sorted_by o id s = sort_by_created_at_desc o (owned_by id (o.range_map s.urls))

sorted_by-perm :
    (o : Ordering) (id : ℤ) (s : MemoryStore)
    → IsOrdering o id s.urls
    → Permᴰ (sorted_by o id s) (owned_by id s.urls)
unfolding sort_by_created_at_desc
sorted_by-perm o id s ordered = Permᴰ.trans ordered.permutes (owned_by-perm id ordered.visits)

sorted_by-IsDescending :
    (o : Ordering) (id : ℤ) (s : MemoryStore)
    → IsOrdering o id s.urls
    → HaveOwnTimes (owned_by id s.urls)
    → IsDescending (sorted_by o id s)
unfolding sort_by_created_at_desc
sorted_by-IsDescending o id s ordered own =
    descending (sorted_by o id s) ordered.sorts
      (HaveOwnTimes-perm (Permᴰ.symm (sorted_by-perm o id s ordered)) own)

-- Whatever the orderings of two calls: they sort the key's mappings alike.
sorted_alike :
    (o p : Ordering) (id : ℤ) (s : MemoryStore)
    → IsOrdering o id s.urls
    → IsOrdering p id s.urls
    → HaveOwnTimes (owned_by id s.urls)
    → sorted_by o id s ≡ sorted_by p id s
sorted_alike o p id s ordered ordered' own =
    let there = sorted_by-perm o id s ordered in
    let there' = sorted_by-perm p id s ordered' in
    only (sorted_by o id s) (sorted_by p id s) (sorted_by-IsDescending o id s ordered own)
      (sorted_by-IsDescending p id s ordered' own)
      (λ z i. Has-perm z (Permᴰ.trans there' (Permᴰ.symm there)) i)
      (λ z i. Has-perm z (Permᴰ.trans there (Permᴰ.symm there')) i)

listed_page :
    (o : Ordering) (id : ℤ) (n k : ℕ) (s : MemoryStore)
    → 0 < n
    → n + k ≤ max_int64
    → list_urls_by_api_key o id (pos n) (pos k) s ≡ ok (take n (drop k (sorted_by o id s)))
unfolding list_urls_by_api_key
listed_page o id n k s p room =
    let asked : default_limit (pos n) ≡ n = ground arith in
    ap (λ j. page j k (sorted_by o id s)) asked ∙ page_lem n k (sorted_by o id s) room

-- Two pages of ListURLsByAPIKey, one behind the other, are cut from one list, which has the key's
-- mappings and no others, each newer than those behind it: whatever the order in which each of the
-- calls ranges over the map, and whatever sort.Slice does with equal elements. It is provided that the
-- store does not change in between, that no two mappings of the key were created at the same time, and
-- that offset and limit do not overflow an int.
pub list_urls_pages :
    (o p : Ordering) (id : ℤ) (n m k : ℕ) (s : MemoryStore)
    → IsOrdering o id s.urls
    → IsOrdering p id s.urls
    → HaveOwnTimes (owned_by id s.urls)
    → 0 < n
    → 0 < m
    → n + m + k ≤ max_int64
    → (all_ : List UrlMapping) × Permᴰ all_ (owned_by id s.urls)
      × IsDescending all_
      × (list_urls_by_api_key o id (pos n) (pos k) s ≡ ok (take n (drop k all_)))
      × (list_urls_by_api_key p id (pos m) (pos (n + k)) s ≡ ok (take m (drop (n + k) all_)))
list_urls_pages o p id n m k s ordered ordered' own few few' room = (
  sorted_by o id s,
  sorted_by-perm o id s ordered,
  sorted_by-IsDescending o id s ordered own,
  listed_page o id n k s few (omega arith),
  listed_page p id m (n + k) s few' (omega arith)
      ∙ ap (λ l. ok (take m (drop (n + k) l))) (sym (sorted_alike o p id s ordered ordered' own)),
)
