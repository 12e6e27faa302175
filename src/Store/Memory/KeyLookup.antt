-- ===== src/Store/Memory/KeyLookup.antt =====
-- services/storage.go: LookupAPIKey's search over the map of keys, as the key that has a hash.
use tiny_url.Prelude.{
  Text, true, false, none, some, [], ◌∷◌, ◌≡◌, refl, sym, ap, ◌∙◌, ◌↔◌, inl, inr, All, Bool-cases,
  some_inj,
}
use tiny_url.Prelude.Int.{ℤ, same_int, same_int_iff, int_eq}
use tiny_url.Prelude.Table.{Table, lookup, Once, All-lookup}
use tiny_url.Models.{ApiKey}
use tiny_url.Store.Memory.Compare.{IsBytes, bytes_equal_const_time_iff}
use tiny_url.Store.Memory.Keys.{bytes_equal_const_time, find_key}

-- A map of keys: every key stands once, under its id, its hash consists of bytes, and no two have the
-- same hash.
pub record IsKeyring (t : Table ℤ ApiKey) : Type 0 where
  pub once : Once t
  pub filed : All (λ entry. entry.1.id ≡ entry.0) t
  pub bytes : All (λ entry. IsBytes entry.1.token_hash) t
  pub distinct :
      (i j : ℤ) (k l : ApiKey)
      → lookup i t ≡ some k
      → lookup j t ≡ some l
      → k.token_hash ≡ l.token_hash
      → i ≡ j

absent : {A : Type 0} {x : A} → none ≡ some x → ⊥
absent h = cc

clash : false ≡ true → ⊥
clash h = cc

lookup-cons_other :
    (i j : ℤ) (w k : ApiKey) (t : Table ℤ ApiKey)
    → lookup j t ≡ none
    → lookup i t ≡ some k
    → lookup i ((j, w) ∷ t) ≡ some k
unfolding lookup
lookup-cons_other i j w k t fresh found = elim (Bool-cases (same_int j i)) [
  | inl at ↦ absurd (absent (sym fresh ∙ ap (λ n. lookup n t) ((same_int_iff j i).0 at) ∙ found))
  | inr off ↦ rw off found
]

lookup-cons_own : (j : ℤ) (w : ApiKey) (t : Table ℤ ApiKey) → lookup j ((j, w) ∷ t) ≡ some w
unfolding lookup
lookup-cons_own j w t = rw ((same_int_iff j j).1 refl) refl

-- A key that is found has the hash, and stands in the map.
find_key-lookup :
    (hash : Text) (k : ApiKey) (t : Table ℤ ApiKey)
    → IsBytes hash
    → Once t
    → All (λ entry. IsBytes entry.1.token_hash) t
    → find_key hash t ≡ some k
    → (i : ℤ) × (lookup i t ≡ some k) × (k.token_hash ≡ hash)
unfolding find_key
find_key-lookup hash k [] b once bytes found = absurd (absent found)
find_key-lookup hash k ((j, w) ∷ t) b (fresh, once) (own, bytes) found =
    elim (Bool-cases (bytes_equal_const_time w.token_hash hash)) [
      | inl hit ↦
          let e : w ≡ k = some_inj w k (rw hit at found) in
          (
            j,
            lookup-cons_own j w t ∙ ap some e,
            ap (λ q. q.token_hash) (sym e)
                ∙ (bytes_equal_const_time_iff w.token_hash hash own b).0 hit,
          )
      | inr miss ↦
          let (i, there, same_) = find_key-lookup hash k t b once bytes (rw miss at found) in
          (i, lookup-cons_other i j w k t fresh there, same_)
    ]

-- A hash that a key of the map has is found.
lookup-find_key :
    (hash : Text) (i : ℤ) (k : ApiKey) (t : Table ℤ ApiKey)
    → IsBytes hash
    → All (λ entry. IsBytes entry.1.token_hash) t
    → lookup i t ≡ some k
    → k.token_hash ≡ hash
    → (l : ApiKey) × (find_key hash t ≡ some l)
unfolding find_key lookup
lookup-find_key hash i k [] b bytes there e = absurd (absent there)
lookup-find_key hash i k ((j, w) ∷ t) b (own, bytes) there e =
    elim (Bool-cases (bytes_equal_const_time w.token_hash hash)) [
      | inl hit ↦ (w, rw hit refl)
      | inr miss ↦ elim (Bool-cases (same_int j i)) [
        | inl at ↦
            let same_ = ap (λ q. q.token_hash) (some_inj w k (rw at at there)) ∙ e in
            absurd (clash (sym miss ∙ (bytes_equal_const_time_iff w.token_hash hash own b).1 same_))
        | inr off ↦
            let (l, found) = lookup-find_key hash i k t b bytes (rw off at there) e in
            (l, rw miss found)
      ]
    ]

-- LookupAPIKey finds a key exactly if it stands in the map, under its id, and has the hash.
pub find_key_iff :
    (hash : Text) (k : ApiKey) (t : Table ℤ ApiKey)
    → IsBytes hash
    → IsKeyring t
    → (find_key hash t ≡ some k) ↔ ((lookup k.id t ≡ some k) × (k.token_hash ≡ hash))
find_key_iff hash k t b ring = (
  λ found.
      let (i, there, e) = find_key-lookup hash k t b ring.once ring.bytes found in
      let at : k.id ≡ i = All-lookup (λ entry. entry.1.id ≡ entry.0) i k t ring.filed there in
      (ap (λ n. lookup n t) at ∙ there, e),
  λ (there, e).
      let (l, found) = lookup-find_key hash k.id k t b ring.bytes there e in
      let (i, at, e') = find_key-lookup hash l t b ring.once ring.bytes found in
      let one : i ≡ k.id = ring.distinct i k.id l k at there (e' ∙ sym e) in
      let same_ : l ≡ k = some_inj l k (sym at ∙ ap (λ n. lookup n t) one ∙ there) in
      found ∙ ap some same_,
)
