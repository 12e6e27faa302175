-- ===== src/Handlers/Access.antt =====
-- Who authorizeAccess lets through, over MemoryStore, and what the check leaves as it is.
use tiny_url.Store.Memory.Listing.{Ordering}
use tiny_url.Prelude.{
  Text, true, false, none, some, [], ◌∷◌, ◌++◌, ◌==◌, ◌≡◌, ◌≢◌, ◌∙◌, sym, ap, refl, some_inj, codes,
  ◌↔◌, inl, inr, arith, is_empty, same_iff, text_eq, Bool-cases, Option-cases,
}
use tiny_url.Prelude.Table.{lookup, All-lookup}
use tiny_url.Prelude.Strings.{strip_prefix, trim_space}
use tiny_url.Store.Memory.Compare.{IsBytes}
use tiny_url.Store.Memory.KeyLookup.{IsKeyring, find_key_iff}
use tiny_url.Prelude.Int.{ℤ, int_eq, pos, same_int, same_int_iff}
use tiny_url.Models.{Time, UrlMapping, ApiKey}
use tiny_url.Store.Memory.State.{MemoryStore}
use tiny_url.Store.Memory.Keys.{find_key, lookup_api_key}
use tiny_url.Store.Memory.Contract.{memory}
use tiny_url.Handlers.Auth.{extract_bearer, owns, authorize_access}

pub lookup_api_key_keeps :
    (now : Time) (hash : Text) (s : MemoryStore)
    → let after = (lookup_api_key now hash s).1 in
      (after.urls ≡ s.urls) × (after.events ≡ s.events) × (after.audit ≡ s.audit)
unfolding lookup_api_key
lookup_api_key_keeps now hash s = elim (Option-cases (find_key hash s.api_keys)) [
  | inl unknown ↦ rw (unknown, lookup_api_key) (refl, refl, refl)
  | inr (key, known) ↦ rw (known, lookup_api_key) (refl, refl, refl)
]

clash : false ≡ true → ⊥
clash h = cc

unheard : {t : Text} → none ≡ some t → ⊥
unheard h = cc

not_empty : (t : Text) → t ≢ [] → is_empty t ≡ false
not_empty [] full = absurd (full refl)
not_empty (c ∷ t) full = refl

not_same : (a b : ℤ) → a ≢ b → same_int a b ≡ false
not_same a b ne = elim (Bool-cases (same_int a b)) [
  | inl e ↦ absurd (ne ((same_int_iff a b).0 e))
  | inr off ↦ off
]

strip_prefix-append : (p s rest : Text) → strip_prefix p s ≡ some rest → s ≡ p ++ rest
unfolding strip_prefix
strip_prefix-append [] s rest h = some_inj s rest h
strip_prefix-append (c ∷ p) [] rest h = absurd (unheard h)
strip_prefix-append (c ∷ p) (d ∷ s) rest h = elim (Bool-cases (c == d)) [
  | inl e ↦
      let at : d ≡ c = ground (arith, e) in
      ap (λ t. d ∷ t) (strip_prefix-append p s rest (rw e at h)) ∙ ap (λ x. x ∷ p ++ rest) at
  | inr ne ↦ absurd (unheard (rw ne at h))
]

append-strip_prefix : (p rest : Text) → strip_prefix p (p ++ rest) ≡ some rest
unfolding strip_prefix
append-strip_prefix [] rest = refl
append-strip_prefix (c ∷ p) rest =
    let own : (c == c) ≡ true = ground arith in rw own (append-strip_prefix p rest)

denied : false ≡ true → ⊥
denied h = cc

module _ (sha256 : Text → Text) (ordering : Ordering) where
  -- The request carries a bearer token, not blank, with the hash.
  abbrev pub IsBearer : Text → Text → Type 0
  IsBearer authorization hash =
      (token : Text) × (authorization ≡ codes "Bearer " ++ token)
      × (is_empty (trim_space token) ≡ false)
      × (hash ≡ sha256 (trim_space token))

  -- The credentials that authorizeAccess names: the mapping's own token, or the API key it is bound
  -- to.
  pub data HasCredential (authorization : Text) (m : UrlMapping) (s : MemoryStore) : Type 0 where
    admin_token :
        (hash : Text)
        → IsBearer authorization hash
        → m.owner_token_hash ≢ []
        → hash ≡ m.owner_token_hash
        → HasCredential authorization m s
    api_key :
        (hash : Text) (key : ApiKey)
        → IsBearer authorization hash
        → m.api_key_id ≢ pos 0
        → lookup m.api_key_id s.api_keys ≡ some key
        → key.token_hash ≡ hash
        → HasCredential authorization m s

  extract_bearer-IsBearer :
      (authorization hash : Text)
      → extract_bearer sha256 authorization ≡ some hash
      → IsBearer authorization hash
  unfolding extract_bearer
  extract_bearer-IsBearer authorization hash h =
      elim (Option-cases (strip_prefix (codes "Bearer ") authorization)) [
        | inl other ↦ absurd (unheard (rw (other, extract_bearer) at h))
        | inr (rest, split) ↦ elim (Bool-cases (is_empty (trim_space rest))) [
          | inl blank ↦ absurd (unheard (rw (split, blank, extract_bearer) at h))
          | inr full ↦ (
            rest,
            strip_prefix-append (codes "Bearer ") authorization rest split,
            full,
            sym (some_inj _ _ (rw (split, full, extract_bearer) at h)),
          )
        ]
      ]

  IsBearer-extract_bearer :
      (authorization hash : Text)
      → IsBearer authorization hash
      → extract_bearer sha256 authorization ≡ some hash
  unfolding extract_bearer
  IsBearer-extract_bearer authorization hash (token, e, full, hashed) =
      let split =
        ap (strip_prefix (codes "Bearer ")) e ∙ append-strip_prefix (codes "Bearer ") token in
      rw (split, full, extract_bearer) (ap some (sym hashed))

  owns_iff :
      (hash : Text) (m : UrlMapping)
      → (owns sha256 hash m ≡ true) ↔ ((m.owner_token_hash ≢ []) × (hash ≡ m.owner_token_hash))
  owns_iff hash m = (
    λ h. (λ none_. clash (rw none_ at h), ground (arith, same_iff hash m.owner_token_hash)),
    λ (full, e).
        let some_ : is_empty m.owner_token_hash ≡ false = not_empty m.owner_token_hash full in
        ground (arith, same_iff hash m.owner_token_hash),
  )

  -- A bearer token's hash consists of bytes, if those of sha256 do.
  bearer-IsBytes :
      (authorization hash : Text)
      → ((token : Text) → IsBytes (sha256 token))
      → IsBearer authorization hash
      → IsBytes hash
  bearer-IsBytes authorization hash bytes (token, _, _, e) = rw e (bytes (trim_space token))

  sound :
      (now : Time) (authorization : Text) (m : UrlMapping) (s : MemoryStore)
      → ((token : Text) → IsBytes (sha256 token))
      → IsKeyring s.api_keys
      → (authorize_access sha256 (memory ordering) now authorization m s).0 ≡ true
      → HasCredential authorization m s
  unfolding authorize_access lookup_api_key
  sound now authorization m s bytes ring h =
      elim (Option-cases (extract_bearer sha256 authorization)) [
        | inl anonymous ↦ absurd (denied (rw (anonymous, authorize_access) at h))
        | inr (hash, bearer) ↦
            let known = extract_bearer-IsBearer authorization hash bearer in
            elim (Bool-cases (owns sha256 hash m)) [
              | inl own ↦ let (full, e) = (owns_iff hash m).0 own in admin_token hash known full e
              | inr foreign ↦ elim (Bool-cases (same_int m.api_key_id (pos 0))) [
                | inl unbound ↦
                    absurd (denied (rw (bearer, foreign, unbound, authorize_access) at h))
                | inr bound ↦ elim (Option-cases (find_key hash s.api_keys)) [
                  | inl unknown ↦ absurd (
                      denied (
                        rw (bearer, foreign, bound, unknown, authorize_access, lookup_api_key) at
                          h))
                  | inr (key, found) ↦
                      let id : key.id ≡ m.api_key_id = (same_int_iff key.id m.api_key_id).0 (
                        rw (bearer, foreign, bound, found, authorize_access, lookup_api_key) at
                          h) in
                      let (there, e) =
                        (find_key_iff hash key s.api_keys
                            (bearer-IsBytes authorization hash bytes known) ring).0
                          found in
                      api_key hash key known
                        (λ z. clash (sym bound ∙ (same_int_iff m.api_key_id (pos 0)).1 z))
                        (ap (λ i. lookup i s.api_keys) (sym id) ∙ there) e
                ]
              ]
            ]
      ]

  complete :
      (now : Time) (authorization : Text) (m : UrlMapping) (s : MemoryStore)
      → ((token : Text) → IsBytes (sha256 token))
      → IsKeyring s.api_keys
      → HasCredential authorization m s
      → (authorize_access sha256 (memory ordering) now authorization m s).0 ≡ true
  unfolding authorize_access lookup_api_key
  complete now authorization m s bytes ring (admin_token hash known full e) =
      rw
        (
          IsBearer-extract_bearer authorization hash known,
          (owns_iff hash m).1 (full, e),
          authorize_access,
        )
        refl
  complete now authorization m s bytes ring (api_key hash key known bound there e) =
      let bearer = IsBearer-extract_bearer authorization hash known in
      let id : key.id ≡ m.api_key_id =
        All-lookup (λ entry. entry.1.id ≡ entry.0) m.api_key_id key s.api_keys ring.filed there in
      let found : find_key hash s.api_keys ≡ some key =
        (find_key_iff hash key s.api_keys (bearer-IsBytes authorization hash bytes known) ring).1
          (ap (λ i. lookup i s.api_keys) id ∙ there, e) in
      let set_ : same_int m.api_key_id (pos 0) ≡ false = not_same m.api_key_id (pos 0) bound in
      elim (Bool-cases (owns sha256 hash m)) [
        | inl own ↦ rw (bearer, own, authorize_access) refl
        | inr foreign ↦
            rw (bearer, foreign, set_, found, authorize_access, lookup_api_key)
              ((same_int_iff key.id m.api_key_id).1 id)
      ]

  -- authorizeAccess over the memory store lets a request through exactly if its bearer token hashes
  -- to the mapping's owner hash, or to the hash of the API key that the mapping is bound to; provided
  -- that SHA-256 gives bytes, and that every stored key stands once, under its id, with a hash of bytes
  -- that no other key has.
  pub authorize_access_iff :
      (now : Time) (authorization : Text) (m : UrlMapping) (s : MemoryStore)
      → ((token : Text) → IsBytes (sha256 token))
      → IsKeyring s.api_keys
      → ((authorize_access sha256 (memory ordering) now authorization m s).0 ≡ true)
        ↔ HasCredential authorization m s
  authorize_access_iff now authorization m s bytes ring =
      (sound now authorization m s bytes ring, complete now authorization m s bytes ring)

  -- The check of a request's credentials changes no mapping, no click log and no audit event.
  pub authorize_access_keeps :
      (now : Time) (authorization : Text) (m : UrlMapping) (s : MemoryStore)
      → let after = (authorize_access sha256 (memory ordering) now authorization m s).1 in
        (after.urls ≡ s.urls) × (after.events ≡ s.events) × (after.audit ≡ s.audit)
  unfolding authorize_access lookup_api_key
  authorize_access_keeps now authorization m s =
      elim (Option-cases (extract_bearer sha256 authorization)) [
        | inl anonymous ↦ rw (anonymous, authorize_access) (refl, refl, refl)
        | inr (hash, bearer) ↦ elim (Bool-cases (owns sha256 hash m)) [
          | inl own ↦ rw (bearer, own, authorize_access) (refl, refl, refl)
          | inr foreign ↦ elim (Bool-cases (same_int m.api_key_id (pos 0))) [
            | inl unbound ↦ rw (bearer, foreign, unbound, authorize_access) (refl, refl, refl)
            | inr bound ↦ elim (Option-cases (find_key hash s.api_keys)) [
              | inl unknown ↦
                  rw (bearer, foreign, bound, unknown, authorize_access)
                    (lookup_api_key_keeps now hash s)
              | inr (key, known) ↦
                  rw (bearer, foreign, bound, known, authorize_access)
                    (lookup_api_key_keeps now hash s)
            ]
          ]
        ]
      ]
