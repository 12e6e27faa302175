-- ===== src/Handlers/ApiKeys/Lifecycle.antt =====
-- handlers/apikey.go: the life of an API key, over MemoryStore.
use tiny_url.Store.Memory.Listing.{Ordering}
use tiny_url.Prelude.{
  ℕ, ◌+◌, ◌≤◌, Text, true, Option, none, some, [], ◌∷◌, ◌≡◌, refl, sym, ap, ◌∙◌, inl, inr, arith,
  Bool-cases, Option-cases, some_inj, codes, length, ltb,
}
use tiny_url.Prelude.Int.{ℤ, same_int, same_int_iff, int_eq}
use tiny_url.Prelude.Table.{Table, lookup, assign, remove, lookup-assign}
use tiny_url.Models.{Time, ApiKey, CreateApiKeyResponse}
use tiny_url.Store.{ok, err, not_found}
use tiny_url.Store.Memory.State.{MemoryStore}
use tiny_url.Store.Memory.Keys.{
  bytes_equal_const_time, find_key, create_api_key, lookup_api_key, delete_api_key,
}
use tiny_url.Store.Memory.Audit.{log_audit}
use tiny_url.Store.Memory.Compare.{IsBytes, bytes_equal_const_time_iff}
use tiny_url.Store.Memory.Ownership.{AreFiled, matches, find_key-none}
use tiny_url.Store.Memory.Contract.{memory}
use tiny_url.Handlers.{Clock, Request, Response, plain}
use tiny_url.Handlers.Auth.{extract_bearer, log_audit_best_effort}
use tiny_url.Handlers.Shorten.{Crypto}
use tiny_url.Handlers.Gates.{pass, simple, answered}
use tiny_url.Handlers.ApiKeys.{
  issued, described, max_label_len, generate_api_key_token, create_key, require_api_key, get_key,
  delete_key_outcome, delete_key,
}

simple_not_answered : {A : Type 0} {r : Response} {n : ℕ} {a : A} → simple r ≡ answered n a → ⊥
simple_not_answered h = cc

issued_inj :
    {n : ℕ} {a b : CreateApiKeyResponse} → answered n (issued a) ≡ answered n (issued b) → a ≡ b
issued_inj h = cc

find_key-assign :
    (hash : Text) (id : ℤ) (k : ApiKey) (t : Table ℤ ApiKey)
    → find_key hash t ≡ none
    → bytes_equal_const_time k.token_hash hash ≡ true
    → find_key hash (assign id k t) ≡ some k
unfolding find_key assign
find_key-assign hash id k [] none_ own = rw own refl
find_key-assign hash id k ((j, w) ∷ t) none_ own = ground (arith, find_key-assign hash id k t)

matches-remove :
    (hash : Text) (id : ℤ) (t : Table ℤ ApiKey) → matches hash (remove id t) ≤ matches hash t
unfolding matches remove
matches-remove hash id [] = omega arith
matches-remove hash id ((j, w) ∷ t) = ground (arith, matches-remove hash id t)

remove-assign : (id : ℤ) (k : ApiKey) (t : Table ℤ ApiKey) → remove id (assign id k t) ≡ remove id t
unfolding remove assign
remove-assign id k [] = ground (arith, same_int_iff id id)
remove-assign id k ((j, w) ∷ t) = ground (arith, remove-assign id k t)

find_key-remove :
    (hash : Text) (k : ApiKey) (t : Table ℤ ApiKey)
    → AreFiled t
    → matches hash t ≤ 1
    → find_key hash t ≡ some k
    → find_key hash (remove k.id t) ≡ none
unfolding find_key matches remove
find_key-remove hash k [] filed few found = refl
find_key-remove hash k ((j, w) ∷ t) (own, filed) few found =
    elim (Bool-cases (bytes_equal_const_time w.token_hash hash)) [
      | inl hit ↦
          let e : w ≡ k = some_inj w k (rw hit at found) in
          let at : same_int j k.id ≡ true = (same_int_iff j k.id).1 (sym own ∙ ap (λ u. u.id) e) in
          rw at (
            find_key-none hash (remove k.id t)
              (omega (arith, (let f = few in rw hit at f), matches-remove hash k.id t)))
      | inr miss ↦
          let rest =
            find_key-remove hash k t filed
              (let f : 0 + matches hash t ≤ 1 = rw miss at few in omega arith) (rw miss at found) in
          elim (Bool-cases (same_int j k.id)) [
            | inl gone ↦ rw gone rest
            | inr kept ↦ rw (kept, miss) rest
          ]
    ]

module _ (C : Crypto) (ordering : Ordering) where
  -- What POST /api/keys answers: the key has been stored under the hash of the answered token.
  created :
      (clock : Clock) (bytes : Option Text) (r : Request) (body : Option Text) (s : MemoryStore)
      (a : CreateApiKeyResponse)
      → let (reply, after) = create_key C (memory ordering) clock bytes r body s in
        reply ≡ answered 201 (issued a)
        → (k : ApiKey) × (k.token_hash ≡ C.sha256 a.token)
          × (k.id ≡ a.id)
          × (k.label ≡ a.label)
          × (k.created_at ≡ a.created_at)
          × (after.api_keys ≡ assign k.id k s.api_keys)
  unfolding create_key generate_api_key_token create_api_key log_audit_best_effort log_audit
  created clock bytes r none s a k = absurd (simple_not_answered k)
  created clock bytes r (some label) s a k = elim (Bool-cases (ltb max_label_len (length label))) [
    | inl long ↦ absurd (simple_not_answered (rw (long, create_key) at k))
    | inr fits ↦ elim (Option-cases bytes) [
      | inl dry ↦ absurd (simple_not_answered (rw (fits, dry, create_key) at k))
      | inr (b, drew) ↦
          let e = issued_inj (rw (fits, drew, create_key) at k) in
          rw (fits, drew, create_key, sym e) (_, refl, refl, refl, refl, refl)
    ]
  ]

  abbrev used_at : Time → ApiKey → ApiKey
  used_at now k = record k { last_used_at = some now }

  lookup_known :
      (now : Time) (hash : Text) (k : ApiKey) (s : MemoryStore)
      → find_key hash s.api_keys ≡ some k
      → lookup_api_key now hash s
        ≡ (ok (used_at now k), record s { api_keys = assign k.id (used_at now k) s.api_keys })
  unfolding lookup_api_key
  lookup_known now hash k s known = rw (known, lookup_api_key) refl

  lookup_unknown :
      (now : Time) (hash : Text) (s : MemoryStore)
      → find_key hash s.api_keys ≡ none
      → lookup_api_key now hash s ≡ (err not_found, s)
  unfolding lookup_api_key
  lookup_unknown now hash s unknown = rw (unknown, lookup_api_key) refl

  known_key :
      (now : Time) (q : Request) (hash : Text) (k : ApiKey) (s : MemoryStore)
      → extract_bearer C.sha256 q.authorization ≡ some hash
      → find_key hash s.api_keys ≡ some k
      → let (gate, after) = require_api_key C (memory ordering) now q s in
        (gate ≡ pass (used_at now k))
        × (after ≡ record s { api_keys = assign k.id (used_at now k) s.api_keys })
  unfolding require_api_key
  known_key now q hash k s bearer known =
      let e = lookup_known now hash k s known in
      rw (bearer, e, require_api_key) (refl, ap (λ t. t.1) e)

  unknown_key :
      (clock : Clock) (q : Request) (hash : Text) (s : MemoryStore)
      → extract_bearer C.sha256 q.authorization ≡ some hash
      → find_key hash s.api_keys ≡ none
      → (get_key C (memory ordering) clock q s).0 ≡ simple (plain 401 (codes "invalid API key"))
  unfolding get_key require_api_key
  unknown_key clock q hash s bearer unknown =
      rw (bearer, lookup_unknown (clock 0) hash s unknown, get_key, require_api_key) refl

  -- After a POST /api/keys that is answered with a key, a GET /api/keys that bears the answered token
  -- is answered with that key's number, label and time of creation, and the time of the GET as its last
  -- use; provided that no stored key had the token's hash before, and that the hash consists of bytes.
  pub get_key-create_key :
      (clock later : Clock) (bytes : Option Text) (r q : Request) (body : Option Text)
      (s : MemoryStore) (a : CreateApiKeyResponse)
      → let (reply, after) = create_key C (memory ordering) clock bytes r body s in
        reply ≡ answered 201 (issued a)
        → extract_bearer C.sha256 q.authorization ≡ some (C.sha256 a.token)
        → find_key (C.sha256 a.token) s.api_keys ≡ none
        → IsBytes (C.sha256 a.token)
        → (get_key C (memory ordering) later q after).0
          ≡ answered 200 (
              described (record {
                id = a.id;
                label = a.label;
                created_at = a.created_at;
                last_used_at = some (later 0);
              }))
  unfolding get_key
  get_key-create_key clock later bytes r q body s a made bearer fresh hash_bytes =
      let after = (create_key C (memory ordering) clock bytes r body s).1 in
      let (k, hash, id, label, at, filed) = created clock bytes r body s a made in
      let own =
        (bytes_equal_const_time_iff k.token_hash (C.sha256 a.token) (rw hash hash_bytes)
            hash_bytes).1
          hash in
      let known : find_key (C.sha256 a.token) after.api_keys ≡ some k =
        ap (find_key (C.sha256 a.token)) filed
        ∙ find_key-assign (C.sha256 a.token) k.id k s.api_keys fresh own in
      rw ((known_key (later 0) q (C.sha256 a.token) k after bearer known).0, get_key, id, label, at)
        refl

  deleted :
      (clock : Clock) (r : Request) (hash : Text) (k : ApiKey) (s : MemoryStore)
      → extract_bearer C.sha256 r.authorization ≡ some hash
      → find_key hash s.api_keys ≡ some k
      → let (reply, after) = delete_key C (memory ordering) clock r s in
        (reply ≡ simple (plain 204 [])) × (after.api_keys ≡ remove k.id s.api_keys)
  unfolding delete_key delete_key_outcome delete_api_key log_audit_best_effort log_audit
  deleted clock r hash k s bearer known =
      let used = used_at (clock 0) k in
      let (gate, filed) = known_key (clock 0) r hash k s bearer known in
      let stored : lookup k.id (assign k.id used s.api_keys) ≡ some used =
        lookup-assign k.id k.id used s.api_keys ∙ rw ((same_int_iff k.id k.id).1 refl) refl in
      rw (gate, filed, delete_key, stored, delete_api_key)
        (refl, ap (λ t. remove k.id t.api_keys) filed ∙ remove-assign k.id used s.api_keys)

  -- A DELETE /api/keys by a key that the store knows, under a hash that no other key has, where each
  -- key stands under its own id: it is answered with 204, and from then on a GET /api/keys with that
  -- token is answered with 401.
  pub get_key-delete_key :
      (clock later : Clock) (r q : Request) (hash : Text) (k : ApiKey) (s : MemoryStore)
      → extract_bearer C.sha256 r.authorization ≡ some hash
      → extract_bearer C.sha256 q.authorization ≡ some hash
      → find_key hash s.api_keys ≡ some k
      → matches hash s.api_keys ≤ 1
      → AreFiled s.api_keys
      → let (reply, after) = delete_key C (memory ordering) clock r s in
        (reply ≡ simple (plain 204 []))
        × ((get_key C (memory ordering) later q after).0
            ≡ simple (plain 401 (codes "invalid API key")))
  get_key-delete_key clock later r q hash k s bearer same known few filed =
      let (gone, keys) = deleted clock r hash k s bearer known in
      (
        gone,
        unknown_key later q hash (delete_key C (memory ordering) clock r s).1 same
            (ap (find_key hash) keys ∙ find_key-remove hash k s.api_keys filed few known),
      )
