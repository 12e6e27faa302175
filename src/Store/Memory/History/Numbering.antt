-- ===== src/Store/Memory/History/Numbering.antt =====
-- The identifiers of API keys along the life of a MemoryStore.
use tiny_url.Prelude.{
  ℕ, suc, ◌+◌, ◌≤◌, ◌<◌, List, Text, none, some, [], ◌∷◌, ◌≡◌, refl, ap, ◌∙◌, arith, length, All,
  Bool-cases, Option-cases, inl, inr, text_eq,
}
use tiny_url.Prelude.Int.{ℤ, pos, same_int, same_int_iff, int_eq, ◌≤ℤ◌, ◌<ℤ◌}
use tiny_url.Prelude.Words.{max_int64, add64, add64-pos}
use tiny_url.Prelude.Table.{Table, lookup, assign, remove}
use tiny_url.Models.{Time, UrlMapping, ApiKey}
use tiny_url.Store.Memory.State.{MemoryStore, new_memory_store}
use tiny_url.Store.Memory.Urls.{set, delete, rotate_token, update, cleanup_expired}
use tiny_url.Store.Memory.Clicks.{record_click}
use tiny_url.Store.Memory.Keys.{
  create_api_key, find_key, lookup_api_key, delete_api_key, update_api_key_label,
}
use tiny_url.Store.Memory.Audit.{log_audit}
use tiny_url.Store.Memory.History.{
  Call, creating_key, looking_up_key, deleting_key, labelling_key, auditing, cleaning, step, run,
}

abbrev IsAtMost : ℕ → ℤ × ApiKey → Type 0
IsAtMost n (id, k) = (id ≤ℤ pos n) × (k.id ≤ℤ pos n)

-- No stored key has an identifier above the number.
abbrev UpTo : ℕ → Table ℤ ApiKey → Type 0
UpTo n = All (IsAtMost n)

lookup-UpTo_above : (n : ℕ) (t : Table ℤ ApiKey) → UpTo n t → lookup (pos (n + 1)) t ≡ none
unfolding lookup
lookup-UpTo_above n [] h = refl
lookup-UpTo_above n ((id, k) ∷ t) ((small, _), h) =
    ground (arith, lookup-UpTo_above n t h, same_int_iff id (pos (n + 1)))

lookup-UpTo :
    (n : ℕ) (id : ℤ) (k : ApiKey) (t : Table ℤ ApiKey)
    → UpTo n t
    → lookup id t ≡ some k
    → IsAtMost n (id, k)
unfolding lookup
lookup-UpTo n id k [] h e = cc
lookup-UpTo n id k ((j, v) ∷ t) (small, h) e =
    ground (arith, lookup-UpTo n id k t h, same_int_iff j id)

find_key-UpTo :
    (n : ℕ) (hash : Text) (k : ApiKey) (t : Table ℤ ApiKey)
    → UpTo n t
    → find_key hash t ≡ some k
    → k.id ≤ℤ pos n
unfolding find_key
find_key-UpTo n hash k [] h e = cc
find_key-UpTo n hash k ((j, v) ∷ t) (small, h) e = ground (arith, find_key-UpTo n hash k t h)

UpTo-assign :
    (n : ℕ) (id : ℤ) (k : ApiKey) (t : Table ℤ ApiKey)
    → IsAtMost n (id, k)
    → UpTo n t
    → UpTo n (assign id k t)
unfolding assign
UpTo-assign n id k [] le h = (le, tt)
UpTo-assign n id k ((j, v) ∷ t) le (small, h) = elim (Bool-cases (same_int j id)) [
  | inl at ↦ rw at ((small.0, le.1), h)
  | inr off ↦ rw off (small, UpTo-assign n id k t le h)
]

UpTo-remove : (n : ℕ) (id : ℤ) (t : Table ℤ ApiKey) → UpTo n t → UpTo n (remove id t)
unfolding remove
UpTo-remove n id [] h = tt
UpTo-remove n id ((j, v) ∷ t) (small, h) = elim (Bool-cases (same_int j id)) [
  | inl at ↦ rw at (UpTo-remove n id t h)
  | inr off ↦ rw off (small, UpTo-remove n id t h)
]

UpTo-mono : (n m : ℕ) (t : Table ℤ ApiKey) → n ≤ m → UpTo n t → UpTo m t
UpTo-mono n m [] le h = tt
UpTo-mono n m ((j, v) ∷ t) le (small, h) = (omega arith, UpTo-mono n m t le h)

-- The counter has not wrapped: after at most `n` calls it is `c`, and `c ≤ n`.
pub record IsNumbered (n c : ℕ) (s : MemoryStore) : Type 0 where
  pub counter : s.next_key_id ≡ pos c
  pub few : c ≤ n
  pub upto : UpTo c s.api_keys

with_keys :
    {n c : ℕ} {s : MemoryStore} {urls : Table Text UrlMapping} {keys : Table ℤ ApiKey}
    → IsNumbered n c s
    → UpTo c keys
    → IsNumbered (suc n) c (record s { urls = urls; api_keys = keys })
with_keys h u = record { counter = h.counter; few = omega (arith, h.few); upto = u }

later : {n c : ℕ} {s : MemoryStore} → IsNumbered n c s → IsNumbered (suc n) c s
later h = record { counter = h.counter; few = omega (arith, h.few); upto = h.upto }

-- A call that touches neither the keys nor their counter.
untouched :
    (n c : ℕ) {s : MemoryStore} (s' : MemoryStore)
    → IsNumbered n c s
    → s'.next_key_id ≡ s.next_key_id
    → s'.api_keys ≡ s.api_keys
    → IsNumbered (suc n) c s'
untouched n c s' h e f = record {
  counter = e ∙ h.counter;
  few = omega (arith, h.few);
  upto = rw f h.upto;
}

created-IsNumbered :
    (n c : ℕ) (now : Time) (label hash : Text) (s : MemoryStore)
    → n < max_int64
    → IsNumbered n c s
    → IsNumbered (suc n) (c + 1) (create_api_key now label hash s).1
unfolding create_api_key
created-IsNumbered n c now label hash s room h =
    let next : add64 s.next_key_id (pos 1) ≡ pos (c + 1) =
      ap (λ z. add64 z (pos 1)) h.counter ∙ add64-pos c 1 (omega (arith, h.few)) in
    record {
      counter = next;
      few = omega (arith, h.few);
      upto =
          UpTo-assign (c + 1) _ _ s.api_keys (rw next (omega arith, omega arith))
            (UpTo-mono c (c + 1) s.api_keys (omega arith) h.upto);
    }

step-IsNumbered :
    (n c : ℕ) (call : Call) (s : MemoryStore)
    → n < max_int64
    → IsNumbered n c s
    → (d : ℕ) × (c ≤ d) × IsNumbered (suc n) d (step call s)
unfolding step set delete rotate_token update record_click lookup_api_key delete_api_key
    update_api_key_label log_audit cleanup_expired
step-IsNumbered n c (creating_key now label hash) s room h =
    (c + 1, omega arith, created-IsNumbered n c now label hash s room h)
step-IsNumbered n c (looking_up_key now hash) s room h = (
  c,
  omega arith,
  elim (Option-cases (find_key hash s.api_keys)) [
    | inl e ↦ rw (e, step, lookup_api_key) (later h)
    | inr (k, e) ↦
        let small = find_key-UpTo c hash k s.api_keys h.upto e in
        rw (e, step, lookup_api_key)
          (with_keys h (UpTo-assign c k.id _ s.api_keys (small, small) h.upto))
  ],
)
step-IsNumbered n c (deleting_key id) s room h = (
  c,
  omega arith,
  elim (Option-cases (lookup id s.api_keys)) [
    | inl e ↦ rw (e, step, delete_api_key) (later h)
    | inr (k, e) ↦ rw (e, step, delete_api_key) (with_keys h (UpTo-remove c id s.api_keys h.upto))
  ],
)
step-IsNumbered n c (labelling_key id label) s room h = (
  c,
  omega arith,
  elim (Option-cases (lookup id s.api_keys)) [
    | inl e ↦ rw (e, step, update_api_key_label) (later h)
    | inr (k, e) ↦
        rw (e, step, update_api_key_label)
          (with_keys h
            (UpTo-assign c id _ s.api_keys (lookup-UpTo c id k s.api_keys h.upto e) h.upto))
  ],
)
step-IsNumbered n c (auditing now ev) s room h =
    (c, omega arith, record { counter = h.counter; few = omega (arith, h.few); upto = h.upto })
step-IsNumbered n c (cleaning now) s room h = (c, omega arith, with_keys h h.upto)
step-IsNumbered n c call s room h =
    (c, omega arith, untouched n c _ h (ground arith) (ground arith))

run-IsNumbered :
    (n c : ℕ) (calls : List Call) (s : MemoryStore)
    → n + length calls ≤ max_int64
    → IsNumbered n c s
    → (d : ℕ) × (c ≤ d) × IsNumbered (n + length calls) d (run calls s)
unfolding run
run-IsNumbered n c [] s room h =
    (c, omega arith, record { counter = h.counter; few = omega (arith, h.few); upto = h.upto })
run-IsNumbered n c (call ∷ calls) s room h =
    let (d, le, h') = step-IsNumbered n c call s (omega arith) h in
    let (d', le', h'') = run-IsNumbered (suc n) d calls (step call s) (omega arith) h' in
    (
      d',
      omega arith,
      record { counter = h''.counter; few = omega (arith, h''.few); upto = h''.upto },
    )

-- The identifier that CreateAPIKey would give next.
abbrev pub next_id : MemoryStore → ℤ
next_id s = add64 s.next_key_id (pos 1)

next_id-IsNumbered :
    (n c : ℕ) (s : MemoryStore) → IsNumbered n c s → n < max_int64 → next_id s ≡ pos (c + 1)
next_id-IsNumbered n c s h room =
    ap (λ z. add64 z (pos 1)) h.counter ∙ add64-pos c 1 (omega (arith, h.few))

grown :
    (n c m d : ℕ) (s s' : MemoryStore)
    → IsNumbered n c s
    → IsNumbered m d s'
    → n < max_int64
    → m < max_int64
    → c + 1 ≤ d
    → (next_id s <ℤ next_id s') × (lookup (next_id s') s'.api_keys ≡ none)
grown n c m d s s' h h' room room' le =
    rw (next_id-IsNumbered n c s h room, next_id-IsNumbered m d s' h' room')
      (omega arith, lookup-UpTo_above d s'.api_keys h'.upto)

-- Identifiers of API keys are never reused. However the calls go on after a key was created, revocations
-- included, the key that would be created next has a greater identifier, and no stored key has that
-- identifier. This holds for fewer than 2^63 calls on an empty store.
pub key_ids_grow :
    (calls more : List Call) (now : Time) (label hash : Text)
    → length calls + length more + 1 < max_int64
    → let s = run calls new_memory_store in
      let s' = run more (step (creating_key now label hash) s) in
      (next_id s <ℤ next_id s') × (lookup (next_id s') s'.api_keys ≡ none)
key_ids_grow calls more now label hash room =
    let s = run calls new_memory_store in
    let (c, _, h) =
      run-IsNumbered 0 0 calls new_memory_store (omega arith)
        (record { counter = refl; few = omega arith; upto = tt }) in
    let h' = created-IsNumbered (0 + length calls) c now label hash s (omega arith) h in
    let (d, le, h'') =
      run-IsNumbered (suc (0 + length calls)) (c + 1) more (create_api_key now label hash s).1
        (omega arith) h' in
    unfold step in
    grown (0 + length calls) c (suc (0 + length calls) + length more) d s
      (run more (create_api_key now label hash s).1) h h'' (omega arith) (omega arith) le
