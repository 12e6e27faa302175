-- ===== src/Store/Memory/History/Keyring.antt =====
-- The methods of MemoryStore on API keys, and its cleanup pass, follow the abstract store.
use tiny_url.Prelude.{
  Text, true, false, Option, none, some, [], ◌∷◌, ◌≡◌, refl, sym, ap, ◌∙◌, inl, inr, is_some,
  text_eq, Bool-cases, Option-cases, some_inj, if◌then◌else◌,
}
use tiny_url.Prelude.Int.{ℤ, pos, same_int, same_int_iff, int_eq}
use tiny_url.Prelude.Words.{add64}
use tiny_url.Prelude.Table.{
  Table, lookup, assign, remove, lookup-assign, lookup-remove, All-assign, All-remove, All-lookup,
}
use tiny_url.Models.{Time, UrlMapping, ApiKey}
use tiny_url.Store.Memory.State.{MemoryStore}
use tiny_url.Store.Memory.Urls.{cleanup_expired}
use tiny_url.Store.Memory.Keys.{
  bytes_equal_const_time, find_key, create_api_key, lookup_api_key, delete_api_key, disowned,
  update_api_key_label,
}
use tiny_url.Store.Memory.Ownership.{AreFiled}
use tiny_url.Store.Memory.Maps.{
  unexpired, lookup-reap, Once-reap, disowned?, lookup-disown, Once-disown,
}
use tiny_url.Store.Memory.History.{creating_key, deleting_key, cleaning}
use tiny_url.Store.Memory.History.Refinement.{Shelf, amended, shelf_step, IsValid, Refines}

abbrev pub Follows : MemoryStore → Shelf → Type 0
Follows s a = IsValid s × Refines s a

abbrev IsFiled : ℤ × ApiKey → Type 0
IsFiled entry = entry.1.id ≡ entry.0

-- Which numbers a table of keys has after an assignment and after a removal
is_some-assign :
    (id j : ℤ) (k : ApiKey) (t : Table ℤ ApiKey)
    → is_some (lookup j (assign id k t)) ≡ (if same_int id j then true else is_some (lookup j t))
is_some-assign id j k t =
    ap is_some (lookup-assign id j k t)
    ∙ elim (Bool-cases (same_int id j)) [ inl hit ↦ rw hit refl | inr miss ↦ rw miss refl ]

is_some-remove :
    (id j : ℤ) (t : Table ℤ ApiKey)
    → is_some (lookup j (remove id t)) ≡ (if same_int id j then false else is_some (lookup j t))
is_some-remove id j t =
    ap is_some (lookup-remove id j t)
    ∙ elim (Bool-cases (same_int id j)) [ inl hit ↦ rw hit refl | inr miss ↦ rw miss refl ]

-- A key that is assigned under a number that is there changes no number.
reassigned :
    (id j : ℤ) (k old : ApiKey) (t : Table ℤ ApiKey)
    → lookup id t ≡ some old
    → is_some (lookup j (assign id k t)) ≡ is_some (lookup j t)
reassigned id j k old t there = is_some-assign id j k t ∙ elim (Bool-cases (same_int id j)) [
  | inl hit ↦
      let e = sym (ap (λ n. lookup n t) ((same_int_iff id j).0 hit)) ∙ there in rw (hit, e) refl
  | inr miss ↦ rw miss refl
]

differs : true ≡ false → ⊥
differs h = cc

disowned-amended : (id : ℤ) (o : Option UrlMapping) → disowned? id o ≡ amended (disowned id) o
disowned-amended id none = refl
disowned-amended id (some m) = refl

found_filed :
    (hash : Text) (k : ApiKey) (t : Table ℤ ApiKey)
    → AreFiled t
    → find_key hash t ≡ some k
    → (old : ApiKey) × (lookup k.id t ≡ some old)
unfolding find_key lookup
found_filed hash k [] filed found = cc
found_filed hash k ((j, w) ∷ t) (own, filed) found = elim (Bool-cases (same_int j k.id)) [
  | inl hit ↦ (w, rw hit refl)
  | inr miss ↦ elim (Bool-cases (bytes_equal_const_time w.token_hash hash)) [
    | inl right ↦
        let e = some_inj w k (rw right at found) in
        absurd (differs (sym ((same_int_iff j k.id).1 (sym own ∙ ap (λ u. u.id) e)) ∙ miss))
    | inr wrong ↦
        let (old, there) = found_filed hash k t filed (rw wrong at found) in (old, rw miss there)
  ]
]

pub follow_create :
    (now : Time) (label hash : Text) (s : MemoryStore) (a : Shelf)
    → Follows s a
    → Follows (create_api_key now label hash s).1 (shelf_step (creating_key now label hash) a)
unfolding create_api_key shelf_step
follow_create now label hash s a (v, r) = (
  record { once = v.once; filed = All-assign IsFiled _ _ s.api_keys refl v.filed },
  rw (sym r.last) (record {
    mappings = r.mappings;
    keys = λ j.
        is_some-assign (add64 s.next_key_id (pos 1)) j _ s.api_keys
        ∙ ap (λ b. if same_int (add64 s.next_key_id (pos 1)) j then true else b) (r.keys j);
    last = refl;
  }),
)

pub follow_lookup :
    (now : Time) (hash : Text) (s : MemoryStore) (a : Shelf)
    → Follows s a
    → Follows (lookup_api_key now hash s).1 a
unfolding lookup_api_key
follow_lookup now hash s a (v, r) = elim (Option-cases (find_key hash s.api_keys)) [
  | inl unknown ↦ rw (unknown, lookup_api_key) (v, r)
  | inr (k, known) ↦
      let (old, there) = found_filed hash k s.api_keys v.filed known in
      rw (known, lookup_api_key)
        (
          record { once = v.once; filed = All-assign IsFiled k.id _ s.api_keys refl v.filed },
          record {
            mappings = r.mappings;
            keys = λ j. reassigned k.id j _ old s.api_keys there ∙ r.keys j;
            last = r.last;
          },
        )
]

pub follow_label :
    (id : ℤ) (label : Text) (s : MemoryStore) (a : Shelf)
    → Follows s a
    → Follows (update_api_key_label id label s).1 a
unfolding update_api_key_label
follow_label id label s a (v, r) = elim (Option-cases (lookup id s.api_keys)) [
  | inl unknown ↦ rw (unknown, update_api_key_label) (v, r)
  | inr (k, there) ↦
      rw (there, update_api_key_label)
        (
          record {
            once = v.once;
            filed =
                All-assign IsFiled id _ s.api_keys
                  (All-lookup IsFiled id k s.api_keys v.filed there) v.filed;
          },
          record {
            mappings = r.mappings;
            keys = λ j. reassigned id j _ k s.api_keys there ∙ r.keys j;
            last = r.last;
          },
        )
]

pub follow_delete_key :
    (id : ℤ) (s : MemoryStore) (a : Shelf)
    → Follows s a
    → Follows (delete_api_key id s).1 (shelf_step (deleting_key id) a)
unfolding delete_api_key shelf_step
follow_delete_key id s a (v, r) = elim (Option-cases (lookup id s.api_keys)) [
  | inl unknown ↦
      let e = sym (r.keys id) ∙ ap is_some unknown in rw (unknown, e, delete_api_key) (v, r)
  | inr (k, there) ↦
      let e = sym (r.keys id) ∙ ap is_some there in
      rw (there, e, delete_api_key)
        (
          record {
            once = Once-disown id s.urls v.once;
            filed = All-remove IsFiled id s.api_keys v.filed;
          },
          record {
            mappings = λ code.
                lookup-disown id code s.urls
                ∙ ap (disowned? id) (r.mappings code)
                ∙ disowned-amended id (a.at code);
            keys = λ j.
                is_some-remove id j s.api_keys
                ∙ ap (λ b. if same_int id j then false else b) (r.keys j);
            last = r.last;
          },
        )
]

pub follow_clean :
    (now : Time) (s : MemoryStore) (a : Shelf)
    → Follows s a
    → Follows (cleanup_expired now s) (shelf_step (cleaning now) a)
unfolding cleanup_expired shelf_step
follow_clean now s a (v, r) = (
  record { once = Once-reap now s.urls v.once; filed = v.filed },
  record {
    mappings = λ code. lookup-reap now code s.urls v.once ∙ ap (unexpired now) (r.mappings code);
    keys = r.keys;
    last = r.last;
  },
)
