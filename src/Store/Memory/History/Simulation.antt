-- ===== src/Store/Memory/History/Simulation.antt =====
-- The methods of MemoryStore, one by one, follow the abstract store, and so does any sequence of them.
use tiny_url.Prelude.{
  List, Text, Bool, true, false, Option, none, some, [], ◌∷◌, ◌≡◌, refl, sym, ap, ◌∙◌, inl, inr,
  is_some, same, same_iff, text_eq, Bool-cases, Option-cases, if◌then◌else◌,
}
use tiny_url.Prelude.Int.{ℤ, int_eq}
use tiny_url.Prelude.Table.{lookup, assign, lookup-assign, lookup-remove, Once-assign, Once-remove}
use tiny_url.Models.{Time, UrlMapping, ClickEvent, ApiKey, AuditEvent}
use tiny_url.Store.{UpdateFields, Result, ok, err, not_found, expired}
use tiny_url.Store.Memory.State.{MemoryStore, new_memory_store}
use tiny_url.Store.Memory.Urls.{
  is_past, get, exists, set, delete, rotate_token, apply_update, update,
}
use tiny_url.Store.Memory.Clicks.{counted, record_click}
use tiny_url.Store.Memory.Keys.{get_api_key}
use tiny_url.Store.Memory.Audit.{log_audit}
use tiny_url.Store.Memory.History.{
  Call, setting, deleting, rotating, updating, clicking, creating_key, looking_up_key, deleting_key,
  labelling_key, auditing, cleaning, step, run,
}
use tiny_url.Store.Memory.History.Keyring.{
  Follows, follow_create, follow_lookup, follow_label, follow_delete_key, follow_clean,
}
use tiny_url.Store.Memory.History.Refinement.{
  Shelf, empty_shelf, amended, at_code, first_set, shelf_step, replay, amending, missing_amended,
}

-- A method that changes one stored mapping
follow_amend :
    (f : UrlMapping → UrlMapping) (code : Text) (s : MemoryStore) (a : Shelf) (m : UrlMapping)
    → lookup code s.urls ≡ some m
    → Follows s a
    → Follows (record s { urls = assign code (f m) s.urls }) (at_code code (amended f) a)
follow_amend f code s a m there (v, r) = (
  record { once = Once-assign code (f m) s.urls v.once; filed = v.filed },
  amending f code s a m there r,
)

follow_set :
    (code : Text) (m : UrlMapping) (s : MemoryStore) (a : Shelf)
    → Follows s a
    → Follows (set code m s).1 (at_code code (first_set m) a)
unfolding set
follow_set code m s a (v, r) = elim (Option-cases (lookup code s.urls)) [
  | inl free ↦
      rw (free, set)
        (
          record { once = Once-assign code m s.urls v.once; filed = v.filed },
          record {
            mappings = λ j. lookup-assign code j m s.urls ∙ elim (Bool-cases (same code j)) [
              | inl hit ↦
                  let e = sym (ap (λ k. lookup k s.urls) ((same_iff code j).0 hit)) ∙ free in
                  rw (hit, sym (r.mappings j) ∙ e) refl
              | inr miss ↦ rw miss (r.mappings j)
            ];
            keys = r.keys;
            last = r.last;
          },
        )
  | inr (old, taken) ↦
      rw (taken, set)
        (
          v,
          record {
            mappings = λ j. elim (Bool-cases (same code j)) [
              | inl hit ↦
                  let e = sym (ap (λ k. lookup k s.urls) ((same_iff code j).0 hit)) ∙ taken in
                  rw (hit, sym (r.mappings j) ∙ e) e
              | inr miss ↦ rw miss (r.mappings j)
            ];
            keys = r.keys;
            last = r.last;
          },
        )
]

follow_delete :
    (code : Text) (s : MemoryStore) (a : Shelf)
    → Follows s a
    → Follows (delete code s).1 (at_code code (λ o. none) a)
unfolding delete
follow_delete code s a (v, r) = elim (Option-cases (lookup code s.urls)) [
  | inl missing ↦ rw (missing, delete) (v, missing_amended (λ o. none) code s a missing refl r)
  | inr (m, there) ↦
      rw (there, delete)
        (
          record { once = Once-remove code s.urls v.once; filed = v.filed },
          record {
            mappings = λ j. lookup-remove code j s.urls ∙ elim (Bool-cases (same code j)) [
              | inl hit ↦ rw hit refl
              | inr miss ↦ rw miss (r.mappings j)
            ];
            keys = r.keys;
            last = r.last;
          },
        )
]

follow_rotate :
    (code hash : Text) (s : MemoryStore) (a : Shelf)
    → Follows s a
    → Follows
        (rotate_token code hash s).1
        (at_code code (amended (λ m. record m { owner_token_hash = hash })) a)
unfolding rotate_token
follow_rotate code hash s a (v, r) = elim (Option-cases (lookup code s.urls)) [
  | inl missing ↦
      rw (missing, rotate_token) (v, missing_amended (amended _) code s a missing refl r)
  | inr (m, there) ↦ rw (there, rotate_token) (follow_amend _ code s a m there (v, r))
]

follow_update :
    (now : Time) (code : Text) (f : UpdateFields) (s : MemoryStore) (a : Shelf)
    → Follows s a
    → Follows (update now code f s).1 (at_code code (amended (apply_update now f)) a)
unfolding update
follow_update now code f s a (v, r) = elim (Option-cases (lookup code s.urls)) [
  | inl missing ↦ rw (missing, update) (v, missing_amended (amended _) code s a missing refl r)
  | inr (m, there) ↦ rw (there, update) (follow_amend _ code s a m there (v, r))
]

follow_click :
    (code : Text) (ev : ClickEvent) (s : MemoryStore) (a : Shelf)
    → Follows s a
    → Follows (record_click code ev s).1 (at_code code (amended (counted ev)) a)
unfolding record_click
follow_click code ev s a (v, r) = elim (Option-cases (lookup code s.urls)) [
  | inl missing ↦
      rw (missing, record_click) (v, missing_amended (amended _) code s a missing refl r)
  | inr (m, there) ↦
      let (v', r') = follow_amend (counted ev) code s a m there (v, r) in
      rw (there, record_click)
        (
          record { once = v'.once; filed = v'.filed },
          record { mappings = r'.mappings; keys = r'.keys; last = r'.last },
        )
]

follow_audit :
    (now : Time) (ev : AuditEvent) (s : MemoryStore) (a : Shelf)
    → Follows s a
    → Follows (log_audit now ev s).1 a
unfolding log_audit
follow_audit now ev s a (v, r) = (
  record { once = v.once; filed = v.filed },
  record { mappings = r.mappings; keys = r.keys; last = r.last },
)

step-Follows :
    (c : Call) (s : MemoryStore) (a : Shelf) → Follows s a → Follows (step c s) (shelf_step c a)
unfolding step shelf_step
step-Follows (setting code m) s a f = follow_set code m s a f
step-Follows (deleting code) s a f = follow_delete code s a f
step-Follows (rotating code hash) s a f = follow_rotate code hash s a f
step-Follows (updating now code fields) s a f = follow_update now code fields s a f
step-Follows (clicking code ev) s a f = follow_click code ev s a f
step-Follows (creating_key now label hash) s a f = follow_create now label hash s a f
step-Follows (looking_up_key now hash) s a f = follow_lookup now hash s a f
step-Follows (deleting_key id) s a f = follow_delete_key id s a f
step-Follows (labelling_key id label) s a f = follow_label id label s a f
step-Follows (auditing now ev) s a f = follow_audit now ev s a f
step-Follows (cleaning now) s a f = follow_clean now s a f

run-Follows :
    (cs : List Call) (s : MemoryStore) (a : Shelf) → Follows s a → Follows (run cs s) (replay cs a)
unfolding run replay
run-Follows [] s a f = f
run-Follows (c ∷ cs) s a f = run-Follows cs (step c s) (shelf_step c a) (step-Follows c s a f)

-- What Get answers for a code of the shelf
abbrev pub shelf_get : Time → Option UrlMapping → Result UrlMapping
shelf_get now none = err not_found
shelf_get now (some m) = if is_past m.expires_at now then err expired else ok m

get_shelf :
    (now : Time) (code : Text) (s : MemoryStore)
    → get now code s ≡ shelf_get now (lookup code s.urls)
unfolding get
get_shelf now code s = elim (Option-cases (lookup code s.urls)) [
  | inl missing ↦ rw (missing, get) refl
  | inr (m, there) ↦ rw (there, get) refl
]

abbrev pub is_found : Result ApiKey → Bool
is_found (ok k) = true
is_found (err e) = false

found_key :
    (id : ℤ) (s : MemoryStore) → is_found (get_api_key id s) ≡ is_some (lookup id s.api_keys)
unfolding get_api_key
found_key id s = elim (Option-cases (lookup id s.api_keys)) [
  | inl missing ↦ rw (missing, get_api_key) refl
  | inr (k, there) ↦ rw (there, get_api_key) refl
]

new-Follows : Follows new_memory_store empty_shelf
unfolding lookup
new-Follows = (
  record { once = tt; filed = tt },
  record { mappings = λ code. refl; keys = λ id. refl; last = refl },
)

-- After any sequence of the writing methods and cleanup passes on a new MemoryStore, Get and Exists
-- answer for every code as the abstract store does, a function from codes to mappings on which the same
-- calls were replayed, and GetAPIKey finds a number exactly if the abstract store knows it.
pub run_refines :
    (cs : List Call) (now : Time) (code : Text) (id : ℤ)
    → let s = run cs new_memory_store in
      let a = replay cs empty_shelf in
      (get now code s ≡ shelf_get now (a.at code))
      × (exists code s ≡ is_some (a.at code))
      × (is_found (get_api_key id s) ≡ a.known id)
unfolding exists
run_refines cs now code id =
    let (v, r) = run-Follows cs new_memory_store empty_shelf new-Follows in
    (
      get_shelf now code (run cs new_memory_store) ∙ ap (shelf_get now) (r.mappings code),
      ap is_some (r.mappings code),
      found_key id (run cs new_memory_store) ∙ r.keys id,
    )
