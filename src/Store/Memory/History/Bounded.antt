-- ===== src/Store/Memory/History/Bounded.antt =====
-- Every reachable MemoryStore has one entry for each key of its maps and respects its caps.
use tiny_url.Prelude.{◌≤◌, List, Text, [], ◌∷◌, arith, text_eq, length, Option-cases, inl, inr}
use tiny_url.Prelude.Int.{ℤ, int_eq}
use tiny_url.Prelude.Table.{
  Table, lookup, lookup-assign, lookup-remove, Once, Once-assign, Once-remove,
}
use tiny_url.Models.{UrlMapping, ClickEvent, ApiKey}
use tiny_url.Store.Memory.State.{
  MemoryStore, new_memory_store, memory_click_cap_per_code, memory_audit_cap, push_capped,
}
use tiny_url.Store.Memory.Urls.{set, delete, rotate_token, update, cleanup_expired}
use tiny_url.Store.Memory.Clicks.{events_of, record_click}
use tiny_url.Store.Memory.Keys.{
  create_api_key, find_key, lookup_api_key, delete_api_key, update_api_key_label,
}
use tiny_url.Store.Memory.Audit.{log_audit, numbered}
use tiny_url.Store.Memory.Maps.{Once-reap, Once-disown}
use tiny_url.Store.Memory.Clicklog.{length-push_capped}
use tiny_url.Store.Memory.History.{
  Call, setting, deleting, rotating, updating, clicking, creating_key, looking_up_key, deleting_key,
  labelling_key, auditing, cleaning, step, run,
}

-- The maps are maps.
pub record IsKeyed (s : MemoryStore) : Type 0 where
  pub urls_once : Once s.urls
  pub events_once : Once s.events
  pub keys_once : Once s.api_keys

module _ {s : MemoryStore} (h : IsKeyed s) where
  with_both :
      {urls : Table Text UrlMapping} {events : Table Text (List ClickEvent)}
      → Once urls
      → Once events
      → IsKeyed (record s { urls = urls; events = events })
  with_both p q = record { urls_once = p; events_once = q; keys_once = h.keys_once }

  with_urls : {urls : Table Text UrlMapping} → Once urls → IsKeyed (record s { urls = urls })
  with_urls p = record { urls_once = p; events_once = h.events_once; keys_once = h.keys_once }

  with_keys :
      {n : ℤ} {keys : Table ℤ ApiKey}
      → Once keys
      → IsKeyed (record s { next_key_id = n; api_keys = keys })
  with_keys p = record { urls_once = h.urls_once; events_once = h.events_once; keys_once = p }

step-IsKeyed : (c : Call) (s : MemoryStore) → IsKeyed s → IsKeyed (step c s)
unfolding step set delete rotate_token update record_click create_api_key lookup_api_key
    delete_api_key update_api_key_label log_audit cleanup_expired
step-IsKeyed (setting code m) s h = elim (Option-cases (lookup code s.urls)) [
  | inl e ↦ rw (e, step, set) (with_urls h (Once-assign code m s.urls h.urls_once))
  | inr (old, e) ↦ rw (e, step, set) h
]
step-IsKeyed (deleting code) s h = elim (Option-cases (lookup code s.urls)) [
  | inl e ↦ rw (e, step, delete) h
  | inr (m, e) ↦
      rw (e, step, delete)
        (with_both h (Once-remove code s.urls h.urls_once)
          (Once-remove code s.events h.events_once))
]
step-IsKeyed (rotating code hash) s h = elim (Option-cases (lookup code s.urls)) [
  | inl e ↦ rw (e, step, rotate_token) h
  | inr (m, e) ↦ rw (e, step, rotate_token) (with_urls h (Once-assign code _ s.urls h.urls_once))
]
step-IsKeyed (updating now code f) s h = elim (Option-cases (lookup code s.urls)) [
  | inl e ↦ rw (e, step, update) h
  | inr (m, e) ↦ rw (e, step, update) (with_urls h (Once-assign code _ s.urls h.urls_once))
]
step-IsKeyed (clicking code ev) s h = elim (Option-cases (lookup code s.urls)) [
  | inl e ↦ rw (e, step, record_click) h
  | inr (m, e) ↦
      rw (e, step, record_click)
        (with_both h (Once-assign code _ s.urls h.urls_once)
          (Once-assign code _ s.events h.events_once))
]
step-IsKeyed (creating_key now label hash) s h =
    with_keys h (Once-assign _ _ s.api_keys h.keys_once)
step-IsKeyed (looking_up_key now hash) s h = elim (Option-cases (find_key hash s.api_keys)) [
  | inl e ↦ rw (e, step, lookup_api_key) h
  | inr (k, e) ↦ rw (e, step, lookup_api_key) (with_keys h (Once-assign _ _ s.api_keys h.keys_once))
]
step-IsKeyed (deleting_key id) s h = elim (Option-cases (lookup id s.api_keys)) [
  | inl e ↦ rw (e, step, delete_api_key) h
  | inr (k, e) ↦
      rw (e, step, delete_api_key)
        (record {
          urls_once = Once-disown id s.urls h.urls_once;
          events_once = h.events_once;
          keys_once = Once-remove id s.api_keys h.keys_once;
        })
]
step-IsKeyed (labelling_key id label) s h = elim (Option-cases (lookup id s.api_keys)) [
  | inl e ↦ rw (e, step, update_api_key_label) h
  | inr (k, e) ↦
      rw (e, step, update_api_key_label) (with_keys h (Once-assign id _ s.api_keys h.keys_once))
]
step-IsKeyed (auditing now ev) s h = record {
  urls_once = h.urls_once;
  events_once = h.events_once;
  keys_once = h.keys_once;
}
step-IsKeyed (cleaning now) s h = with_urls h (Once-reap now s.urls h.urls_once)

-- No click log and no audit ring outgrows its cap.
pub record IsCapped (s : MemoryStore) : Type 0 where
  pub log_capped : (code : Text) → length (events_of code s) ≤ memory_click_cap_per_code
  pub audit_capped : length s.audit ≤ memory_audit_cap

step-IsCapped : (c : Call) (s : MemoryStore) → IsCapped s → IsCapped (step c s)
unfolding step set delete rotate_token update record_click create_api_key lookup_api_key
    delete_api_key update_api_key_label log_audit cleanup_expired
step-IsCapped (deleting code) s h = record {
  log_capped = λ j. ground (arith, h.log_capped j, lookup-remove code j s.events);
  audit_capped = ground (arith, h.audit_capped);
}
step-IsCapped (clicking code ev) s h = record {
  log_capped = λ j. ground (
    arith,
    h.log_capped j,
    h.log_capped code,
    lookup-assign code j (push_capped memory_click_cap_per_code (events_of code s) ev) s.events,
    length-push_capped memory_click_cap_per_code (events_of code s) ev,
  );
  audit_capped = ground (arith, h.audit_capped);
}
step-IsCapped (auditing now ev) s h = record {
  log_capped = h.log_capped;
  audit_capped =
      ground
        (arith, h.audit_capped, length-push_capped memory_audit_cap s.audit (numbered now ev s));
}
step-IsCapped c s h = record {
  log_capped = λ j. ground (arith, h.log_capped j);
  audit_capped = ground (arith, h.audit_capped);
}

run_keeps :
    (cs : List Call) (s : MemoryStore)
    → IsKeyed s
    → IsCapped s
    → IsKeyed (run cs s) × IsCapped (run cs s)
unfolding run
run_keeps [] s k h = (k, h)
run_keeps (c ∷ cs) s k h = run_keeps cs (step c s) (step-IsKeyed c s k) (step-IsCapped c s h)

-- However many calls are made on an empty store, in whatever order, each of its maps has one entry
-- for a key, no click log exceeds 1000 events and the audit ring does not exceed 1000.
pub run_bounded :
    (cs : List Call) → IsKeyed (run cs new_memory_store) × IsCapped (run cs new_memory_store)
run_bounded cs =
    run_keeps cs new_memory_store (record { urls_once = tt; events_once = tt; keys_once = tt })
      (record { log_capped = λ code. unfold lookup in omega arith; audit_capped = omega arith })
