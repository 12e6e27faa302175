-- ===== src/Store/Memory/History/Agreement.antt =====
-- The click counter of a mapping and its click log, along the life of a MemoryStore in which no
-- cleanup pass runs. (Lifecycle shows what a cleanup pass does to them.)
use tiny_url.Prelude.{
  ℕ, suc, ◌+◌, ◌≤◌, ◌<◌, min, List, Text, Option, none, some, [], ◌∷◌, ◌≡◌, refl, ap, ◌∙◌, arith,
  same, same_iff, text_eq, length, All, Option-cases, Bool-cases, inl, inr,
}
use tiny_url.Prelude.Int.{pos, pos_part, int_eq}
use tiny_url.Prelude.Words.{max_int64, add64, add64-pos}
use tiny_url.Prelude.Table.{lookup, assign, lookup-assign, lookup-remove}
use tiny_url.Models.{UrlMapping, ClickEvent}
use tiny_url.Store.Memory.State.{
  MemoryStore, new_memory_store, memory_click_cap_per_code, push_capped,
}
use tiny_url.Store.Memory.Urls.{set, delete, rotate_token, apply_update, update}
use tiny_url.Store.Memory.Clicks.{or_nil, events_of, counted, record_click}
use tiny_url.Store.Memory.Keys.{
  create_api_key, lookup_api_key, delete_api_key, update_api_key_label,
}
use tiny_url.Store.Memory.Audit.{log_audit}
use tiny_url.Store.Memory.Maps.{lookup-disown}
use tiny_url.Store.Memory.Clicklog.{length-push_capped}
use tiny_url.Store.Memory.History.{
  Call, setting, deleting, rotating, updating, clicking, deleting_key, cleaning, step, run,
}

-- A mapping's log holds its clicks, or the last 1000 of them; an unknown code has none.
abbrev pub Agrees : ℕ → Option UrlMapping → List ClickEvent → Type 0
Agrees n none list = length list ≡ 0
Agrees n (some m) list =
    (m.click_count ≡ pos (pos_part m.click_count))
    × (pos_part m.click_count ≤ n)
    × (length list ≡ min memory_click_cap_per_code (pos_part m.click_count))

-- The store after at most `n` calls.
abbrev pub AllAgree : ℕ → MemoryStore → Type 0
AllAgree n s = (code : Text) → Agrees n (lookup code s.urls) (events_of code s)

-- Mappings are new when they are set, as the shorten handler's are, and no cleanup pass runs.
abbrev pub IsPlain : Call → Type 0
IsPlain (setting code m) = m.click_count ≡ pos 0
IsPlain (cleaning now) = ⊥
IsPlain _ = Unit

Agrees-mono :
    (n k : ℕ) (o : Option UrlMapping) (list : List ClickEvent)
    → n ≤ k
    → Agrees n o list
    → Agrees k o list
Agrees-mono n k none list le h = h
Agrees-mono n k (some m) list le (whole, few, log) = (whole, omega arith, log)

Agrees-counted :
    (n : ℕ) (m : UrlMapping) (list : List ClickEvent) (ev : ClickEvent)
    → n < max_int64
    → Agrees n (some m) list
    → Agrees (suc n) (some (counted ev m)) (push_capped memory_click_cap_per_code list ev)
Agrees-counted n m list ev room (whole, few, log) =
    let k = pos_part m.click_count in
    let next : add64 m.click_count (pos 1) ≡ pos (k + 1) =
      ap (λ c. add64 c (pos 1)) whole ∙ add64-pos k 1 (omega arith) in
    ground (arith, next, length-push_capped memory_click_cap_per_code list ev)

Agrees-modified :
    (n : ℕ) (code j : Text) (m m' : UrlMapping) (s : MemoryStore)
    → lookup code s.urls ≡ some m
    → m'.click_count ≡ m.click_count
    → AllAgree n s
    → Agrees (suc n) (lookup j (assign code m' s.urls)) (events_of j s)
Agrees-modified n code j m m' s e same_count h =
    ground (arith, h j, h code, lookup-assign code j m' s.urls, same_iff code j)

Agrees-clicked :
    (n : ℕ) (code j : Text) (m : UrlMapping) (ev : ClickEvent) (s : MemoryStore)
    → lookup code s.urls ≡ some m
    → n < max_int64
    → AllAgree n s
    → Agrees (suc n) (lookup j (assign code (counted ev m) s.urls)) (
        or_nil (
          lookup j
            (assign code (push_capped memory_click_cap_per_code (events_of code s) ev) s.events)))
Agrees-clicked n code j m ev s e room h = elim (Bool-cases (same code j)) [
  | inl at ↦
      simp (lookup-assign, at) (Agrees-counted n m (events_of code s) ev room (rw e at (h code)))
  | inr off ↦
      simp (lookup-assign, off)
        (Agrees-mono n (suc n) (lookup j s.urls) (events_of j s) (omega arith) (h j))
]

step-AllAgree :
    (n : ℕ) (c : Call) (s : MemoryStore)
    → n < max_int64
    → IsPlain c
    → AllAgree n s
    → AllAgree (suc n) (step c s)
unfolding step set delete rotate_token update record_click create_api_key lookup_api_key
    delete_api_key update_api_key_label log_audit
step-AllAgree n (setting code m) s room p h j =
    ground (arith, h j, h code, lookup-assign code j m s.urls, same_iff code j)
step-AllAgree n (deleting code) s room p h j =
    ground (arith, h j, lookup-remove code j s.urls, lookup-remove code j s.events)
step-AllAgree n (rotating code hash) s room p h j = elim (Option-cases (lookup code s.urls)) [
  | inl e ↦ ground (arith, h j)
  | inr (m, e) ↦ rw (e, step, rotate_token) (Agrees-modified n code j m _ s e refl h)
]
step-AllAgree n (updating now code f) s room p h j = elim (Option-cases (lookup code s.urls)) [
  | inl e ↦ ground (arith, h j)
  | inr (m, e) ↦
      rw (e, step, update)
        (Agrees-modified n code j m (apply_update now f m) s e (unfold apply_update in refl) h)
]
step-AllAgree n (clicking code ev) s room p h j = elim (Option-cases (lookup code s.urls)) [
  | inl e ↦ ground (arith, h j)
  | inr (m, e) ↦ rw (e, step, record_click) (Agrees-clicked n code j m ev s e room h)
]
step-AllAgree n (deleting_key id) s room p h j = elim (Option-cases (lookup id s.api_keys)) [
  | inl e ↦ ground (arith, h j)
  | inr (k, e) ↦ ground (arith, h j, lookup-disown id j s.urls)
]
step-AllAgree n (cleaning now) s room p h j = absurd p
step-AllAgree n c s room p h j = ground (arith, h j)

run-AllAgree :
    (n : ℕ) (cs : List Call) (s : MemoryStore)
    → n + length cs ≤ max_int64
    → All IsPlain cs
    → AllAgree n s
    → AllAgree (n + length cs) (run cs s)
unfolding run
run-AllAgree n [] s room p h j = Agrees-mono n (n + 0) _ _ (omega arith) (h j)
run-AllAgree n (c ∷ cs) s room (p, ps) h j =
    Agrees-mono (suc n + length cs) (n + length (c ∷ cs)) _ _ (omega arith) (
      run-AllAgree (suc n) cs (step c s) (omega arith) ps (step-AllAgree n c s (omega arith) p h) j)

-- As long as mappings are new when they are set and no cleanup pass runs, a mapping's click log holds
-- as many events as its click counter says, or 1000 if it says more, and an unknown code has no log.
-- This holds for any fewer than 2^63 calls on an empty store.
pub run-Agrees :
    (cs : List Call) (code : Text)
    → length cs ≤ max_int64
    → All IsPlain cs
    → Agrees
        (length cs)
        (lookup code (run cs new_memory_store).urls)
        (events_of code (run cs new_memory_store))
run-Agrees cs code room p =
    Agrees-mono (0 + length cs) (length cs) _ _ (omega arith)
      (run-AllAgree 0 cs new_memory_store (omega arith) p (λ j. unfold lookup in omega arith) code)
