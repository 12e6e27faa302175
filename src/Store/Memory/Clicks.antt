-- ===== src/Store/Memory/Clicks.antt =====
-- services/storage.go: RecordClick and RecentClicks of MemoryStore.
use tiny_url.Prelude.{List, Text, Option, none, some, [], length, ltb, if◌then◌else◌, text_eq}
use tiny_url.Prelude.Int.{ℤ, pos}
use tiny_url.Prelude.Words.{add64}
use tiny_url.Prelude.Table.{lookup, assign}
use tiny_url.Models.{UrlMapping, ClickEvent}
use tiny_url.Store.{Result, ok, err, not_found, Done}
use tiny_url.Store.Memory.State.{
  MemoryStore, memory_click_cap_per_code, push_capped, walk_back, default_limit,
}

-- s.events[code], which is nil for a missing key
abbrev pub or_nil {ℓ} : {A : Type ℓ} → Option (List A) → List A
or_nil none = []
or_nil (some list) = list

abbrev pub events_of : Text → MemoryStore → List ClickEvent
events_of code s = or_nil (lookup code s.events)

abbrev pub counted : ClickEvent → UrlMapping → UrlMapping
counted ev m = record m { click_count = add64 m.click_count (pos 1); last_accessed = some ev.at }

unfoldable pub record_click : Text → ClickEvent → MemoryStore → Result Done × MemoryStore
record_click code ev s = elim (lookup code s.urls) [
  | none ↦ (err not_found, s)
  | some m ↦ (
    ok tt,
    record s {
      urls = assign code (counted ev m) s.urls;
      events = assign code (push_capped memory_click_cap_per_code (events_of code s) ev) s.events;
    },
  )
]

unfoldable pub recent_clicks : Text → ℤ → MemoryStore → Result (List ClickEvent)
recent_clicks code limit s = elim (lookup code s.urls) [
  | none ↦ err not_found
  | some m ↦
      let list = events_of code s in
      let n = default_limit limit in
      ok (walk_back list (length list) (if ltb (length list) n then length list else n))
]
