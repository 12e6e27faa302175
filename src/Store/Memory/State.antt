-- ===== src/Store/Memory/State.antt =====
-- services/storage.go: the fields of MemoryStore, its caps, and what its methods share.
use tiny_url.Prelude.{
  List, Text, [], ◌∷◌, ◌++◌, drop, length, get_elem?, leb, if◌then◌else◌, ℕ, zero, suc, none, some,
}
use tiny_url.Prelude.Int.{ℤ, pos, le_int, pos_part}
use tiny_url.Prelude.Table.{Table}
use tiny_url.Models.{UrlMapping, ClickEvent, ApiKey, AuditEvent}

pub record MemoryStore : Type 0 where
  pub urls : Table Text UrlMapping
  pub events : Table Text (List ClickEvent)
  pub api_keys : Table ℤ ApiKey
  pub next_key_id : ℤ
  pub audit : List AuditEvent
  pub next_audit_id : ℤ

abbrev pub memory_click_cap_per_code : ℕ
memory_click_cap_per_code = 1000

abbrev pub memory_audit_cap : ℕ
memory_audit_cap = 1000

abbrev pub new_memory_store : MemoryStore
new_memory_store = record {
  urls = [];
  events = [];
  api_keys = [];
  next_key_id = pos 0;
  audit = [];
  next_audit_id = pos 0;
}

module _ {ℓ} {A : Type ℓ} where
  -- The bounded append of RecordClick and LogAudit: at the cap, the oldest entry goes first.
  unfoldable pub push_capped : ℕ → List A → A → List A
  push_capped cap list x = if leb cap (length list) then drop 1 list ++ x ∷ [] else list ++ x ∷ []

  -- list[end-1], list[end-2], …, `rounds` of them: the loops of RecentClicks and
  -- RecentAuditEvents. The two cases with no element are out of their range.
  unfoldable pub walk_back : List A → ℕ → ℕ → List A
  walk_back list end zero = []
  walk_back list zero (suc k) = []
  walk_back list (suc e) (suc k) = elim (get_elem? list e) [
    | none ↦ []
    | some x ↦ x ∷ walk_back list e k
  ]

-- if limit <= 0 { limit = 50 }
abbrev pub default_limit : ℤ → ℕ
default_limit limit = if le_int limit (pos 0) then 50 else pos_part limit
