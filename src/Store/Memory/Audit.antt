-- ===== src/Store/Memory/Audit.antt =====
-- services/storage.go: the audit ring of MemoryStore.
use tiny_url.Prelude.{List, ◌-◌, [], length, leb, if◌then◌else◌}
use tiny_url.Prelude.Int.{ℤ, pos, pos_part, same_int}
use tiny_url.Prelude.Words.{add64}
use tiny_url.Models.{Time, AuditEvent}
use tiny_url.Store.{Result, ok, Done}
use tiny_url.Store.Memory.State.{
  MemoryStore, memory_audit_cap, push_capped, walk_back, default_limit,
}

-- ev.At.IsZero()
abbrev pub stamped : Time → Time → Time
stamped now at = if same_int at (pos 0) then now else at

-- The event as it is stored: numbered, and stamped if it has no time.
abbrev pub numbered : Time → AuditEvent → MemoryStore → AuditEvent
numbered now ev s = record ev { id = add64 s.next_audit_id (pos 1); at = stamped now ev.at }

unfoldable pub log_audit : Time → AuditEvent → MemoryStore → Result Done × MemoryStore
log_audit now ev s = (
  ok tt,
  record s {
    next_audit_id = add64 s.next_audit_id (pos 1);
    audit = push_capped memory_audit_cap s.audit (numbered now ev s);
  },
)

-- A negative offset counts as 0, which is its positive part; `start` is `end - limit`, and 0 where
-- that is negative, which is how `-` stops.
unfoldable pub recent_audit_events : ℤ → ℤ → MemoryStore → Result (List AuditEvent)
recent_audit_events limit offset s =
    let total = length s.audit in
    let end = total - pos_part offset in
    let start = end - default_limit limit in
    if leb total (pos_part offset) then ok [] else ok (walk_back s.audit end (end - start))
