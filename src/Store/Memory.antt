-- ===== src/Store/Memory.antt =====
-- services/storage.go: MemoryStore. Every method holds the store's mutex throughout, so a method is
-- one step. A stored mapping or key is changed through its pointer, which is here an assignment of
-- the changed record to its map entry; Get copies the record, so no caller shares it.
pub mod State
pub mod Urls
mod Maps
pub mod Paging
pub mod Listed
pub mod Ownership
pub mod KeyLookup
pub mod Compare
pub mod History
pub mod Clicklog
pub mod Lifecycle
pub mod Clicks
pub mod Keys
pub mod Audit
pub mod Listing
pub mod Series
pub mod Contract
pub mod Buckets
pub mod Windows
use tiny_url.Prelude.{List, Text, [], ◌∷◌, ◌++◌, drop, length, leb, if◌then◌else◌, ℕ}
use tiny_url.Prelude.Int.{ℤ, pos, le_int, pos_part}
use tiny_url.Prelude.Table.{Table}
use tiny_url.Models.{UrlMapping, ClickEvent, ApiKey, AuditEvent}
