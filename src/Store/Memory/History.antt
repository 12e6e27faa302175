-- ===== src/Store/Memory/History.antt =====
-- services/storage.go: a MemoryStore's life as the sequence of the writing methods that its mutex
-- admits one after another, whatever goroutines call them, and of the cleanup passes.
pub mod Bounded
pub mod Numbering
pub mod Agreement
pub mod Refinement
pub mod Keyring
pub mod Simulation
use tiny_url.Prelude.{List, Text, [], ◌∷◌}
use tiny_url.Prelude.Int.{ℤ}
use tiny_url.Models.{Time, UrlMapping, ClickEvent, AuditEvent}
use tiny_url.Store.{UpdateFields}
use tiny_url.Store.Memory.State.{MemoryStore}
use tiny_url.Store.Memory.Urls.{set, delete, rotate_token, update, cleanup_expired}
use tiny_url.Store.Memory.Clicks.{record_click}
use tiny_url.Store.Memory.Keys.{
  create_api_key, lookup_api_key, delete_api_key, update_api_key_label,
}
use tiny_url.Store.Memory.Audit.{log_audit}

pub data Call : Type 0 where
  setting : Text → UrlMapping → Call
  deleting : Text → Call
  rotating : Text → Text → Call
  updating : Time → Text → UpdateFields → Call
  clicking : Text → ClickEvent → Call
  creating_key : Time → Text → Text → Call
  looking_up_key : Time → Text → Call
  deleting_key : ℤ → Call
  labelling_key : ℤ → Text → Call
  auditing : Time → AuditEvent → Call
  cleaning : Time → Call

unfoldable pub step : Call → MemoryStore → MemoryStore
step (setting code m) s = (set code m s).1
step (deleting code) s = (delete code s).1
step (rotating code hash) s = (rotate_token code hash s).1
step (updating now code f) s = (update now code f s).1
step (clicking code ev) s = (record_click code ev s).1
step (creating_key now label hash) s = (create_api_key now label hash s).1
step (looking_up_key now hash) s = (lookup_api_key now hash s).1
step (deleting_key id) s = (delete_api_key id s).1
step (labelling_key id label) s = (update_api_key_label id label s).1
step (auditing now ev) s = (log_audit now ev s).1
step (cleaning now) s = cleanup_expired now s

unfoldable pub run : List Call → MemoryStore → MemoryStore
run [] s = s
run (c ∷ cs) s = run cs (step c s)
