-- ===== src/Tests/Live.antt =====
-- The live click stream and the life of a MemoryStore, at concrete moves and calls.
use tiny_url.Prelude.{ℕ, List, some, [], ◌∷◌, ◌≡◌, refl, codes, is_some, text_eq, nat_eq}
use tiny_url.Prelude.Int.{pos, int_eq}
use tiny_url.Prelude.Table.{lookup, assign}
use tiny_url.Models.{ClickEvent}
use tiny_url.Store.Memory.State.{new_memory_store}
use tiny_url.Store.Memory.Urls.{get, exists}
use tiny_url.Store.Memory.Keys.{get_api_key}
use tiny_url.Store.Memory.History.{Call, setting, deleting, creating_key, deleting_key, cleaning}
use tiny_url.Store.Memory.History
use tiny_url.Store.Memory.History.Refinement.{empty_shelf, replay}
use tiny_url.Store.Memory.History.Simulation.{shelf_get, is_found, run_refines}
use tiny_url.Services.ClickStream.{
  ClickStream, Move, subscribes, closes, unsubscribes, sends, new_click_stream, new_subscription,
  or_empty, run, move, publish, subscribe,
}
use tiny_url.Services.ClickStream.Sound.{AreSound, run_safe}
use tiny_url.Services.ClickStream.Delivered.{offered?, publish_delivers}
use tiny_url.Tests.Data.{abc, mapping}

abbrev calls : List Call
calls =
    setting abc mapping ∷ creating_key (pos 3) (codes "ops") (codes "hash") ∷ cleaning (pos 9) ∷ []

run_refines_example :
    let s = History.run calls new_memory_store in
    let a = replay calls empty_shelf in
    (get (pos 9) abc s ≡ shelf_get (pos 9) (a.at abc))
    × (exists abc s ≡ is_some (a.at abc))
    × (is_found (get_api_key (pos 1) s) ≡ a.known (pos 1))
run_refines_example = run_refines calls (pos 9) abc (pos 1)

abbrev ping : ClickEvent
ping = record {
  at = pos 3;
  ip_hash = [];
  referer = [];
  ua_class = [];
  country = [];
  destination_url = [];
}

-- A close between the snapshot of a publisher and its send
abbrev race : List Move
race = subscribes abc ∷ subscribes abc ∷ closes 0 ∷ sends ping 0 ∷ unsubscribes 0 ∷ closes 0 ∷ []

run_safe_example : (after : ClickStream) × (run race new_click_stream ≡ some after) × AreSound after
run_safe_example = run_safe race

abbrev one_listener : ClickStream
one_listener = record {
  subs = (abc, (0, tt) ∷ []) ∷ [];
  heap = (0, new_subscription abc) ∷ [];
  next = 1;
}

publish_delivers_example :
    let listed = or_empty (lookup abc one_listener.subs) in
    (after : ClickStream) × (publish abc ping one_listener ≡ some after)
    × ((j : ℕ)
        → lookup j after.heap
          ≡ offered? (is_some (lookup j listed)) ping (lookup j one_listener.heap))
unfolding run move subscribe assign lookup
publish_delivers_example = publish_delivers (subscribes abc ∷ []) one_listener abc ping refl
