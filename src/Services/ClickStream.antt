-- ===== src/Services/ClickStream.antt =====
-- services/clickstream.go. The subscriptions are objects that the stream, the publishers and the SSE
-- handlers share: they stand in a heap, under a number each. A move is one section under one lock, so
-- that the lists of moves are the interleavings. `none` is a panic of Go's channels: a send on a closed
-- channel, or a second close.
pub mod Sound
pub mod Delivered
use tiny_url.Prelude.{
  ℕ, zero, suc, List, Text, Bool, true, false, Option, none, some, [], ◌∷◌, ◌++◌, length, ltb, ◌==◌,
  text_eq, nat_eq, if◌then◌else◌,
}
use tiny_url.Prelude.Table.{Table, lookup, assign, remove}
use tiny_url.Models.{ClickEvent}

-- A channel of click events: what is buffered, oldest first, and whether it is closed
pub record Channel : Type 0 where
  pub buffered : List ClickEvent
  pub is_closed : Bool

abbrev pub channel_size : ℕ
channel_size = 8

-- select { case ch <- ev: default: }
unfoldable pub send_or_drop : ClickEvent → Channel → Option Channel
send_or_drop ev ch =
    if ch.is_closed
    then none
    else if ltb (length ch.buffered) channel_size
    then some (record ch { buffered = ch.buffered ++ ev ∷ [] })
    else some ch

-- close(ch)
unfoldable pub close_channel : Channel → Option Channel
close_channel ch = if ch.is_closed then none else some (record ch { is_closed = true })

-- <-ch, for a receiver that finds the buffer empty and waits or ends
unfoldable pub receive : Channel → Channel
receive ch = elim ch.buffered [ [] ↦ ch | ev ∷ rest ↦ record ch { buffered = rest } ]

pub record Subscription : Type 0 where
  pub code : Text
  pub ch : Channel
  pub closed : Bool

abbrev pub with_channel : Subscription → Option Channel → Option Subscription
with_channel sub none = none
with_channel sub (some ch) = some (record sub { ch = ch })

unfoldable pub try_send : ClickEvent → Subscription → Option Subscription
try_send ev sub = if sub.closed then some sub else with_channel sub (send_or_drop ev sub.ch)

-- The section of Close that holds the subscription's lock
unfoldable pub close : Subscription → Option Subscription
close sub =
    if sub.closed
    then some sub
    else with_channel (record sub { closed = true }) (close_channel sub.ch)

abbrev pub Numbers : Type 0
Numbers = Table ℕ (Unit {0})

-- `subs` is the stream's map of sets, `heap` holds the subscriptions, and `next` is a free number.
pub record ClickStream : Type 0 where
  pub subs : Table Text Numbers
  pub heap : Table ℕ Subscription
  pub next : ℕ

abbrev pub new_click_stream : ClickStream
new_click_stream = record { subs = []; heap = []; next = 0 }

-- s.subs[code], which is empty for a missing key
abbrev pub or_empty : Option Numbers → Numbers
or_empty none = []
or_empty (some set) = set

abbrev pub new_subscription : Text → Subscription
new_subscription code = record {
  code = code;
  ch = record { buffered = []; is_closed = false };
  closed = false;
}

unfoldable pub subscribe : Text → ClickStream → ClickStream
subscribe code s = record {
  subs = assign code (assign s.next tt (or_empty (lookup code s.subs))) s.subs;
  heap = assign s.next (new_subscription code) s.heap;
  next = suc s.next;
}

unfoldable pub unsubscribe : ℕ → ClickStream → ClickStream
unsubscribe id s = elim (lookup id s.heap) [
  | none ↦ s
  | some sub ↦
      let set = remove id (or_empty (lookup sub.code s.subs)) in
      if length set == 0
      then record s { subs = remove sub.code s.subs }
      else record s { subs = assign sub.code set s.subs }
]

unfoldable pub subscriber_count : Text → ClickStream → ℕ
subscriber_count code s = length (or_empty (lookup code s.subs))

-- A change of one subscription that may panic
unfoldable pub change : (Subscription → Option Subscription) → ℕ → ClickStream → Option ClickStream
change f id s = elim (lookup id s.heap) [
  | none ↦ some s
  | some sub ↦ elim (f sub) [
    | none ↦ none
    | some new ↦ some (record s { heap = assign id new s.heap })
  ]
]

-- The loop of Publish over the snapshot
unfoldable pub send_all : ClickEvent → Numbers → ClickStream → Option ClickStream
send_all ev [] s = some s
send_all ev ((id, _) ∷ ids) s = elim (change (try_send ev) id s) [
  | none ↦ none
  | some after ↦ send_all ev ids after
]

unfoldable pub publish : Text → ClickEvent → ClickStream → Option ClickStream
publish code ev s = send_all ev (or_empty (lookup code s.subs)) s

-- The sections of all goroutines, a publisher's sends one by one
pub data Move : Type 0 where
  subscribes : Text → Move
  closes : ℕ → Move
  unsubscribes : ℕ → Move
  sends : ClickEvent → ℕ → Move
  receives : ℕ → Move

unfoldable pub move : Move → ClickStream → Option ClickStream
move (subscribes code) s = some (subscribe code s)
move (closes id) s = change close id s
move (unsubscribes id) s = some (unsubscribe id s)
move (sends ev id) s = change (try_send ev) id s
move (receives id) s = change (λ sub. some (record sub { ch = receive sub.ch })) id s

unfoldable pub run : List Move → ClickStream → Option ClickStream
unfolding move
run [] s = some s
run (m ∷ moves) s = elim (move m s) [ none ↦ none | some after ↦ run moves after ]
