-- ===== src/Handlers/Stream.antt =====
-- handlers/stream.go: the events that the owner of a mapping is sent. `marshal` is json.Marshal, `none`
-- for an error. What ServeHTTP asks first is Handlers.Gates.admit, but that an expired mapping's answer
-- has no body.
use tiny_url.Prelude.{List, Text, Bool, Option, none, some, [], ◌∷◌, ◌++◌, codes, if◌then◌else◌}
use tiny_url.Models.{ClickEvent}

-- What the select of the loop wakes up for
pub data Signal : Type 0 where
  disconnected : Signal
  closed : Signal
  click : ClickEvent → Signal
  heartbeat : Signal

-- What a turn of the loop writes, `none` if the loop returns; [] is nothing.
unfoldable pub frame : (ClickEvent → Option Text) → Signal → Option Text
frame marshal disconnected = none
frame marshal closed = none
frame marshal (click ev) = elim (marshal ev) [
  | none ↦ some []
  | some data_ ↦ some (codes "event: click\ndata: " ++ data_ ++ codes "\n\n")
]
frame marshal heartbeat = some (codes ": heartbeat\n\n")

-- The loop: the texts written for a list of signals, each with whether its write succeeds
unfoldable pub frames : (ClickEvent → Option Text) → List (Signal × Bool) → List Text
frames marshal [] = []
frames marshal ((signal, written) ∷ signals) =
    let rest = frames marshal signals in
    elim (frame marshal signal) [
      | none ↦ []
      | some [] ↦ rest
      | some (c ∷ text) ↦ if written then (c ∷ text) ∷ rest else []
    ]

unfoldable pub stream_body : (ClickEvent → Option Text) → List (Signal × Bool) → List Text
unfolding frames
stream_body marshal signals = codes ": connected\n\n" ∷ frames marshal signals
