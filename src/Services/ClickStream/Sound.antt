-- ===== src/Services/ClickStream/Sound.antt =====
-- services/clickstream.go: no interleaving panics, and no buffer overflows.
use tiny_url.Prelude.{
  ℕ, suc, ◌≤◌, ◌<◌, List, Text, true, Option, some, [], ◌∷◌, ◌++◌, ◌≡◌, refl, ap, ◌∙◌, inl, inr,
  arith, All, length, length-append, ltb, ◌==◌, Bool-cases, Option-cases, text_eq, nat_eq,
  All-weaken,
}
use tiny_url.Prelude.Table.{
  Table, lookup, assign, remove, Once, Once-assign, Once-remove, All-assign, All-remove, All-lookup,
}
use tiny_url.Models.{ClickEvent}
use tiny_url.Services.ClickStream.{
  Channel, channel_size, send_or_drop, close_channel, receive, Subscription, try_send, close,
  Numbers, ClickStream, new_click_stream, or_empty, new_subscription, subscribe, unsubscribe,
  change, Move, subscribes, closes, unsubscribes, sends, receives, move, run,
}

-- The flag says whether the channel is closed, and the buffer is within its size.
abbrev pub IsSound : Subscription → Type 0
IsSound sub = (sub.ch.is_closed ≡ sub.closed) × (length sub.ch.buffered ≤ channel_size)

-- Every subscription is sound and has a number below the free one, and so have the registered ones,
-- each of which is registered once.
pub record AreSound (s : ClickStream) : Type 0 where
  pub sound : All (λ entry. (entry.0 < s.next) × IsSound entry.1) s.heap
  pub registered : All (λ entry. Once entry.1 × All (λ e. e.0 < s.next) entry.1) s.subs

-- A change that keeps a subscription sound, and does not panic on a sound one
abbrev pub Keeps : (Subscription → Option Subscription) → Type 0
Keeps f =
    (sub : Subscription) → IsSound sub → (new : Subscription) × (f sub ≡ some new) × IsSound new

pub try_send-Keeps : (ev : ClickEvent) → Keeps (try_send ev)
unfolding try_send send_or_drop
try_send-Keeps ev sub (agree, fits) = elim (Bool-cases sub.closed) [
  | inl shut ↦ (sub, rw (shut, try_send) refl, (agree, fits))
  | inr open_ ↦ elim (Bool-cases (ltb (length sub.ch.buffered) channel_size)) [
    | inl room ↦ (
      record sub { ch = record sub.ch { buffered = sub.ch.buffered ++ ev ∷ [] } },
      rw (open_, agree ∙ open_, room, try_send, send_or_drop) refl,
      (agree, ground (arith, length-append sub.ch.buffered (ev ∷ []))),
    )
    | inr full ↦ (sub, rw (open_, agree ∙ open_, full, try_send, send_or_drop) refl, (agree, fits))
  ]
]

close-Keeps : Keeps close
unfolding close close_channel
close-Keeps sub (agree, fits) = elim (Bool-cases sub.closed) [
  | inl shut ↦ (sub, rw (shut, close) refl, (agree, fits))
  | inr open_ ↦ (
    record sub { closed = true; ch = record sub.ch { is_closed = true } },
    rw (open_, agree ∙ open_, close, close_channel) refl,
    (refl, fits),
  )
]

receive_cases :
    (ch : Channel) (buffer : List ClickEvent)
    → ch.buffered ≡ buffer
    → ((receive ch).is_closed ≡ ch.is_closed) × (length (receive ch).buffered ≤ length ch.buffered)
unfolding receive
receive_cases ch [] e = rw (e, receive) (refl, omega (arith, ap length e))
receive_cases ch (ev ∷ rest) e = rw (e, receive) (refl, omega arith)

receive_shrinks :
    (ch : Channel)
    → ((receive ch).is_closed ≡ ch.is_closed) × (length (receive ch).buffered ≤ length ch.buffered)
unfolding receive
receive_shrinks ch = receive_cases ch ch.buffered refl

receive-Keeps : Keeps (λ sub. some (record sub { ch = receive sub.ch }))
receive-Keeps sub (agree, fits) =
    let (closed, shorter) = receive_shrinks sub.ch in
    (record sub { ch = receive sub.ch }, refl, (closed ∙ agree, omega (arith, shorter, fits)))

-- A set of numbers below a bound, each once
abbrev AreBelow : ℕ → Numbers → Type 0
AreBelow n set = Once set × All (λ e. e.0 < n) set

pub set_of :
    (code : Text) (n : ℕ) (t : Table Text Numbers)
    → All (λ entry. AreBelow n entry.1) t
    → AreBelow n (or_empty (lookup code t))
set_of code n t h = elim (Option-cases (lookup code t)) [
  | inl missing ↦ rw missing (tt, tt)
  | inr (set, there) ↦ rw there (All-lookup (λ entry. AreBelow n entry.1) code set t h there)
]

pub change-AreSound :
    (f : Subscription → Option Subscription) (id : ℕ) (s : ClickStream)
    → Keeps f
    → AreSound s
    → (after : ClickStream) × (change f id s ≡ some after) × AreSound after × (after.subs ≡ s.subs)
unfolding change
change-AreSound f id s keeps h = elim (Option-cases (lookup id s.heap)) [
  | inl missing ↦ (s, rw (missing, change) refl, h, refl)
  | inr (sub, there) ↦
      let (low, sound) =
        All-lookup (λ entry. (entry.0 < s.next) × IsSound entry.1) id sub s.heap h.sound there in
      let (new, changed, kept) = keeps sub sound in
      (
        record s { heap = assign id new s.heap },
        rw (there, changed, change) refl,
        record {
          sound =
              All-assign (λ entry. (entry.0 < s.next) × IsSound entry.1) id new s.heap (low, kept)
                h.sound;
          registered = h.registered;
        },
        refl,
      )
]

subscribe-AreSound : (code : Text) (s : ClickStream) → AreSound s → AreSound (subscribe code s)
unfolding subscribe
subscribe-AreSound code s h =
    let (once, below) = set_of code s.next s.subs h.registered in
    let below' =
      All-weaken (λ e. e.0 < s.next) (λ e. e.0 < suc s.next) _ (λ e p. omega arith) below in
    record {
      sound =
          All-assign (λ entry. (entry.0 < suc s.next) × IsSound entry.1) s.next
            (new_subscription code) s.heap (omega arith, (refl, omega arith))
            (All-weaken _ _ s.heap (λ e p. (omega (arith, p.0), p.1)) h.sound);
      registered =
          All-assign (λ entry. AreBelow (suc s.next) entry.1) code _ s.subs
            (
              Once-assign s.next tt _ once,
              All-assign (λ e. e.0 < suc s.next) s.next tt _ (omega arith) below',
            )
            (All-weaken _ _ s.subs (λ e p. (p.0, All-weaken _ _ e.1 (λ n q. omega (arith, q)) p.1))
              h.registered);
    }

unsubscribe-AreSound : (id : ℕ) (s : ClickStream) → AreSound s → AreSound (unsubscribe id s)
unfolding unsubscribe
unsubscribe-AreSound id s h = elim (Option-cases (lookup id s.heap)) [
  | inl missing ↦ rw (missing, unsubscribe) h
  | inr (sub, there) ↦
      let (once, below) = set_of sub.code s.next s.subs h.registered in
      let set = remove id (or_empty (lookup sub.code s.subs)) in
      elim (Bool-cases (length set == 0)) [
        | inl last ↦
            rw (there, last, unsubscribe)
              (record {
                sound = h.sound;
                registered =
                    All-remove (λ entry. AreBelow s.next entry.1) sub.code s.subs h.registered;
              })
        | inr more ↦
            rw (there, more, unsubscribe)
              (record {
                sound = h.sound;
                registered =
                    All-assign (λ entry. AreBelow s.next entry.1) sub.code set s.subs
                      (Once-remove id _ once, All-remove (λ e. e.0 < s.next) id _ below)
                      h.registered;
              })
      ]
]

move-AreSound :
    (m : Move) (s : ClickStream)
    → AreSound s
    → (after : ClickStream) × (move m s ≡ some after) × AreSound after
unfolding move
move-AreSound (subscribes code) s h = (_, refl, subscribe-AreSound code s h)
move-AreSound (closes id) s h =
    let (after, e, kept, _) = change-AreSound close id s close-Keeps h in (after, e, kept)
move-AreSound (unsubscribes id) s h = (_, refl, unsubscribe-AreSound id s h)
move-AreSound (sends ev id) s h =
    let (after, e, kept, _) = change-AreSound (try_send ev) id s (try_send-Keeps ev) h in
    (after, e, kept)
move-AreSound (receives id) s h =
    let (after, e, kept, _) = change-AreSound _ id s receive-Keeps h in (after, e, kept)

pub run-AreSound :
    (moves : List Move) (s : ClickStream)
    → AreSound s
    → (after : ClickStream) × (run moves s ≡ some after) × AreSound after
unfolding run
run-AreSound [] s h = (s, refl, h)
run-AreSound (m ∷ moves) s h =
    let (mid, e, kept) = move-AreSound m s h in
    let (after, f, sound) = run-AreSound moves mid kept in (after, rw (e, run) f, sound)

-- Any interleaving of subscriptions, closes, publishers' sends and receives, from a new stream: no send
-- meets a closed channel and no channel is closed twice, so that nothing panics, and afterwards every
-- subscription's flag tells whether its channel is closed and buffers at most 8 events, and every
-- registered subscription is registered once.
pub run_safe :
    (moves : List Move)
    → (after : ClickStream) × (run moves new_click_stream ≡ some after) × AreSound after
run_safe moves = run-AreSound moves new_click_stream (record { sound = tt; registered = tt })
