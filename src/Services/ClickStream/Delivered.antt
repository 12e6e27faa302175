-- ===== src/Services/ClickStream/Delivered.antt =====
-- services/clickstream.go: what a Publish delivers.
use mathlib.Core.Path.{subst}
use tiny_url.Prelude.{
  ℕ, ◌<◌, List, Text, Bool, true, false, Option, none, some, [], ◌∷◌, ◌++◌, ◌≡◌, refl, sym, ap, ◌∙◌,
  inl, inr, length, ltb, ◌==◌, ==_iff, Bool-cases, Option-cases, is_some, some_inj, text_eq, nat_eq,
  if◌then◌else◌,
}
use tiny_url.Prelude.Table.{lookup, assign, Once, lookup-assign, All-lookup}
use tiny_url.Models.{ClickEvent}
use tiny_url.Services.ClickStream.{
  channel_size, send_or_drop, Subscription, try_send, Numbers, ClickStream, new_click_stream,
  or_empty, change, send_all, publish, Move, run,
}
use tiny_url.Services.ClickStream.Sound.{
  IsSound, AreSound, try_send-Keeps, change-AreSound, set_of, run_safe,
}

-- A subscription after an event: it has it at the end of its buffer, if it is open and has room.
unfoldable pub offered : ClickEvent → Subscription → Subscription
offered ev sub =
    if sub.closed
    then sub
    else if ltb (length sub.ch.buffered) channel_size
    then record sub { ch = record sub.ch { buffered = sub.ch.buffered ++ ev ∷ [] } }
    else sub

abbrev pub offered? : Bool → ClickEvent → Option Subscription → Option Subscription
offered? listed ev none = none
offered? listed ev (some sub) = if listed then some (offered ev sub) else some sub

try_send_lem :
    (ev : ClickEvent) (sub : Subscription) → IsSound sub → try_send ev sub ≡ some (offered ev sub)
unfolding try_send send_or_drop offered
try_send_lem ev sub (agree, fits) = elim (Bool-cases sub.closed) [
  | inl shut ↦ rw (shut, try_send, offered) refl
  | inr open_ ↦ elim (Bool-cases (ltb (length sub.ch.buffered) channel_size)) [
    | inl room ↦ rw (open_, agree ∙ open_, room, try_send, send_or_drop, offered) refl
    | inr full ↦ rw (open_, agree ∙ open_, full, try_send, send_or_drop, offered) refl
  ]
]

unlisted : (ev : ClickEvent) (o : Option Subscription) → o ≡ offered? false ev o
unlisted ev none = refl
unlisted ev (some sub) = refl

sent_one :
    (ev : ClickEvent) (id : ℕ) (s : ClickStream)
    → AreSound s
    → (after : ClickStream) × (change (try_send ev) id s ≡ some after)
      × AreSound after
      × ((j : ℕ) → lookup j after.heap ≡ offered? (id == j) ev (lookup j s.heap))
unfolding change
sent_one ev id s h = elim (Option-cases (lookup id s.heap)) [
  | inl missing ↦ (
    s,
    rw (missing, change) refl,
    h,
    λ j. elim (Bool-cases (id == j)) [
      | inl hit ↦
          let e = ap (λ k. lookup k s.heap) (sym ((==_iff id j).0 hit)) ∙ missing in
          rw (hit, e) refl
      | inr miss ↦ rw miss (unlisted ev (lookup j s.heap))
    ],
  )
  | inr (sub, there) ↦
      let (_, sound) =
        All-lookup (λ entry. (entry.0 < s.next) × IsSound entry.1) id sub s.heap h.sound there in
      let (after, e, kept, _) = change-AreSound (try_send ev) id s (try_send-Keeps ev) h in
      let made : some (record s { heap = assign id (offered ev sub) s.heap }) ≡ some after =
        rw (there, try_send_lem ev sub sound, change) at e in
      (
        after,
        e,
        kept,
        λ j.
            sym (ap (λ t. lookup j t.heap) (some_inj _ after made))
            ∙ lookup-assign id j (offered ev sub) s.heap
            ∙ elim (Bool-cases (id == j)) [
              | inl hit ↦
                  let at = ap (λ k. lookup k s.heap) (sym ((==_iff id j).0 hit)) ∙ there in
                  rw (hit, at) refl
              | inr miss ↦ rw miss (unlisted ev (lookup j s.heap))
            ],
      )
]

-- Two rounds with different numbers
twice :
    (ev : ClickEvent) (id j : ℕ) (ids : Numbers) (o : Option Subscription)
    → lookup id ids ≡ none
    → offered? (is_some (lookup j ids)) ev (offered? (id == j) ev o)
      ≡ offered? (is_some (if id == j then some tt else lookup j ids)) ev o
twice ev id j ids o fresh = elim (Bool-cases (id == j)) [
  | inl hit ↦
      let e = ap (λ k. lookup k ids) (sym ((==_iff id j).0 hit)) ∙ fresh in
      rw (hit, e) (sym (unlisted ev (offered? true ev o)))
  | inr miss ↦ rw (miss) (ap (offered? (is_some (lookup j ids)) ev) (sym (unlisted ev o)))
]

sent_all :
    (ev : ClickEvent) (ids : Numbers) (s : ClickStream)
    → Once ids
    → AreSound s
    → (after : ClickStream) × (send_all ev ids s ≡ some after)
      × ((j : ℕ) → lookup j after.heap ≡ offered? (is_some (lookup j ids)) ev (lookup j s.heap))
unfolding send_all lookup
sent_all ev [] s once h = (s, refl, λ j. unlisted ev (lookup j s.heap))
sent_all ev ((id, tt) ∷ ids) s (fresh, once) h =
    let (mid, e, kept, first) = sent_one ev id s h in
    let (after, f, later) = sent_all ev ids mid once kept in
    (
      after,
      rw (e, send_all) f,
      λ j.
          later j
          ∙ ap (offered? (is_some (lookup j ids)) ev) (first j)
          ∙ twice ev id j ids (lookup j s.heap) fresh,
    )

-- A Publish on a stream that any interleaving of the goroutines has made: it does not panic, and every
-- subscription that is registered for the code has the event at the end of its buffer, if it is open
-- and has room, while all other subscriptions are as they were.
pub publish_delivers :
    (moves : List Move) (s : ClickStream) (code : Text) (ev : ClickEvent)
    → run moves new_click_stream ≡ some s
    → let listed = or_empty (lookup code s.subs) in
      (after : ClickStream) × (publish code ev s ≡ some after)
      × ((j : ℕ) → lookup j after.heap ≡ offered? (is_some (lookup j listed)) ev (lookup j s.heap))
unfolding publish
publish_delivers moves s code ev reached =
    let (t, e, sound) = run_safe moves in
    let kept = subst AreSound (some_inj t s (sym e ∙ reached)) sound in
    sent_all ev (or_empty (lookup code s.subs)) s (set_of code s.next s.subs kept.registered).0 kept
