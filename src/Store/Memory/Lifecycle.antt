-- ===== src/Store/Memory/Lifecycle.antt =====
-- What Set, Get, Delete and the cleanup pass of MemoryStore make of a short code's life.
use tiny_url.Prelude.{List, Text, some, [], ◌∷◌, ◌≡◌, arith, if◌then◌else◌, same, same_iff, text_eq}
use tiny_url.Prelude.Int.{ℤ}
use tiny_url.Prelude.Table.{lookup, lookup-assign, lookup-remove, Once}
use tiny_url.Models.{Time, UrlMapping}
use tiny_url.Store.{Result, ok, err, not_found, expired, code_conflict}
use tiny_url.Store.Memory.State.{MemoryStore}
use tiny_url.Store.Memory.Urls.{set, is_past, get, delete, cleanup_expired}
use tiny_url.Store.Memory.Clicks.{events_of, recent_clicks}
use tiny_url.Store.Memory.Maps.{lookup-reap}

-- What Get makes of a mapping that it finds.
abbrev pub served : Time → UrlMapping → Result UrlMapping
served now m = if is_past m.expires_at now then err expired else ok m

-- After a successful Set of a code, Get of that code returns the new mapping until its expiration,
-- and Get of any other code returns what it returned before.
pub get-set :
    (code j : Text) (m : UrlMapping) (now : Time) (s : MemoryStore)
    → (set code m s).0 ≡ ok tt
    → get now j (set code m s).1 ≡ (if same code j then served now m else get now j s)
unfolding set get
get-set code j m now s h = ground (arith, lookup-assign code j m s.urls, same_iff code j)

-- A run of Sets, whatever each of them reports.
pub set_all : List (Text × UrlMapping) → MemoryStore → MemoryStore
set_all [] s = s
set_all ((code, m) ∷ rest) s = set_all rest (set code m s).1

keeps_claim :
    (code j : Text) (m n : UrlMapping) (s : MemoryStore)
    → lookup code s.urls ≡ some m
    → lookup code (set j n s).1.urls ≡ some m
unfolding set
keeps_claim code j m n s h = ground (arith, lookup-assign j code n s.urls, same_iff j code)

lookup-set_all :
    (code : Text) (m : UrlMapping) (rest : List (Text × UrlMapping)) (s : MemoryStore)
    → lookup code s.urls ≡ some m
    → lookup code (set_all rest s).urls ≡ some m
unfolding set_all
lookup-set_all code m [] s h = h
lookup-set_all code m ((j, n) ∷ rest) s h =
    lookup-set_all code m rest (set j n s).1 (keeps_claim code j m n s h)

lookup-set :
    (code : Text) (m : UrlMapping) (s : MemoryStore)
    → (set code m s).0 ≡ ok tt
    → lookup code (set code m s).1.urls ≡ some m
unfolding set
lookup-set code m s h = ground (arith, lookup-assign code code m s.urls, same_iff code code)

set_taken :
    (code : Text) (m n : UrlMapping) (s : MemoryStore)
    → lookup code s.urls ≡ some m
    → set code n s ≡ (err code_conflict, s)
unfolding set
set_taken code m n s h = ground arith

-- The first successful Set of a code wins: whatever Sets of whatever codes follow, a further Set of
-- that code reports a conflict and changes nothing.
pub set_first_wins :
    (code : Text) (m n : UrlMapping) (rest : List (Text × UrlMapping)) (s : MemoryStore)
    → (set code m s).0 ≡ ok tt
    → let s' = set_all rest (set code m s).1 in
      (lookup code s'.urls ≡ some m) × (set code n s' ≡ (err code_conflict, s'))
set_first_wins code m n rest s h =
    let s' = set_all rest (set code m s).1 in
    let found = lookup-set_all code m rest (set code m s).1 (lookup-set code m s h) in
    (found, set_taken code m n s' found)

-- After a successful Delete the code is unknown, its event log is gone, and Get of any other code
-- returns what it returned before.
pub get-delete :
    (code j : Text) (now : Time) (s : MemoryStore)
    → (delete code s).0 ≡ ok tt
    → (get now j (delete code s).1 ≡ (if same code j then err not_found else get now j s))
      × (events_of code (delete code s).1 ≡ [])
unfolding delete get
get-delete code j now s h = ground (
  arith,
  lookup-remove code j s.urls,
  lookup-remove code code s.events,
  same_iff code j,
  same_iff code code,
)

abbrev pub reaped : Result UrlMapping → Result UrlMapping
reaped (err expired) = err not_found
reaped r = r

-- The cleanup pass at a time removes exactly the mappings that Get at that time calls expired; what
-- Get at that time returns for every other code is unchanged.
pub get-cleanup_expired :
    (code : Text) (now : Time) (s : MemoryStore)
    → Once s.urls
    → get now code (cleanup_expired now s) ≡ reaped (get now code s)
unfolding get cleanup_expired
get-cleanup_expired code now s h = ground (arith, lookup-reap now code s.urls h)

-- The cleanup pass leaves the event log of an expired mapping behind: whoever then claims the code
-- by a Set reads the clicks of the former mapping as the recent clicks of the new one.
pub recent_clicks-reclaimed :
    (code : Text) (m : UrlMapping) (limit : ℤ) (now : Time) (s : MemoryStore)
    → Once s.urls
    → get now code s ≡ err expired
    → recent_clicks code limit (set code m (cleanup_expired now s)).1 ≡ recent_clicks code limit s
unfolding get set cleanup_expired recent_clicks
recent_clicks-reclaimed code m limit now s h e = ground (
  arith,
  lookup-reap now code s.urls h,
  lookup-assign code code m (cleanup_expired now s).urls,
  same_iff code code,
)
