-- ===== src/Store/Memory/Maps.antt =====
-- How the loops over MemoryStore's map of mappings change what a lookup finds.
use tiny_url.Prelude.{
  Text, Option, none, some, [], ◌∷◌, ◌≡◌, refl, arith, Bool-cases, inl, inr, text_eq, if◌then◌else◌,
  same_iff,
}
use tiny_url.Prelude.Int.{ℤ}
use tiny_url.Prelude.Table.{Table, lookup, Once}
use tiny_url.Models.{Time, UrlMapping}
use tiny_url.Store.Memory.Urls.{is_past, reap}
use tiny_url.Store.Memory.Keys.{disowned, disown}

abbrev pub unexpired : Time → Option UrlMapping → Option UrlMapping
unexpired now none = none
unexpired now (some m) = if is_past m.expires_at now then none else some m

lookup-reap_absent :
    (now : Time) (k : Text) (t : Table Text UrlMapping)
    → lookup k t ≡ none
    → lookup k (reap now t) ≡ none
unfolding lookup reap
lookup-reap_absent now k [] h = refl
lookup-reap_absent now k ((j, m) ∷ t) h = ground (arith, lookup-reap_absent now k t)

pub lookup-reap :
    (now : Time) (k : Text) (t : Table Text UrlMapping)
    → Once t
    → lookup k (reap now t) ≡ unexpired now (lookup k t)
unfolding lookup reap
lookup-reap now k [] h = refl
lookup-reap now k ((j, m) ∷ t) (fresh, h) =
    ground (arith, same_iff j k, lookup-reap now k t h, lookup-reap_absent now j t fresh)

pub Once-reap : (now : Time) (t : Table Text UrlMapping) → Once t → Once (reap now t)
unfolding reap lookup
Once-reap now [] h = tt
Once-reap now ((j, m) ∷ t) (fresh, h) = elim (Bool-cases (is_past m.expires_at now)) [
  | inl past ↦ rw past (Once-reap now t h)
  | inr live ↦ rw live (lookup-reap_absent now j t fresh, Once-reap now t h)
]

abbrev pub disowned? : ℤ → Option UrlMapping → Option UrlMapping
disowned? id none = none
disowned? id (some u) = some (disowned id u)

pub lookup-disown :
    (id : ℤ) (k : Text) (t : Table Text UrlMapping)
    → lookup k (disown id t) ≡ disowned? id (lookup k t)
unfolding lookup disown
lookup-disown id k [] = refl
lookup-disown id k ((j, m) ∷ t) = ground (arith, lookup-disown id k t)

pub Once-disown : (id : ℤ) (t : Table Text UrlMapping) → Once t → Once (disown id t)
unfolding disown lookup
Once-disown id [] h = tt
Once-disown id ((j, m) ∷ t) (fresh, h) = (ground (arith, lookup-disown id j t), Once-disown id t h)
