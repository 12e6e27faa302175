-- ===== src/Store/Memory/Ownership.antt =====
-- API keys of MemoryStore: issuing, recognising and revoking them.
use mathlib.Core.List.{Permᴰ}
use tiny_url.Prelude.{
  ℕ, ◌+◌, ◌≤◌, All, Text, none, [], ◌∷◌, ◌≡◌, ◌≢◌, refl, ◌∙◌, arith, if◌then◌else◌, text_eq,
}
use tiny_url.Prelude.Int.{ℤ, pos, same_int_iff, int_eq}
use tiny_url.Prelude.Table.{Table, lookup-remove}
use tiny_url.Models.{Time, UrlMapping, ApiKey}
use tiny_url.Store.{Result, ok, err, not_found}
use tiny_url.Store.Memory.State.{MemoryStore}
use tiny_url.Store.Memory.Urls.{get}
use tiny_url.Store.Memory.Keys.{
  bytes_equal_const_time, find_key, get_api_key, disowned, disown, delete_api_key,
}
use tiny_url.Store.Memory.Listing.{owned_by}
use tiny_url.Store.Memory.Maps.{lookup-disown}

-- Each key stands under its own id.
abbrev pub AreFiled : Table ℤ ApiKey → Type 0
AreFiled = All (λ entry. entry.1.id ≡ entry.0)

-- How many keys a token hash matches.
unfoldable pub matches : Text → Table ℤ ApiKey → ℕ
matches hash [] = 0
matches hash ((id, k) ∷ t) =
    (if bytes_equal_const_time k.token_hash hash then 1 else 0) + matches hash t

pub find_key-none : (hash : Text) (t : Table ℤ ApiKey) → matches hash t ≡ 0 → find_key hash t ≡ none
unfolding matches find_key
find_key-none hash [] h = refl
find_key-none hash ((id, k) ∷ t) h = ground (arith, find_key-none hash t)

matches-perm : (hash : Text) {t t' : Table ℤ ApiKey} → Permᴰ t t' → matches hash t ≡ matches hash t'
unfolding matches
matches-perm hash Permᴰ.nil = refl
matches-perm hash (Permᴰ.cons e p) = rw e (omega (arith, matches-perm hash p))
matches-perm hash (Permᴰ.swap e f) = rw (e, f) (omega arith)
matches-perm hash (Permᴰ.trans p q) = matches-perm hash p ∙ matches-perm hash q

-- Go may range over the map of keys in any order: if at most one key matches a token hash, each
-- order finds the same one.
pub find_key-perm :
    (hash : Text) {t t' : Table ℤ ApiKey}
    → Permᴰ t t'
    → matches hash t ≤ 1
    → find_key hash t ≡ find_key hash t'
unfolding find_key matches
find_key-perm hash Permᴰ.nil few = refl
find_key-perm hash (Permᴰ.cons {a = a} e p) few =
    let rest = find_key-perm hash p (omega arith) in rw (← e) (ground (arith, rest))
find_key-perm hash (Permᴰ.swap e f) few = rw (← e, ← f) (ground arith)
find_key-perm hash (Permᴰ.trans p q) few =
    find_key-perm hash p few ∙ find_key-perm hash q (omega (arith, matches-perm hash p))

abbrev pub disowned_result : ℤ → Result UrlMapping → Result UrlMapping
disowned_result id (ok u) = ok (disowned id u)
disowned_result id (err e) = err e

owned_by-disown : (id : ℤ) (t : Table Text UrlMapping) → id ≢ pos 0 → owned_by id (disown id t) ≡ []
unfolding owned_by disown
owned_by-disown id [] ne = refl
owned_by-disown id ((code, u) ∷ t) ne =
    ground (arith, owned_by-disown id t ne, same_int_iff (pos 0) id)

-- After a key is revoked, GetAPIKey does not know it, it owns no mapping, and Get returns every
-- mapping as before but for the reference to that key, which is cleared.
pub delete_api_key_lem :
    (id : ℤ) (now : Time) (s : MemoryStore)
    → id ≢ pos 0
    → (delete_api_key id s).0 ≡ ok tt
    → let s' = (delete_api_key id s).1 in
      (get_api_key id s' ≡ err not_found)
      × (owned_by id s'.urls ≡ [])
      × ((code : Text) → get now code s' ≡ disowned_result id (get now code s))
unfolding delete_api_key get_api_key get
delete_api_key_lem id now s ne h = (
  ground (arith, lookup-remove id id s.api_keys, same_int_iff id id),
  ground (arith, owned_by-disown id s.urls ne),
  λ code. ground (arith, lookup-disown id code s.urls),
)
