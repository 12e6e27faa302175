-- ===== src/Store/Memory/Keys.antt =====
-- services/storage.go: the API-key methods of MemoryStore. LookupAPIKey and DeleteAPIKey range over
-- a map; the order of the association list stands for the order in which Go happens to range.
use Prim.Native.Nat.{bit_or, bit_xor}
use tiny_url.Prelude.{
  ℕ, Text, Option, none, some, Bool, false, [], ◌∷◌, length, ◌==◌, if◌then◌else◌, text_eq,
}
use tiny_url.Prelude.Int.{ℤ, pos, same_int, int_eq}
use tiny_url.Prelude.Words.{add64}
use tiny_url.Prelude.Table.{Table, lookup, assign, remove}
use tiny_url.Models.{Time, UrlMapping, ApiKey}
use tiny_url.Store.{Result, ok, err, not_found, Done}
use tiny_url.Store.Memory.State.{MemoryStore}

unfoldable pub create_api_key : Time → Text → Text → MemoryStore → Result ApiKey × MemoryStore
create_api_key now label token_hash s =
    let id = add64 s.next_key_id (pos 1) in
    let k : ApiKey = record {
      id = id;
      token_hash = token_hash;
      label = label;
      created_at = now;
      last_used_at = none;
    } in
    (ok k, record s { next_key_id = id; api_keys = assign id k s.api_keys })

-- The loop `v |= a[i] ^ b[i]`, over two slices of one length.
unfoldable pub xor_all : ℕ → Text → Text → ℕ
xor_all v [] b = v
xor_all v (x ∷ a) [] = v
xor_all v (x ∷ a) (y ∷ b) = xor_all (bit_or v (bit_xor x y)) a b

unfoldable pub bytes_equal_const_time : Text → Text → Bool
unfolding xor_all
bytes_equal_const_time a b = if length a == length b then xor_all 0 a b == 0 else false

-- The first key of the range whose hash matches.
unfoldable pub find_key : Text → Table ℤ ApiKey → Option ApiKey
find_key token_hash [] = none
find_key token_hash ((id, k) ∷ t) =
    if bytes_equal_const_time k.token_hash token_hash then some k else find_key token_hash t

unfoldable pub lookup_api_key : Time → Text → MemoryStore → Result ApiKey × MemoryStore
lookup_api_key now token_hash s = elim (find_key token_hash s.api_keys) [
  | none ↦ (err not_found, s)
  | some k ↦
      let used : ApiKey = record k { last_used_at = some now } in
      (ok used, record s { api_keys = assign k.id used s.api_keys })
]

unfoldable pub get_api_key : ℤ → MemoryStore → Result ApiKey
get_api_key id s = elim (lookup id s.api_keys) [ none ↦ err not_found | some k ↦ ok k ]

abbrev pub disowned : ℤ → UrlMapping → UrlMapping
disowned id u = if same_int u.api_key_id id then record u { api_key_id = pos 0 } else u

-- The loop of DeleteAPIKey over the mappings.
unfoldable pub disown : ℤ → Table Text UrlMapping → Table Text UrlMapping
disown id [] = []
disown id ((code, u) ∷ t) = (code, disowned id u) ∷ disown id t

unfoldable pub delete_api_key : ℤ → MemoryStore → Result Done × MemoryStore
delete_api_key id s = elim (lookup id s.api_keys) [
  | none ↦ (err not_found, s)
  | some k ↦ (ok tt, record s { api_keys = remove id s.api_keys; urls = disown id s.urls })
]

unfoldable pub update_api_key_label : ℤ → Text → MemoryStore → Result Done × MemoryStore
update_api_key_label id label s = elim (lookup id s.api_keys) [
  | none ↦ (err not_found, s)
  | some k ↦ (ok tt, record s { api_keys = assign id (record k { label = label }) s.api_keys })
]
