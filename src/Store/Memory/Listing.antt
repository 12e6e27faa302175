-- ===== src/Store/Memory/Listing.antt =====
-- services/storage.go: ListURLsByAPIKey of MemoryStore. Go ranges over the map of mappings in an order
-- of its own in each call, and sort.Slice need not keep the order of equal elements: what the two make
-- of a call is its `Ordering`, and two calls may have different ones.
use tiny_url.Prelude.{ℕ, List, Text, Bool, ◌-◌, [], ◌∷◌, length, leb, take, drop, if◌then◌else◌}
use tiny_url.Prelude.Int.{ℤ, pos, pos_part, same_int, lt_int}
use tiny_url.Prelude.Words.{add64}
use tiny_url.Prelude.Table.{Table}
use tiny_url.Models.{UrlMapping}
use tiny_url.Store.{Result, ok, err, panicked}
use tiny_url.Store.Memory.State.{MemoryStore, default_limit}

pub record Ordering : Type 0 where
  -- the entries of the map, in the order in which the call's `range` visits them
  pub range_map : Table Text UrlMapping → Table Text UrlMapping
  pub sort_slice : (UrlMapping → UrlMapping → Bool) → List UrlMapping → List UrlMapping

abbrev pub newer : UrlMapping → UrlMapping → Bool
newer a b = lt_int b.created_at a.created_at

-- The loop that collects the key's mappings, over the entries in the order of `range`
unfoldable pub owned_by : ℤ → Table Text UrlMapping → List UrlMapping
owned_by id [] = []
owned_by id ((code, u) ∷ t) = if same_int u.api_key_id id then u ∷ owned_by id t else owned_by id t

-- list[offset:end], for an int `end` that may have wrapped
slice : List UrlMapping → ℕ → ℤ → Result (List UrlMapping)
slice list offset end =
    if lt_int end (pos offset)
    then err panicked
    else ok (take (pos_part end - offset) (drop offset list))

-- The pagination at the end of ListURLsByAPIKey.
unfoldable pub page : ℕ → ℕ → List UrlMapping → Result (List UrlMapping)
unfolding slice
page limit offset matched =
    if leb (length matched) offset
    then ok []
    else let end = add64 (pos offset) (pos limit) in
      slice matched offset (if lt_int (pos (length matched)) end then pos (length matched) else end)

module _ (ordering : Ordering) where
  unfoldable pub sort_by_created_at_desc : List UrlMapping → List UrlMapping
  sort_by_created_at_desc list = ordering.sort_slice newer list

  unfoldable pub list_urls_by_api_key : ℤ → ℤ → ℤ → MemoryStore → Result (List UrlMapping)
  unfolding sort_by_created_at_desc
  list_urls_by_api_key id limit offset s =
      page (default_limit limit) (pos_part offset)
        (sort_by_created_at_desc (owned_by id (ordering.range_map s.urls)))
