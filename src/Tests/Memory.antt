-- ===== src/Tests/Memory.antt =====
-- services/storage.go: MemoryStore's theorems, at small stores.
use mathlib.Core.List.{Permᴰ}
use mathlib.Core.List.Permᴰ
use tiny_url.Prelude.{
  ap, reverse, ◌+◌, List, Text, true, none, some, [], ◌∷◌, ◌≡◌, refl, ◌↔◌, arith, codes, same,
  text_eq, length, select, get_elem?, take, drop,
}
use tiny_url.Prelude.Int.{ℤ, pos_part, pos, ◌+ℤ◌, ◌<ℤ◌, int_eq}
use tiny_url.Prelude.Table.{Table, lookup}
use tiny_url.Models.{UrlMapping, ClickEvent, ApiKey, AuditEvent}
use tiny_url.Store.{ok, err, not_found}
use tiny_url.Store.Memory.State.{MemoryStore, new_memory_store}
use tiny_url.Store.Memory.Urls.{set, get, cleanup_expired}
use tiny_url.Store.Memory.Clicks.{recent_clicks, events_of}
use tiny_url.Store.Memory.Keys.{bytes_equal_const_time, delete_api_key, get_api_key}
use tiny_url.Store.Memory.Listing.{Ordering, list_urls_by_api_key, owned_by}
use tiny_url.Store.Memory.Series.{clicks_by_bucket}
use tiny_url.Store.Memory.Buckets.{clicks_by_bucket_counts}
use tiny_url.Store.Memory.Windows.{in_bucket}
use tiny_url.Store.Memory.Lifecycle.{recent_clicks-reclaimed}
use tiny_url.Store.Memory.Compare.{bytes_equal_const_time_iff}
use tiny_url.Store.Memory.Ownership.{disowned_result, delete_api_key_lem}
use tiny_url.Store.Memory.Listed.{IsOrdering, IsDescending, list_urls_pages}
use tiny_url.Store.Memory.History.{setting, clicking, creating_key, deleting_key, run, step}
use tiny_url.Store.Memory.History.Bounded.{IsKeyed, IsCapped, run_bounded}
use tiny_url.Store.Memory.History.Agreement.{Agrees, run-Agrees}
use tiny_url.Store.Memory.History.Numbering.{next_id, key_ids_grow}

abbrev mapping : UrlMapping
mapping = record {
  id = codes "abc";
  original_url = codes "https://example.com";
  created_at = pos 5;
  expires_at = some (pos 100);
  click_count = pos 0;
  last_accessed = none;
  owner_token_hash = codes "h";
  tags = [];
  max_clicks = pos 2;
  password_hash = [];
  password_salt = [];
  webhook_url = [];
  webhook_secret = [];
  api_key_id = pos 1;
  preview_title = [];
  preview_image = [];
  preview_description = [];
  preview_fetched_at = none;
  destinations = [];
}

abbrev click : ClickEvent
click = record {
  at = pos 25;
  ip_hash = [];
  referer = [];
  ua_class = codes "bot";
  country = [];
  destination_url = [];
}

abbrev key : ApiKey
key = record {
  id = pos 1;
  token_hash = 7 ∷ 8 ∷ [];
  label = codes "ci";
  created_at = pos 3;
  last_used_at = none;
}

abbrev other_key : ApiKey
other_key = record key { id = pos 2; token_hash = 9 ∷ [] }

abbrev keys : Table ℤ ApiKey
keys = (pos 1, key) ∷ (pos 2, other_key) ∷ []

abbrev abc : Text
abc = codes "abc"

abbrev small_store : MemoryStore
small_store = record new_memory_store {
  urls = (abc, mapping) ∷ [];
  events = (abc, click ∷ []) ∷ [];
  api_keys = keys;
  next_key_id = pos 2;
}

abbrev event : AuditEvent
event = record {
  id = pos 0;
  at = pos 0;
  actor_kind = codes "anon";
  actor_id = [];
  action = codes "url.create";
  target_kind = codes "url";
  target_id = abc;
  metadata = [];
  request_id = [];
}

abbrev xyz : Text
xyz = codes "xyz"

recent_clicks-reclaimed_example :
    recent_clicks abc (pos 10) (set abc mapping (cleanup_expired (pos 200) small_store)).1
    ≡ recent_clicks abc (pos 10) small_store
unfolding get lookup same
recent_clicks-reclaimed_example =
    recent_clicks-reclaimed abc mapping (pos 10) (pos 200) small_store (refl, tt) refl

bytes_equal_const_time_iff_example :
    (bytes_equal_const_time key.token_hash key.token_hash ≡ true)
    ↔ (key.token_hash ≡ key.token_hash)
bytes_equal_const_time_iff_example =
    bytes_equal_const_time_iff key.token_hash key.token_hash (omega arith, (omega arith, tt))
      (omega arith, (omega arith, tt))

delete_api_key_lem_example :
    let s' = (delete_api_key (pos 1) small_store).1 in
    (get_api_key (pos 1) s' ≡ err not_found)
    × (owned_by (pos 1) s'.urls ≡ [])
    × ((code : Text)
        → get (pos 50) code s' ≡ disowned_result (pos 1) (get (pos 50) code small_store))
unfolding delete_api_key lookup
delete_api_key_lem_example = delete_api_key_lem (pos 1) (pos 50) small_store (λ h. cc) refl

abbrev younger : UrlMapping
younger = record mapping { id = codes "def"; created_at = pos 7 }

abbrev two_urls : MemoryStore
two_urls = record small_store { urls = (abc, mapping) ∷ (codes "def", younger) ∷ [] }

-- Two orders of the same map
abbrev forwards : Ordering
forwards = record { range_map = λ t. t; sort_slice = λ less list. reverse list }

abbrev backwards : Ordering
backwards = record { range_map = λ t. reverse t; sort_slice = λ less list. list }

forwards-IsOrdering : IsOrdering forwards (pos 1) two_urls.urls
unfolding owned_by
forwards-IsOrdering = record {
  visits = Permᴰ.refl _;
  permutes = Permᴰ.swap refl refl;
  sorts = ((refl, tt), (tt, tt));
}

backwards-IsOrdering : IsOrdering backwards (pos 1) two_urls.urls
unfolding owned_by
backwards-IsOrdering = record {
  visits = Permᴰ.swap refl refl;
  permutes = Permᴰ.refl _;
  sorts = ((refl, tt), (tt, tt));
}

five_not_seven : Path ℤ (pos 5) (pos 7) → ⊥
five_not_seven h = ground (arith, ap pos_part h)

list_urls_pages_example :
    (all_ : List UrlMapping) × Permᴰ all_ (owned_by (pos 1) two_urls.urls)
    × IsDescending all_
    × (list_urls_by_api_key forwards (pos 1) (pos 1) (pos 0) two_urls ≡ ok (take 1 (drop 0 all_)))
    × (list_urls_by_api_key backwards (pos 1) (pos 1) (pos (1 + 0)) two_urls
        ≡ ok (take 1 (drop (1 + 0) all_)))
unfolding owned_by
list_urls_pages_example =
    list_urls_pages forwards backwards (pos 1) 1 1 0 two_urls forwards-IsOrdering
      backwards-IsOrdering ((five_not_seven, tt), (tt, tt)) (omega arith) (omega arith)
      (omega arith)

clicks_by_bucket_counts_example :
    (series : List ℤ) × (clicks_by_bucket abc (pos 40) (pos 10) (pos 3) small_store ≡ ok series)
    × (length series ≡ 3)
    × (get_elem? series 1
        ≡ some (pos (length (select (in_bucket (pos 10) 10 1) (events_of abc small_store)))))
unfolding lookup same ◌+ℤ◌
clicks_by_bucket_counts_example =
    clicks_by_bucket_counts abc (pos 10) (pos 40) 10 3 1 mapping small_store refl (omega arith)
      (omega arith) (omega arith) refl (omega arith) (omega arith)

run_bounded_example :
    IsKeyed (run (setting abc mapping ∷ clicking abc click ∷ []) new_memory_store)
    × IsCapped (run (setting abc mapping ∷ clicking abc click ∷ []) new_memory_store)
run_bounded_example = run_bounded (setting abc mapping ∷ clicking abc click ∷ [])

run-Agrees_example :
    Agrees 2
      (lookup abc (run (setting abc mapping ∷ clicking abc click ∷ []) new_memory_store).urls)
      (events_of abc (run (setting abc mapping ∷ clicking abc click ∷ []) new_memory_store))
run-Agrees_example =
    run-Agrees (setting abc mapping ∷ clicking abc click ∷ []) abc (omega arith) (refl, (tt, tt))

key_ids_grow_example :
    let s = run [] new_memory_store in
    let s' = run (deleting_key (pos 1) ∷ []) (step (creating_key (pos 9) abc (7 ∷ [])) s) in
    (next_id s <ℤ next_id s') × (lookup (next_id s') s'.api_keys ≡ none)
key_ids_grow_example =
    key_ids_grow [] (deleting_key (pos 1) ∷ []) (pos 9) abc (7 ∷ []) (omega arith)
