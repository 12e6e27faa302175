-- ===== src/Tests/Admin.antt =====
-- handlers/: the theorems on the owner's and the key holder's endpoints, at concrete requests.
use tiny_url.Prelude.{
  Has, ◌*◌, ◌≤◌, ◌<◌, arith, List, Text, Bool, true, false, none, some, [], ◌∷◌, ◌≡◌, ◌⊎◌, refl,
  codes, if◌then◌else◌, same, text_eq, is_empty, length,
}
use tiny_url.Prelude.Int.{ℤ, pos, int_eq, ◌≤ℤ◌, ◌<ℤ◌, ◌+ℤ◌, ◌-ℤ◌}
use tiny_url.Prelude.Words.{mul64, add64, neg64}
use tiny_url.Prelude.Table.{lookup, assign}
use tiny_url.Prelude.Strings.{strip_prefix, trim_space, to_lower}
use tiny_url.Models.{
  UrlMapping, ShortenRequest, ApiKey, ClickEvent, CreateApiKeyResponse, CountryCount,
}
use tiny_url.Store.{ok}
use tiny_url.Store.Memory.State.{MemoryStore, walk_back}
use tiny_url.Store.Memory.Urls.{get, set, exists, update, apply_update}
use tiny_url.Store.Memory.Clicks.{events_of, recent_clicks}
use tiny_url.Store.Memory.Keys.{find_key, create_api_key, bytes_equal_const_time, xor_all}
use tiny_url.Store.Memory.Series.{
  clicks_by_bucket, tally, tally_event, bump_at, zeros, window_start, sub_time,
}
use tiny_url.Store.Memory.Ownership.{matches}
use tiny_url.Store.Memory.Contract.{memory}
use tiny_url.Services.Validation.{
  validate_destination_url, validate_host_at_runtime, categorize_ip, to4, category4, normalize_tags,
  validate_destinations, check_destinations, validate_custom_code,
}
use tiny_url.Services.DenyList.{contains}
use tiny_url.Handlers.{Clock, Request, plain}
use tiny_url.Handlers.Auth.{extract_bearer, authorize_access, log_audit_best_effort}
use tiny_url.Store.Memory.Audit.{log_audit}
use tiny_url.Handlers.Shorten.{
  and_then, check_custom_code, check_url, check_expiration, check_tags, check_max_clicks,
  check_password, check_destinations_of, check_webhook, choose_code, generate_owner_token, created,
  rejected, bad,
}
use tiny_url.Handlers.Shorten.One.{
  shorten_one, prepare, response_of, deadline, mapping_of, detect_api_key,
}
use tiny_url.Handlers.Gates.{simple, answered, admit}
use tiny_url.Handlers.Admitted.{IsKept}
use tiny_url.Handlers.Patch.{
  PatchHandler, PatchRequest, PatchResponse, is_blank, new_url, new_expiration, new_tags,
  new_max_clicks, new_password, new_webhook, new_destinations, rotated, patch_fields,
}
use tiny_url.Handlers.Patch.Serve.{patch_response, patch_answer, patch_outcome, patch_handler}
use tiny_url.Handlers.Patch.Accepted.{IsPatched}
use tiny_url.Handlers.Patch.Effect.{patch_handler-answered, patch_handler-refused}
use tiny_url.Handlers.Bulk.{BulkResponse, add_entry, shorten_all, bulk_handler}
use tiny_url.Handlers.Bulk.Stored.{IsDone, bulk_handler_lem}
use tiny_url.Handlers.ApiKeys.{described, generate_api_key_token, create_key, get_key, delete_key}
use tiny_url.Handlers.ApiKeys.Lifecycle.{get_key-create_key, get_key-delete_key}
use tiny_url.Handlers.Query.{atoi}
use tiny_url.Handlers.Series.{
  second, SeriesResponse, range_of, series_end, series_outcome, series_handler, unix_epoch,
}
use tiny_url.Handlers.Series.Counted.{IsSeries}
use tiny_url.Handlers.Series.Answer.{series_handler-IsSeries}
use tiny_url.Handlers.Analytics.{top_countries, row, count_countries}
use tiny_url.Handlers.Analytics.Countries.{clicks_from}
use tiny_url.Handlers.Analytics.Top.{IsRanked, Outranks, top_countries_lem}
use tiny_url.Tests.Data.{
  abc, target, hashed, unsorted, mapping, small_store, owned, request, noon, crypto, network,
  handler, draws, order, answer,
}

abbrev patcher : PatchHandler
patcher = record { max_expiration_minutes = pos 1000; deny_list = none }

abbrev cap_to : ℤ → PatchRequest
cap_to n = record {
  url = none;
  expiration_mins = none;
  tags = none;
  max_clicks = some n;
  password = none;
  webhook_url = none;
  rotate_webhook = false;
  destinations = none;
}

abbrev patched : PatchResponse
patched = record {
  short_code = abc;
  original_url = target;
  expires_at = none;
  tags = [];
  max_clicks = pos 5;
  has_password = false;
  webhook_url = [];
  destinations = [];
  webhook_secret = [];
}

patch_handler-answered_example :
    let (reply, after) =
      patch_handler crypto
        (memory unsorted)
        network
        patcher
        draws
        noon
        request
        (some (cap_to (pos 5)))
        small_store in
    (m n : UrlMapping) × (get (noon 0) abc small_store ≡ ok m)
    × ((authorize_access hashed (memory unsorted) (noon 1) owned m small_store).0 ≡ true)
    × IsPatched crypto network patcher draws m n
    × ((secret : Text) × (patched ≡ patch_response crypto n secret))
    × ((k : Text)
        → lookup k after.urls ≡ (if same abc k then some n else lookup k small_store.urls))
    × (after.events ≡ small_store.events)
unfolding patch_handler patch_outcome patch_answer patch_response admit authorize_access
    extract_bearer patch_fields new_url new_expiration new_tags new_max_clicks new_password
    new_webhook new_destinations rotated is_blank get update apply_update lookup assign same
    strip_prefix trim_space
patch_handler-answered_example =
    patch_handler-answered crypto network patcher draws unsorted noon request
      (some (cap_to (pos 5))) small_store patched refl

abbrev clicked_store : MemoryStore
clicked_store = record small_store { urls = (abc, record mapping { click_count = pos 1 }) ∷ [] }

patch_handler-refused_example :
    let after =
      (patch_handler crypto
        (memory unsorted)
        network
        patcher
        draws
        noon
        request
        (some (cap_to (pos 1)))
        clicked_store).1 in
    IsKept clicked_store after
unfolding patch_handler admit authorize_access extract_bearer patch_fields new_url new_expiration
    new_tags new_max_clicks is_blank get lookup same strip_prefix trim_space
patch_handler-refused_example =
    patch_handler-refused crypto network patcher draws unsorted noon request (some (cap_to (pos 1)))
      clicked_store 400 (codes "max_clicks must exceed current click_count") refl
      (λ e. absurd (omega arith))

abbrev batch : List ShortenRequest
batch = order ∷ record order { custom_code = abc } ∷ []

abbrev batch_answer : BulkResponse
batch_answer = record {
  created_count = 1;
  failed_count = 1;
  items =
      record { index = 0; outcome = created answer }
      ∷ record {
        index = 1;
        outcome =
            rejected (bad 409 (codes "code_conflict") (codes "custom code is already in use"));
      }
      ∷ [];
}

abbrev post : Request
post = record request { method = codes "POST"; authorization = [] }

bulk_handler_lem_example :
    let final =
      (bulk_handler crypto network handler
        (memory unsorted)
        50
        (λ i. draws)
        (λ i. noon)
        (pos 9)
        post
        (some batch)
        small_store).2 in
    (items : List ShortenRequest) × (some batch ≡ some items)
    × (1 ≤ length items)
    × (length items ≤ 50)
    × IsDone crypto network handler unsorted 0 items batch_answer small_store final
unfolding bulk_handler shorten_all add_entry detect_api_key extract_bearer shorten_one prepare
    and_then check_custom_code check_url check_expiration check_tags check_max_clicks check_password
    check_destinations_of check_webhook choose_code generate_owner_token response_of deadline
    mapping_of normalize_tags validate_destinations check_destinations validate_custom_code
    validate_destination_url validate_host_at_runtime categorize_ip to4 category4 contains to_lower
    strip_prefix trim_space exists set lookup assign same log_audit_best_effort log_audit
bulk_handler_lem_example =
    bulk_handler_lem crypto network handler unsorted 50 (λ i. draws) (λ i. noon) (pos 9) post
      (some batch) small_store batch_answer refl

abbrev new_key : CreateApiKeyResponse
new_key = record { id = pos 1; label = codes "ops"; created_at = pos 43200; token = codes "key" }

abbrev bearer : Request
bearer = record request { authorization = codes "Bearer key" }

get_key-create_key_example :
    let after =
      (create_key crypto
        (memory unsorted)
        noon
        (some (codes "key"))
        request
        (some (codes "ops"))
        small_store).1 in
    (get_key crypto (memory unsorted) noon bearer after).0
    ≡ answered 200 (
        described (record {
          id = pos 1;
          label = codes "ops";
          created_at = pos 43200;
          last_used_at = some (pos 43200);
        }))
unfolding create_key generate_api_key_token create_api_key add64 find_key extract_bearer
    strip_prefix trim_space
get_key-create_key_example =
    get_key-create_key crypto unsorted noon noon (some (codes "key")) request bearer
      (some (codes "ops")) small_store new_key refl refl refl
      (omega arith, (omega arith, (omega arith, (omega arith, tt))))

abbrev ops_key : ApiKey
ops_key = record {
  id = pos 1;
  token_hash = hashed (codes "key");
  label = codes "ops";
  created_at = pos 5;
  last_used_at = none;
}

abbrev keyed_store : MemoryStore
keyed_store = record small_store { api_keys = (pos 1, ops_key) ∷ []; next_key_id = pos 1 }

get_key-delete_key_example :
    let (reply, after) = delete_key crypto (memory unsorted) noon bearer keyed_store in
    (reply ≡ simple (plain 204 []))
    × ((get_key crypto (memory unsorted) noon bearer after).0
        ≡ simple (plain 401 (codes "invalid API key")))
unfolding find_key bytes_equal_const_time xor_all matches extract_bearer strip_prefix trim_space
get_key-delete_key_example =
    get_key-delete_key crypto unsorted noon noon bearer bearer (hashed (codes "key")) ops_key
      keyed_store refl refl refl (omega arith) (refl, tt)

abbrev click : ClickEvent
click = record {
  at = unix_epoch +ℤ pos (61 * second);
  ip_hash = [];
  referer = [];
  ua_class = [];
  country = codes "NO";
  destination_url = [];
}

abbrev clicked : MemoryStore
clicked = record small_store { events = (abc, click ∷ []) ∷ [] }

abbrev later : Clock
later n = unix_epoch +ℤ pos (90 * second)

abbrev series : SeriesResponse
series = record {
  short_code = abc;
  bucket = codes "minute";
  bucket_secs = 60;
  end = unix_epoch +ℤ pos (120 * second);
  counts = pos 1 ∷ [];
}

series_handler-IsSeries_example :
    IsSeries (events_of abc clicked) (60 * second) series.end series.counts
    × (unix_epoch ≤ℤ later 2
        → (later 2 <ℤ series.end) × (series.end ≤ℤ later 2 +ℤ pos (60 * second)))
unfolding series_handler series_outcome admit authorize_access extract_bearer range_of series_end
    get lookup same strip_prefix trim_space clicks_by_bucket tally tally_event bump_at zeros
    window_start sub_time mul64 neg64 add64 ◌+ℤ◌ ◌-ℤ◌ atoi
series_handler-IsSeries_example =
    series_handler-IsSeries hashed unsorted later request (codes "minute") (codes "1") clicked
      series refl (omega arith)

abbrev as_it_is : (CountryCount → CountryCount → Bool) → List CountryCount → List CountryCount
as_it_is less list = list

top_countries_lem_example :
    let top = top_countries as_it_is (memory unsorted) abc clicked in
    (length top ≤ 10)
    × IsRanked top
    × ((e : CountryCount)
        → Has e top
        → (is_empty e.iso ≡ false) × (e.count ≡ pos (clicks_from e.iso (click ∷ []))))
    × ((iso : Text)
        → is_empty iso ≡ false
        → 0 < clicks_from iso (click ∷ [])
        → let e = row (iso, pos (clicks_from iso (click ∷ []))) in
          Has e top ⊎ ((f : CountryCount) → Has f top → Outranks f e))
unfolding recent_clicks lookup same walk_back count_countries assign
top_countries_lem_example =
    top_countries_lem as_it_is (memory unsorted) abc (click ∷ []) clicked refl
      (record { same_elements = λ x. (λ i. i, λ i. i); sorted = (tt, tt) }) (omega arith)
