-- ===== src/Store/Memory/Contract.antt =====
-- services/storage.go: MemoryStore as an implementation of the Store interface. The ordering is that of
-- a listing; requests that have different ones meet the same state through different contracts.
use tiny_url.Store.{Store}
use tiny_url.Store.Memory.State.{MemoryStore}
use tiny_url.Store.Memory.Urls.{set, get, delete, exists, rotate_token, update}
use tiny_url.Store.Memory.Clicks.{record_click, recent_clicks}
use tiny_url.Store.Memory.Series.{clicks_by_bucket}
use tiny_url.Store.Memory.Keys.{
  create_api_key, lookup_api_key, get_api_key, delete_api_key, update_api_key_label,
}
use tiny_url.Store.Memory.Listing.{Ordering, list_urls_by_api_key}
use tiny_url.Store.Memory.Audit.{log_audit, recent_audit_events}

abbrev pub memory : Ordering → Store
memory ordering = record {
  State = MemoryStore;
  set = set;
  get = get;
  delete = delete;
  exists = exists;
  record_click = record_click;
  recent_clicks = recent_clicks;
  update = update;
  clicks_by_bucket = clicks_by_bucket;
  rotate_token = rotate_token;
  create_api_key = create_api_key;
  lookup_api_key = lookup_api_key;
  get_api_key = get_api_key;
  delete_api_key = delete_api_key;
  update_api_key_label = update_api_key_label;
  list_urls_by_api_key = list_urls_by_api_key ordering;
  log_audit = log_audit;
  recent_audit_events = recent_audit_events;
}
