-- ===== src/Handlers/MyUrls.antt =====
-- handlers/apikey.go: MyURLsHandler. `limit` and `offset` are the query's parameters, empty if absent.
use tiny_url.Prelude.{ℕ, List, Text, none, [], map, not, is_empty, codes, ◌^◌, if◌then◌else◌}
use tiny_url.Prelude.Int.{ℤ, pos, le_int, pos_part}
use tiny_url.Models.{UrlMapping, AnalyticsResponse}
use tiny_url.Store.{Store, ok, err}
use tiny_url.Handlers.{Clock, Request, plain}
use tiny_url.Handlers.Shorten.{Crypto}
use tiny_url.Handlers.Gates.{pass, refuse, Reply, simple, answered}
use tiny_url.Handlers.PosInt.{parse_pos_int}
use tiny_url.Handlers.ApiKeys.{require_api_key}

-- NewMyURLsHandler
abbrev pub my_urls_max_limit : ℤ → ℕ
my_urls_max_limit n = if le_int n (pos 0) then 100 else pos_part n

unfoldable pub row_of : UrlMapping → AnalyticsResponse
row_of u = record {
  short_code = u.id;
  original_url = u.original_url;
  click_count = u.click_count;
  created_at = u.created_at;
  expires_at = u.expires_at;
  last_accessed = u.last_accessed;
  tags = u.tags;
  max_clicks = u.max_clicks;
  has_password = not (is_empty u.password_hash);
  webhook_url = u.webhook_url;
  preview_title = [];
  preview_image = [];
  preview_description = [];
  preview_fetched_at = none;
  destinations = [];
  top_countries = [];
}

module _ (C : Crypto) (S : Store) where
  -- The key is asked for as requireAPIKey does it.
  unfoldable pub my_urls :
      ℕ → Clock → Request → Text → Text → S.State → Reply (List AnalyticsResponse) × S.State
  my_urls max_limit clock r limit offset s =
      let (gate, after) = require_api_key C S (clock 0) r s in
      elim gate [
        | refuse response ↦ (simple response, after)
        | pass key ↦
            let wanted = pos (parse_pos_int limit 50 max_limit) in
            let skipped = pos (parse_pos_int offset 0 (2 ^ 30)) in
            elim (S.list_urls_by_api_key key.id wanted skipped after) [
              | err e ↦ (simple (plain 500 (codes "Failed to list URLs")), after)
              | ok urls ↦ (answered 200 (map row_of urls), after)
            ]
      ]
