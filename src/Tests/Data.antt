-- ===== src/Tests/Data.antt =====
-- A small MemoryStore, requests to it and parameters of the model, for the tests of the handlers.
use tiny_url.Store.Memory.Listing.{Ordering}
use tiny_url.Prelude.{Text, true, false, none, some, [], ◌∷◌, codes, text_eq}
use tiny_url.Prelude.Int.{pos, int_eq}
use tiny_url.Models.{UrlMapping, ShortenRequest}
use tiny_url.Store.Memory.State.{MemoryStore, new_memory_store}
use tiny_url.Services.Validation.{Network}
use tiny_url.Handlers.{Clock, Request}
use tiny_url.Handlers.Redirect.{World, RedirectConfig}
use tiny_url.Handlers.Shorten.{ShortenResponse, Draws, Crypto, ShortenHandler}

abbrev pub abc : Text
abc = codes "abc"

abbrev pub target : Text
target = codes "https://example.com"

-- A hash that is not SHA-256, and an order of the map and a sort that are not Go's.
abbrev pub hashed : Text → Text
hashed token = 1 ∷ token

abbrev pub unsorted : Ordering
unsorted = record { range_map = λ t. t; sort_slice = λ less list. list }

abbrev pub mapping : UrlMapping
mapping = record {
  id = abc;
  original_url = target;
  created_at = pos 5;
  expires_at = none;
  click_count = pos 0;
  last_accessed = none;
  owner_token_hash = hashed (codes "secret");
  tags = [];
  max_clicks = pos 2;
  password_hash = [];
  password_salt = [];
  webhook_url = [];
  webhook_secret = [];
  api_key_id = pos 0;
  preview_title = [];
  preview_image = [];
  preview_description = [];
  preview_fetched_at = none;
  destinations = [];
}

abbrev pub small_store : MemoryStore
small_store = record new_memory_store { urls = (abc, mapping) ∷ [] }

abbrev pub owned : Text
owned = codes "Bearer secret"

abbrev pub request : Request
request = record {
  method = codes "GET";
  code = abc;
  authorization = owned;
  referer = [];
  user_agent = [];
  client_ip = [];
  password = none;
  request_id = [];
}

abbrev pub noon : Clock
noon n = pos 43200

abbrev pub world : World
world = record {
  sha256 = hashed;
  pbkdf2 = λ password salt. none;
  parse_url = λ url. some (codes "example.com");
  resolve = λ now host. none;
  int_n = λ n. pos 0;
  unicode_lower = λ s. s;
  ua_bot = λ ua. false;
  ua_tablet = λ ua. false;
  ua_mobile = λ ua. false;
  country = λ ip. none;
  process_salt = [];
}

abbrev pub config : RedirectConfig
config = record { deny_list = none; log_ip = false; stream = true; webhook = false }

abbrev pub crypto : Crypto
crypto = record { sha256 = hashed; pbkdf2 = λ password salt. none; base64url = λ b. b }

abbrev pub network : Network
network = record {
  unicode_lower = λ s. s;
  parse_url = λ url.
      some (record { scheme = codes "https"; has_user = false; hostname = codes "example.com" });
  parse_ip = λ host. none;
  lookup_ip_addr = λ host. some ((8 ∷ 8 ∷ 8 ∷ 8 ∷ []) ∷ []);
}

abbrev pub handler : ShortenHandler
handler = record {
  base_url = codes "https://tiny.example";
  max_expiration_minutes = pos 1000;
  deny_list = none;
  unfurler = false;
}

abbrev pub draws : Draws
draws = record { salt = none; secret = none; code_reads = []; token_bytes = some (5 ∷ 6 ∷ []) }

abbrev pub order : ShortenRequest
order = record {
  url = target;
  expiration_mins = pos 0;
  custom_code = codes "xyz";
  tags = [];
  max_clicks = pos 0;
  password = [];
  webhook_url = [];
  destinations = [];
}

abbrev pub answer : ShortenResponse
answer = record {
  short_code = codes "xyz";
  short_url = codes "https://tiny.example/xyz";
  original_url = target;
  expires_at = none;
  admin_token = 5 ∷ 6 ∷ [];
  tags = [];
  max_clicks = pos 0;
  has_password = false;
  webhook_url = [];
  webhook_secret = [];
  destinations = [];
}
