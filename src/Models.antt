-- ===== src/Models.antt =====
-- models/url.go, models/click.go, models/apikey.go and models/audit.go: the program's records.
-- A `time.Time` is its distance in nanoseconds from Go's zero time, a `time.Duration` is an int64
-- of nanoseconds, a nil pointer is `none`, and a nil slice is the empty one wherever the program
-- only asks for its length.
use tiny_url.Prelude.{Bool, List, Option, Text}
use tiny_url.Prelude.Int.{ℤ}

abbrev pub Time : Type 0
Time = ℤ

abbrev pub Duration : Type 0
Duration = ℤ

pub record Destination : Type 0 where
  pub url : Text
  pub weight : ℤ

pub record UrlMapping : Type 0 where
  pub id : Text
  pub original_url : Text
  pub created_at : Time
  pub expires_at : Option Time
  pub click_count : ℤ
  pub last_accessed : Option Time
  pub owner_token_hash : Text
  pub tags : List Text
  pub max_clicks : ℤ
  pub password_hash : Text
  pub password_salt : Text
  pub webhook_url : Text
  pub webhook_secret : Text
  pub api_key_id : ℤ
  pub preview_title : Text
  pub preview_image : Text
  pub preview_description : Text
  pub preview_fetched_at : Option Time
  pub destinations : List Destination

pub record ShortenRequest : Type 0 where
  pub url : Text
  pub expiration_mins : ℤ
  pub custom_code : Text
  pub tags : List Text
  pub max_clicks : ℤ
  pub password : Text
  pub webhook_url : Text
  pub destinations : List Destination

pub record ClickEvent : Type 0 where
  pub at : Time
  pub ip_hash : Text
  pub referer : Text
  pub ua_class : Text
  pub country : Text
  pub destination_url : Text

pub record ApiKey : Type 0 where
  pub id : ℤ
  pub token_hash : Text
  pub label : Text
  pub created_at : Time
  pub last_used_at : Option Time

pub record AuditEvent : Type 0 where
  pub id : ℤ
  pub at : Time
  pub actor_kind : Text
  pub actor_id : Text
  pub action : Text
  pub target_kind : Text
  pub target_id : Text
  pub metadata : Text
  pub request_id : Text

pub record ApiKeyResponse : Type 0 where
  pub id : ℤ
  pub label : Text
  pub created_at : Time
  pub last_used_at : Option Time

pub record CreateApiKeyResponse : Type 0 where
  pub id : ℤ
  pub label : Text
  pub created_at : Time
  pub token : Text

pub record CountryCount : Type 0 where
  pub iso : Text
  pub count : ℤ

pub record AnalyticsResponse : Type 0 where
  pub short_code : Text
  pub original_url : Text
  pub click_count : ℤ
  pub created_at : Time
  pub expires_at : Option Time
  pub last_accessed : Option Time
  pub tags : List Text
  pub max_clicks : ℤ
  pub has_password : Bool
  pub webhook_url : Text
  pub preview_title : Text
  pub preview_image : Text
  pub preview_description : Text
  pub preview_fetched_at : Option Time
  pub destinations : List Destination
  pub top_countries : List CountryCount
