-- ===== src/Store.antt =====
-- services/storage.go: the contract between the handlers and a storage backend. A method takes the
-- state last and returns its result, beside the new state if it writes; where a method reads the
-- clock, the reading is its first argument.
pub mod Memory
use tiny_url.Prelude.{List, Option, Bool, Text}
use tiny_url.Prelude.Int.{ℤ}
use tiny_url.Models.{Time, Duration, Destination, UrlMapping, ClickEvent, ApiKey, AuditEvent}

-- The sentinel errors; `backend` is any other error of a backend, and `panicked` a runtime panic,
-- which the Recover middleware answers as it answers a backend error.
pub data StoreError : Type 0 where
  not_found expired code_conflict backend panicked : StoreError

pub data Result {ℓ} (A : Type ℓ) : Type ℓ where
  ok : A → Result A
  err : StoreError → Result A

abbrev pub Done : Type 0
Done = Unit {0}

-- What a PATCH, or the unfurler, asks the store to change; `none` leaves a field alone.
pub record UpdateFields : Type 0 where
  pub original_url : Option Text
  pub expires_at : Option Time
  pub clear_expiration : Bool
  pub tags : Option (List Text)
  pub max_clicks : Option ℤ
  pub password_hash : Option Text
  pub password_salt : Text
  pub clear_password : Bool
  pub webhook_url : Option Text
  pub webhook_secret : Option Text
  pub clear_webhook : Bool
  pub api_key_id : Option ℤ
  pub preview_title : Option Text
  pub preview_image : Option Text
  pub preview_description : Option Text
  pub set_preview_fetched : Bool
  pub destinations : Option (List Destination)

-- Ping, StartCleanupRoutine and Close manage the backend's connection and goroutine.
pub record Store : Type 1 where
  pub State : Type 0
  pub set : Text → UrlMapping → State → Result Done × State
  pub get : Time → Text → State → Result UrlMapping
  pub delete : Text → State → Result Done × State
  pub exists : Text → State → Bool
  pub record_click : Text → ClickEvent → State → Result Done × State
  pub recent_clicks : Text → ℤ → State → Result (List ClickEvent)
  pub update : Time → Text → UpdateFields → State → Result Done × State
  pub clicks_by_bucket : Text → Time → Duration → ℤ → State → Result (List ℤ)
  pub rotate_token : Text → Text → State → Result Done × State
  pub create_api_key : Time → Text → Text → State → Result ApiKey × State
  pub lookup_api_key : Time → Text → State → Result ApiKey × State
  pub get_api_key : ℤ → State → Result ApiKey
  pub delete_api_key : ℤ → State → Result Done × State
  pub update_api_key_label : ℤ → Text → State → Result Done × State
  pub list_urls_by_api_key : ℤ → ℤ → ℤ → State → Result (List UrlMapping)
  pub log_audit : Time → AuditEvent → State → Result Done × State
  pub recent_audit_events : ℤ → ℤ → State → Result (List AuditEvent)
