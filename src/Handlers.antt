-- ===== src/Handlers.antt =====
-- handlers/: the HTTP handlers, each a function from a request and the store's state to a response
-- and the store's state. Every handler is written over the contract of Store.
pub mod Auth
pub mod Owner
pub mod Redirect
pub mod Shorten
pub mod Access
pub mod Revoked
pub mod Clicked
pub mod ClickCap
pub mod Gates
pub mod Admitted
pub mod Patch
pub mod Bulk
pub mod ApiKeys
pub mod PosInt
pub mod MyUrls
pub mod Query
pub mod Views
pub mod Images
pub mod Stream
pub mod Followed
pub mod Checks
pub mod Series
pub mod Analytics
use tiny_url.Prelude.{ℕ, List, Text, Option, codes}
use tiny_url.Prelude.Int.{ℤ}
use tiny_url.Models.{Time}
use tiny_url.Store.{StoreError, not_found, expired, code_conflict, backend, panicked}

-- What the handlers read of a request. `password` is the form's field, `none` if the form does not
-- parse, and `client_ip` the answer of ClientIP.
pub record Request : Type 0 where
  pub method : Text
  pub code : Text
  pub authorization : Text
  pub referer : Text
  pub user_agent : Text
  pub client_ip : Text
  pub password : Option Text
  pub request_id : Text

pub data Response : Type 0 where
  plain : ℕ → Text → Response
  form : ℕ → Text → Response
  token_issued : Text → Text → Response
  found : Text → Response

-- The n-th reading of the clock that a handler takes.
abbrev pub Clock : Type 0
Clock = ℕ → Time

-- The switch on the error of a Get.
unfoldable pub refusal : StoreError → Response
refusal not_found = plain 404 (codes "404 page not found")
refusal expired = plain 410 (codes "This URL has expired")
refusal code_conflict = plain 500 (codes "Internal server error")
refusal backend = plain 500 (codes "Internal server error")
refusal panicked = plain 500 (codes "Internal server error")
