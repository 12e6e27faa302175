-- ===== src/Middleware/Headers.antt =====
-- middleware/csrf.go, middleware/requestid.go and middleware/security.go: what they read and write of a
-- request's headers. A header that is absent is empty.
use tiny_url.Prelude.{
  List, Text, Bool, [], ◌∷◌, ◌||◌, Option, none, some, not, is_empty, same, length, ltb, codes,
  if◌then◌else◌,
}
use tiny_url.Services.Clicks.{hex_encode}
use tiny_url.Handlers.{Response, plain}

-- RequireXRequestedWith: `none` passes the request on.
unfoldable pub require_x_requested_with : Text → Option Response
require_x_requested_with header =
    if not (same header (codes "XMLHttpRequest"))
    then some (plain 403 (codes "missing required header X-Requested-With"))
    else none

-- newRequestID, of the eight random bytes
unfoldable pub new_request_id : Text → Text
new_request_id bytes = hex_encode bytes

unfoldable pub request_id : Text → Text → Text
unfolding new_request_id
request_id bytes inbound =
    if is_empty inbound || ltb 64 (length inbound) then new_request_id bytes else inbound

unfoldable pub security_headers : Bool → List (Text × Text)
security_headers tls_enabled =
    (codes "X-Content-Type-Options", codes "nosniff")
    ∷ (codes "X-Frame-Options", codes "DENY")
    ∷ (codes "Referrer-Policy", codes "no-referrer")
    ∷ (
      codes "Content-Security-Policy",
      codes
          "default-src 'self'; img-src 'self' data:; style-src 'self'; script-src 'self'; base-uri 'self'; form-action 'self'; frame-ancestors 'none'",
    )
    ∷ (if tls_enabled
        then (codes "Strict-Transport-Security", codes "max-age=31536000; includeSubDomains") ∷ []
        else [])
