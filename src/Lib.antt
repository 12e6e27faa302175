-- ===== src/Lib.antt =====
-- tiny-url, a URL shortener in Go: a model of its core and what is proved of it.
--
-- The program is an HTTP server. A request passes the middleware (middleware/), reaches a handler
-- (handlers/), which validates it with the services (services/) and reads or changes the store, an
-- implementation of the interface Store of services/storage.go. The handlers meet the store only
-- through that interface, so here they are functions over the record `Store`, and the theorems on
-- them are about every store, or about MemoryStore where the store's own behaviour matters.
--
-- What models which part:
--   Models                models/*.go: the records.
--   Store                 services/storage.go: the errors, UpdateFields, the interface Store.
--   Store.Memory          services/storage.go: MemoryStore. State has its fields; Urls, Clicks, Keys,
--                         Audit, Listing and Series have its methods; Contract is the interface filled
--                         by them; History is a life of the store as a sequence of calls, with the
--                         abstract store that it follows in History.Refinement. Maps, Compare,
--                         Lifecycle, Clicklog, Ownership, KeyLookup, Paging, Listed, Windows and Buckets are
--                         proofs.
--   Services.ShortCode    services/shortcode.go: GenerateShortCode, generateRandomBase62.
--   Services.Destinations services/destination_picker.go: PickDestination.
--   Services.DenyList     services/denylist.go: NewDenyList, MergeDenyLists, Contains; loadDenyList
--                         of main.go.
--   Services.DnsCache     services/dnscache.go: NewDNSCache, ValidateHost, evictIfFullLocked.
--   Services.Validation   services/validation.go: URLs, hosts, addresses, tags, custom codes.
--   Services.Clicks       services/clicks.go: what a click event keeps of its request.
--   Services.ClickStream  services/clickstream.go: subscriptions, Publish, Close. Sound and Delivered
--                         are proofs.
--   Services.Webhooks     services/webhook.go: the queue, a delivery, its signature. Deliveries are proofs.
--   Services.Unfurl       services/unfurl.go: the queue, a fetch, parsePreview. Previews are proofs.
--   Middleware.RateLimit  middleware/ratelimit.go: the steps of a request and of the janitor; Moves has
--                         their sequences, Room and Bound are proofs.
--   Middleware.ClientIp   middleware/ratelimit.go: ClientIP.
--   Middleware.Metrics    middleware/metrics.go: the label of a route, the gate of /metrics.
--   Middleware.Headers    middleware/csrf.go, middleware/requestid.go, middleware/security.go.
--   Config                config/config.go: Load and ValidateBaseURL.
--   Handlers.Auth         handlers/auth.go: bearer tokens, owners, API keys, actors.
--   Handlers.Owner        handlers/delete.go and handlers/rotate.go.
--   Handlers.Redirect     handlers/redirect.go, and verifyPassword of handlers/password.go.
--   Handlers.Shorten      handlers/shorten.go: shortenOne and detectAPIKey, with hashPassword of
--                         handlers/password.go; Shorten.Serve has ServeHTTP.
--   Handlers.Gates        the early returns, and the guard of the owner's handlers.
--   Handlers.Patch        handlers/patch.go: the checks; Patch.Serve has ServeHTTP.
--   Handlers.Bulk         handlers/shorten_bulk.go.
--   Handlers.ApiKeys      handlers/apikey.go: APIKeyHandler; MyUrls and PosInt have its MyURLsHandler
--                         and parsePosInt.
--   Handlers.Analytics    handlers/analytics.go.
--   Handlers.Series       handlers/series.go.
--   Handlers.Views        handlers/clicks.go, handlers/export.go and handlers/audit.go, with the
--                         numbers in their queries in Query.
--   Handlers.Images       handlers/badge.go, handlers/qr.go, handlers/health.go, handlers/ready.go.
--   Handlers.Stream       handlers/stream.go: the frames of live clicks.
--   Handlers.Access, Revoked, Checks, Clicked, Followed, ClickCap, Admitted, Shorten.Created, Patch.Accepted,
--                         Patch.Effect, Bulk.Stored, ApiKeys.Lifecycle, and the children of Analytics
--                         and Series are proofs.
--   Tests                 the theorems at concrete inputs.
--
-- State and time. A method that changes state takes the state last and returns the new one beside its
-- result. MemoryStore's methods hold its mutex throughout, so each is one step. A reading of the clock
-- is an argument; a handler that reads it several times gets a `Clock`. A time is an integer of
-- nanoseconds since Go's zero time. Counters and sizes of type int are int64, with their wrap-around
-- (Prelude.Words).
--
-- Loops and bounds. All loops are structural recursions but one: generateRandomBase62 reads random
-- bytes until it has enough of them, and here runs over a list of reads that are still to come. A list
-- that is too short is the outcome `starved`; a list with enough bytes below the threshold is enough.
--
-- Parameters. SHA-256, HMAC, PBKDF2, base64url, url.Parse, net.ParseIP, net.SplitHostPort, the
-- resolver, the HTTP clients, the HTML tokenizer, sort.Slice, the decoder of JSON bodies (a body is what
-- it makes of the bytes, or nothing), the layout of a time, os.Getenv, strconv.Atoi, the encoder of QR
-- codes, the generator behind PickDestination, regular expressions and Unicode's lower case for text
-- that is not ASCII are arguments of the definitions that use them.
--
-- Not modelled: the SQLite and Postgres stores, which are SQL run by an engine; the bytes of JSON, CSV and
-- SVG; static files, logging, the counters of metrics, tracing, GeoIP and the server's start and stop.
-- Goroutines are modelled where they share state: as sequences of MemoryStore's calls, of the DNS
-- cache's and the click stream's locked sections, and of the steps of the limiter's requests and of its
-- janitor, which unlocks a bucket before it deletes it. A handler's steps are not interleaved with
-- another request's, and neither are the workers behind the queues of webhooks and previews with a
-- Close. Where Go ranges over MemoryStore's map of mappings for a listing, the order, and what
-- sort.Slice does with equal elements, are an argument that may differ from call to call.
pub mod Prelude
pub mod Models
pub mod Config
pub mod Store
pub mod Services
pub mod Middleware
pub mod Handlers
mod Tests
