-- ===== src/Middleware/Metrics.antt =====
-- middleware/metrics.go: the label of a route and the gate of /metrics.
use tiny_url.Prelude.{Text, Bool, true, false, none, some, is_empty, same, codes, if◌then◌else◌}
use tiny_url.Prelude.Strings.{strip_prefix, trim_space}

unfoldable pub route_label : Text → Text
route_label pattern_ = if is_empty pattern_ then codes "unmatched" else pattern_

-- GatedMetricsHandler: whether a scrape is answered, rather than refused with 401
unfoldable pub may_scrape : Text → Text → Bool
may_scrape token authorization =
    if is_empty token then true else elim (strip_prefix (codes "Bearer ") authorization) [
      | none ↦ false
      | some got ↦ same (trim_space got) token
    ]
