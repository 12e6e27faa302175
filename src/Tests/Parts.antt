-- ===== src/Tests/Parts.antt =====
-- services/ and middleware/ratelimit.go: the theorems of the shared parts, at concrete inputs.
use tiny_url.Middleware.RateLimit.{Bucket, Limiter}
use tiny_url.Middleware.RateLimit.Moves.{Move, loads, locks, looks, deletes}
use tiny_url.Prelude.{
  ◌≤◌, List, Text, Bool, true, false, Option, none, some, [], ◌∷◌, ◌++◌, ◌≡◌, refl, ◌↔◌, arith,
  codes, not, if◌then◌else◌, same, text_eq, length, take, map, All, IsIn,
}
use tiny_url.Prelude.Int.{ℤ, pos, ◌+ℤ◌, ◌<ℤ◌, ◌≤ℤ◌, le_int}
use tiny_url.Prelude.Strings.{trim_space, to_lower}
use tiny_url.Prelude.Table.{lookup, assign}
use tiny_url.Models.{Destination}
use tiny_url.Services.ShortCode.{
  short_code_length, drawn, symbol, fill, refill, generate_random_base62, retry,
  generate_short_code,
}
use tiny_url.Services.ShortCode.Uniform.{bytes_of_symbol, bytes_of_symbol_lem}
use tiny_url.Services.ShortCode.Draws.{sampled, concat, generate_random_base62_lem}
use tiny_url.Services.ShortCode.Retries.{IsBase62, generate_short_code-IsFresh}
use tiny_url.Services.Destinations.{picked, pick_destination}
use tiny_url.Services.Destinations.Shares.{pick_destination_share}
use tiny_url.Services.DenyList.{Hosts, contains, listed}
use tiny_url.Services.DenyList.Parents.{IsParent, contains_iff}
use tiny_url.Services.DnsCache.{new_dns_cache, cached, evict_if_full_locked, remember}
use tiny_url.Services.DnsCache.Fresh.{sections, dns_cache_bounded, cached_lem}
use tiny_url.Services.Validation.{
  v4_in_v6, is_routable, max_tags_per_url, collect_tags, normalize_tags,
}
use tiny_url.Services.Validation.Addresses.{is_reserved, number, is_routable-v4}
use tiny_url.Services.Validation.Tags.{IsDistinct, IsTag, normalize_tags_lem}

bytes_of_symbol_lem_example : length (bytes_of_symbol 48) ≡ 4
bytes_of_symbol_lem_example = bytes_of_symbol_lem 0 48 refl

-- One read of six bytes, the second of which is rejected, and another.
abbrev reads : List Text
reads = (1 ∷ 250 ∷ 3 ∷ 4 ∷ 5 ∷ 6 ∷ []) ∷ (7 ∷ 8 ∷ 9 ∷ 10 ∷ 11 ∷ 12 ∷ []) ∷ []

generate_random_base62_lem_example :
    (rest : List (Option Text)) × (generate_random_base62 6 (map some reads)
      ≡ drawn (take 6 (sampled (concat reads))) rest)
unfolding sampled
generate_random_base62_lem_example = generate_random_base62_lem 6 reads (omega arith)

abbrev clean : Text
clean = 1 ∷ 2 ∷ 3 ∷ 4 ∷ 5 ∷ 6 ∷ []

abbrev five : List Text
five = clean ∷ (7 ∷ 8 ∷ 9 ∷ 10 ∷ 11 ∷ 12 ∷ []) ∷ clean ∷ clean ∷ clean ∷ []

abbrev is_123456 : Text → Bool
is_123456 code = same code (codes "123456")

generate_short_code-IsFresh_example :
    (is_123456 (codes "789abc") ≡ false)
    × (length (codes "789abc") ≡ short_code_length)
    × All IsBase62 (codes "789abc")
unfolding generate_short_code retry generate_random_base62 refill fill symbol same
generate_short_code-IsFresh_example =
    generate_short_code-IsFresh is_123456 (map some five) (codes "789abc")
      (map some (clean ∷ clean ∷ clean ∷ [])) refl

abbrev nine_tenths : Destination
nine_tenths = record { url = codes "https://a.example"; weight = pos 90 }

abbrev one_tenth : Destination
one_tenth = record { url = codes "https://b.example"; weight = pos 10 }

pick_destination_share_example :
    pick_destination (λ n. pos 95) (nine_tenths ∷ one_tenth ∷ []) ≡ picked one_tenth
pick_destination_share_example =
    pick_destination_share (λ n. pos 95) 95 one_tenth (nine_tenths ∷ []) []
      ((89, refl), ((9, refl), tt)) (omega arith) refl (omega arith) (omega arith)

abbrev feed : Hosts
feed = (codes "evil.com", tt) ∷ []

contains_iff_example : (contains (λ s. s) (some feed) (codes "a.Evil.com") ≡ true) ↔ (
    (e : Text) × IsParent e (to_lower (λ s. s) (trim_space (codes "a.Evil.com")))
    × (listed e feed ≡ true))
unfolding to_lower trim_space
contains_iff_example = contains_iff (λ s. s) feed (codes "a.Evil.com") refl

abbrev writes : List (ℤ × Text × Option Text)
writes = (pos 7, codes "a.example", none) ∷ []

dns_cache_bounded_example :
    let c = sections writes (new_dns_cache {E = Text} (pos 10) (pos 2)) in
    pos (length c.data_) ≤ℤ (if le_int (pos 2) (pos 0) then pos 1024 else pos 2)
dns_cache_bounded_example = dns_cache_bounded {E = Text} (pos 10) (pos 2) writes

cached_lem_example :
    (at : ℤ) × IsIn (at, codes "a.example", none) writes
    × (pos 9 <ℤ at +ℤ (if le_int (pos 10) (pos 0) then pos 5000000000 else pos 10))
unfolding cached sections new_dns_cache remember evict_if_full_locked lookup assign same ◌+ℤ◌
cached_lem_example =
    cached_lem {E = Text} (pos 10) (pos 2) writes (pos 9) (codes "a.example") none refl

abbrev home : Text
home = 192 ∷ 168 ∷ 1 ∷ 7 ∷ []

is_routable-v4_example :
    (is_routable home ≡ not (is_reserved (number 192 168 1 7)))
    × (is_routable (v4_in_v6 ++ home) ≡ not (is_reserved (number 192 168 1 7)))
is_routable-v4_example =
    is_routable-v4 192 168 1 7 (omega arith) (omega arith) (omega arith) (omega arith)

normalize_tags_lem_example :
    (length (codes "x" ∷ []) ≤ max_tags_per_url)
    × IsDistinct (codes "x" ∷ [])
    × All IsTag (codes "x" ∷ [])
unfolding normalize_tags collect_tags trim_space lookup assign same
normalize_tags_lem_example = normalize_tags_lem (codes " x" ∷ codes "x" ∷ []) (codes "x" ∷ []) refl

abbrev ip : Text
ip = codes "10.0.0.1"

abbrev bucket : Bucket
bucket = record { count = pos 1; reset_at = pos 30 }

abbrev limiter : Limiter
limiter = record {
  rate = pos 2;
  window = pos 60;
  buckets = λ j. record { made = bucket ∷ []; stored = some 0 };
}

-- The bucket is refreshed between the janitor's look and its delete, and then there is a new one.
abbrev moves : List Move
moves =
    looks ip (pos 40)
    ∷ locks ip 0 (pos 40)
    ∷ deletes
    ∷ loads ip (pos 50)
    ∷ locks ip 1 (pos 50)
    ∷ locks ip 1 (pos 60)
    ∷ []
