-- ===== src/Services/Validation.antt =====
-- services/validation.go. Parameters: url.Parse, net.ParseIP, the resolver's LookupIPAddr (`none` for
-- an error, a timeout included), and Unicode's lower case. An address is 4 or 16 bytes. An error that
-- wraps another is the wrapped one.
pub mod Addresses
pub mod Tags
use tiny_url.Prelude.{
  ℕ, List, Text, Bool, true, false, Option, none, some, [], ◌∷◌, ◌++◌, ◌==◌, ◌&&◌, ◌||◌, not,
  length, leb, ltb, all, same, is_empty, is_some, codes, if◌then◌else◌, reverse, take, drop,
  get_elem?, text_eq, Option-cases,
}
use tiny_url.Prelude.Int.{ℤ, pos, lt_int}
use tiny_url.Prelude.Strings.{strip_prefix, trim_space, to_lower}
use tiny_url.Prelude.Table.{Table, lookup, assign}
use tiny_url.Models.{Destination}
use tiny_url.Services.DenyList.{DenyList, contains}

pub data ValidationError : Type 0 where
  invalid_url invalid_scheme url_too_long user_info invalid_host private_address denied_host :
      ValidationError
  invalid_custom_code reserved_code invalid_tag too_many_tags : ValidationError
  invalid_destination too_many_destinations : ValidationError

pub data Checked {ℓ} (A : Type ℓ) : Type ℓ where
  valid : A → Checked A
  invalid : ValidationError → Checked A

abbrev pub max_url_length : ℕ
max_url_length = 2048

abbrev pub max_destinations_per_url : ℕ
max_destinations_per_url = 10

abbrev pub max_destination_weight : ℕ
max_destination_weight = 100

abbrev pub max_tag_length : ℕ
max_tag_length = 32

abbrev pub max_tags_per_url : ℕ
max_tags_per_url = 16

-- The loop of NormalizeTags, with the tags kept so far: `seen` has the same tags as `out`.
unfoldable pub collect_tags : List Text → List Text → Table Text (Unit {0}) → Checked (List Text)
collect_tags [] out seen = valid out
collect_tags (raw ∷ rest) out seen =
    let t = trim_space raw in
    let skip = collect_tags rest out seen in
    let keep = collect_tags rest (out ++ t ∷ []) (assign t tt seen) in
    if is_empty t
    then skip
    else if ltb max_tag_length (length t)
    then invalid invalid_tag
    else if is_some (lookup t seen)
    then skip
    else keep

unfoldable pub normalize_tags : List Text → Checked (List Text)
normalize_tags [] = valid []
normalize_tags (raw ∷ rest) = elim (collect_tags (raw ∷ rest) [] []) [
  | invalid e ↦ invalid e
  | valid out ↦ if ltb max_tags_per_url (length out) then invalid too_many_tags else valid out
]

abbrev pub v4_in_v6 : Text
v4_in_v6 = 0 ∷ 0 ∷ 0 ∷ 0 ∷ 0 ∷ 0 ∷ 0 ∷ 0 ∷ 0 ∷ 0 ∷ 255 ∷ 255 ∷ []

-- ip.To4()
unfoldable pub to4 : Text → Option Text
to4 ip =
    if length ip == 4
    then some ip
    else if (length ip == 16) && same (take 12 ip) v4_in_v6
    then some (drop 12 ip)
    else none

-- ip[i], for an index in range
abbrev pub byte_at : ℕ → Text → ℕ
byte_at i ip = elim (get_elem? ip i) [ none ↦ 0 | some b ↦ b ]

-- net.IP's tests on the four bytes of an IPv4 address, in the order of the switch
unfoldable pub category4 : Text → Text
category4 ip =
    let a = byte_at 0 ip in
    let b = byte_at 1 ip in
    if a == 127
    then codes "loopback"
    else if (a == 169) && (b == 254)
    then codes "link-local"
    else if leb 224 a && leb a 239
    then codes "multicast"
    else if (a == 10) || ((a == 172) && leb 16 b && leb b 31) || ((a == 192) && (b == 168))
    then codes "private"
    else if same ip (0 ∷ 0 ∷ 0 ∷ 0 ∷ [])
    then codes "unspecified"
    else if (a == 100) && leb 64 b && leb b 127
    then codes "cgnat"
    else []

abbrev fifteen_zeros : Text
fifteen_zeros = 0 ∷ 0 ∷ 0 ∷ 0 ∷ 0 ∷ 0 ∷ 0 ∷ 0 ∷ 0 ∷ 0 ∷ 0 ∷ 0 ∷ 0 ∷ 0 ∷ 0 ∷ []

-- and on the bytes of another address
unfoldable pub category6 : Text → Text
category6 ip =
    let a = byte_at 0 ip in
    let b = byte_at 1 ip in
    if same ip (fifteen_zeros ++ 1 ∷ [])
    then codes "loopback"
    else if (length ip == 16) && (a == 254) && leb 128 b && leb b 191
    then codes "link-local"
    else if (length ip == 16) && (a == 255)
    then codes "multicast"
    else if (length ip == 16) && leb 252 a && leb a 253
    then codes "private"
    else if same ip (fifteen_zeros ++ 0 ∷ [])
    then codes "unspecified"
    else []

unfoldable pub categorize_ip : Text → Text
categorize_ip ip = elim (to4 ip) [ some ip4 ↦ category4 ip4 | none ↦ category6 ip ]

abbrev pub is_routable : Text → Bool
is_routable ip = is_empty (categorize_ip ip)

pub record ParsedUrl : Type 0 where
  pub scheme : Text
  pub has_user : Bool
  pub hostname : Text

pub record Network : Type 0 where
  pub unicode_lower : Text → Text
  pub parse_url : Text → Option ParsedUrl
  pub parse_ip : Text → Option Text
  pub lookup_ip_addr : Text → Option (List Text)

abbrev pub first_error : Option ValidationError → Option ValidationError → Option ValidationError
first_error none later = later
first_error (some e) later = some e

-- strings.HasSuffix
abbrev pub has_suffix : Text → Text → Bool
has_suffix suffix s = is_some (strip_prefix (reverse suffix) (reverse s))

module _ (N : Network) where
  -- The result is `none` for nil.
  unfoldable pub validate_host_at_runtime : Text → Option ValidationError
  validate_host_at_runtime host =
      let lower = to_lower N.unicode_lower host in
      if is_empty host
      then some invalid_host
      else if same lower (codes "localhost") || has_suffix (codes ".localhost") lower
      then some private_address
      else elim (N.parse_ip host) [
        | some ip ↦ if is_routable ip then none else some private_address
        | none ↦ elim (N.lookup_ip_addr host) [
          | none ↦ some invalid_host
          | some [] ↦ some invalid_host
          | some (ip ∷ ips) ↦ if all is_routable (ip ∷ ips) then none else some private_address
        ]
      ]

  unfoldable pub validate_destination_url : Text → DenyList → Option ValidationError
  validate_destination_url raw deny =
      if ltb max_url_length (length raw) then some url_too_long else elim (N.parse_url raw) [
        | none ↦ some invalid_url
        | some u ↦
            if not (same u.scheme (codes "http") || same u.scheme (codes "https"))
            then some invalid_scheme
            else if u.has_user
            then some user_info
            else if contains N.unicode_lower deny u.hostname
            then some denied_host
            else validate_host_at_runtime u.hostname
      ]

  -- The loop of ValidateDestinations. The copy that it builds is the list itself.
  unfoldable pub check_destinations : List Destination → DenyList → Option ValidationError
  check_destinations [] deny = none
  check_destinations (d ∷ rest) deny =
      let later = check_destinations rest deny in
      if lt_int d.weight (pos 1) || lt_int (pos max_destination_weight) d.weight
      then some invalid_destination
      else first_error (validate_destination_url d.url deny) later

  unfoldable pub validate_destinations : List Destination → DenyList → Checked (List Destination)
  validate_destinations dests deny =
      if ltb max_destinations_per_url (length dests)
      then invalid too_many_destinations
      else elim (check_destinations dests deny) [ none ↦ valid dests | some e ↦ invalid e ]

  abbrev reserved_codes : Table Text (Unit {0})
  reserved_codes =
      (codes "api", tt)
      ∷ (codes "static", tt)
      ∷ (codes "healthz", tt)
      ∷ (codes "favicon.ico", tt)
      ∷ (codes "robots.txt", tt)
      ∷ []

  abbrev pub is_code_char : ℕ → Bool
  is_code_char c =
      (leb 65 c && leb c 90)
      || (leb 97 c && leb c 122)
      || (leb 48 c && leb c 57)
      || (c == 95)
      || (c == 45)

  -- ^[A-Za-z0-9_-]{3,32}$
  abbrev pub matches_custom_code : Text → Bool
  matches_custom_code code = all is_code_char code && leb 3 (length code) && leb (length code) 32

  unfoldable pub validate_custom_code : Text → Option ValidationError
  validate_custom_code code =
      if is_some (lookup (to_lower N.unicode_lower code) reserved_codes)
      then some reserved_code
      else if matches_custom_code code
      then none
      else some invalid_custom_code
