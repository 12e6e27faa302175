-- ===== src/Services/Clicks.antt =====
-- services/clicks.go: what a click event keeps of its request. SHA-256 and the three regular
-- expressions are parameters.
use tiny_url.Prelude.{
  ℕ, ◌+◌, ◌/◌, ◌%◌, Text, Bool, true, [], ◌∷◌, ◌++◌, length, ltb, take, is_empty, codes,
  if◌then◌else◌, none, some,
}
use tiny_url.Prelude.Strings.{strip_prefix, to_lower}

abbrev pub max_referer_length : ℕ
max_referer_length = 512

unfoldable pub truncate_referer : Text → Text
truncate_referer r = if ltb max_referer_length (length r) then take max_referer_length r else r

abbrev pub hex_digit : ℕ → ℕ
hex_digit d = if ltb d 10 then 48 + d else 87 + d

-- hex.EncodeToString
unfoldable pub hex_encode : Text → Text
hex_encode [] = []
hex_encode (b ∷ bytes) = hex_digit (b / 16) ∷ hex_digit (b % 16) ∷ hex_encode bytes

unfoldable pub hash_ip : (Text → Text) → Text → Text → Text
hash_ip sha256 salt ip = if is_empty ip then [] else hex_encode (sha256 (salt ++ ip))

-- strings.Contains
abbrev pub contains_text : Text → Text → Bool
contains_text p [] = is_empty p
contains_text p (c ∷ s) = elim (strip_prefix p (c ∷ s)) [
  | some rest ↦ true
  | none ↦ contains_text p s
]

unfoldable pub classify_user_agent :
    (Text → Text) → (Text → Bool) → (Text → Bool) → (Text → Bool) → Text → Text
classify_user_agent unicode_lower ua_bot ua_tablet ua_mobile ua =
    if is_empty ua
    then codes "unknown"
    else if ua_bot ua
    then codes "bot"
    else if ua_tablet ua
    then codes "tablet"
    else if ua_mobile ua
    then codes "mobile"
    else if contains_text (codes "mozilla") (to_lower unicode_lower ua)
    then codes "desktop"
    else codes "unknown"

-- SetClickSalt: the new salt, of the sixteen random bytes
unfoldable pub set_click_salt : Text → Text → Text
set_click_salt random salt = if is_empty salt then random else salt
