-- ===== src/Services/ShortCode.antt =====
-- services/shortcode.go. The reads of crypto/rand that are still to come are a list, `none` for a
-- read that fails; each read fills the whole buffer or fails, as rand.Read does. A loop that needs
-- more reads than the list has is `starved`, which is no answer of the code.
pub mod Draws
pub mod Uniform
pub mod Retries
use tiny_url.Prelude.{
  ℕ, zero, suc, ◌-◌, ◌%◌, List, Text, Bool, Option, none, some, [], ◌∷◌, ◌++◌, length, get_elem?,
  leb, ltb, if◌then◌else◌, codes,
}

abbrev pub short_code_length : ℕ
short_code_length = 6

abbrev pub max_retries : ℕ
max_retries = 5

abbrev pub base62_chars : Text
base62_chars = codes "0123456789abcdefghijklmnopqrstuvwxyzABCDEFGHIJKLMNOPQRSTUVWXYZ"

abbrev pub base62_reject_threshold : ℕ
base62_reject_threshold = 256 - 256 % 62

pub data Drawn : Type 0 where
  drawn : Text → List (Option Text) → Drawn
  failed exhausted starved : Drawn

-- base62Chars[b%byte(len(base62Chars))]; the index is in range.
unfoldable pub symbol : ℕ → ℕ
symbol b = elim (get_elem? base62_chars (b % 62)) [ none ↦ 0 | some c ↦ c ]

-- The loop over one buffer, where `code` is the part of the code before pos.
unfoldable pub fill : ℕ → Text → Text → Text
fill size code [] = code
fill size code (b ∷ buf) =
    if leb base62_reject_threshold b
    then fill size code buf
    else if leb size (length (code ++ symbol b ∷ []))
    then code ++ symbol b ∷ []
    else fill size (code ++ symbol b ∷ []) buf

-- for pos < length { … }
unfoldable pub refill : ℕ → Text → List (Option Text) → Drawn
refill size code [] = if leb size (length code) then drawn code [] else starved
refill size code (none ∷ reads) =
    if leb size (length code) then drawn code (none ∷ reads) else failed
refill size code (some buf ∷ reads) =
    let more = refill size (fill size code buf) reads in
    if leb size (length code) then drawn code (some buf ∷ reads) else more

unfoldable pub generate_random_base62 : ℕ → List (Option Text) → Drawn
generate_random_base62 size reads = refill size [] reads

-- The loop of GenerateShortCode, with `n` retries left; the store's Exists is a parameter.
unfoldable pub retry : (Text → Bool) → ℕ → List (Option Text) → Drawn
retry exists zero reads = exhausted
retry exists (suc n) reads = elim (generate_random_base62 short_code_length reads) [
  | drawn code rest ↦ if exists code then retry exists n rest else drawn code rest
  | failed ↦ failed
  | exhausted ↦ exhausted
  | starved ↦ starved
]

unfoldable pub generate_short_code : (Text → Bool) → List (Option Text) → Drawn
generate_short_code exists reads = retry exists max_retries reads
