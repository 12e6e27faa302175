-- ===== src/Services/ShortCode/Uniform.antt =====
-- The distribution of the characters that the rejection sampling of shortcode.go draws.
use tiny_url.Prelude.{
  ℕ, zero, suc, ◌+◌, List, Bool, true, [], ◌∷◌, ◌≡◌, refl, ap, arith, ◌==◌, ◌&&◌, length, select,
  all, not, get_elem?, some, some_inj, leb, ==_iff,
}
use tiny_url.Services.ShortCode.{base62_chars, base62_reject_threshold, symbol}

abbrev range : ℕ → ℕ → List ℕ
range from zero = []
range from (suc n) = from ∷ range (from + 1) n

-- The bytes that the sampling keeps and turns into the character c.
unfoldable pub bytes_of_symbol : ℕ → List ℕ
unfolding symbol
bytes_of_symbol c =
    select (λ b. not (leb base62_reject_threshold b) && (symbol b == c)) (range 0 256)

four_each : all (λ c. length (bytes_of_symbol c) == 4) base62_chars ≡ true
unfolding bytes_of_symbol
four_each = refl

all_at :
    {A : Type 0} (p : A → Bool) (xs : List A) (i : ℕ) (x : A)
    → all p xs ≡ true
    → get_elem? xs i ≡ some x
    → p x ≡ true
all_at p [] i x h e = cc
all_at p (y ∷ xs) zero x h e = ground (arith, ap p (some_inj y x e))
all_at p (y ∷ xs) (suc i) x h e = all_at p xs i x (ground arith) e

-- Each of the 62 characters is the image of exactly four of the 256 byte values, so a uniform byte
-- that the rejection threshold lets through gives a uniform character.
pub bytes_of_symbol_lem :
    (i c : ℕ) → get_elem? base62_chars i ≡ some c → length (bytes_of_symbol c) ≡ 4
bytes_of_symbol_lem i c e =
    (==_iff (length (bytes_of_symbol c)) 4).0
      (all_at (λ d. length (bytes_of_symbol d) == 4) base62_chars i c four_each e)
