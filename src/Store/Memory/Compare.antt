-- ===== src/Store/Memory/Compare.antt =====
-- The constant-time comparison of token hashes is equality of byte strings.
use Prim.Native.Nat.{bit_or, bit_xor}
use tiny_url.Prelude.{
  ℕ, zero, suc, ◌<◌, Bool, true, false, ◌&&◌, ◌≡◌, refl, ap, ◌↔◌, Text, [], ◌∷◌, arith, ◌==◌, ltb,
  ==_iff, length, All, same, same_iff, Bool-cases, inl, inr,
}
use tiny_url.Store.Memory.Keys.{xor_all, bytes_equal_const_time}

-- A test that every number below a bound passes.
passes_upto : (ℕ → Bool) → ℕ → Bool
passes_upto test zero = true
passes_upto test (suc bound) = passes_upto test bound && test bound

passes_upto-at :
    (test : ℕ → Bool) (bound : ℕ)
    → passes_upto test bound ≡ true
    → (y : ℕ) → y < bound
    → test y ≡ true
unfolding passes_upto
passes_upto-at test zero every y below = absurd (omega arith)
passes_upto-at test (suc bound) every y below =
    let earlier : passes_upto test bound ≡ true = ground (arith, every) in
    let ih : y < bound → test y ≡ true = passes_upto-at test bound earlier y in
    ground (arith, every, ih)

abbrev equal_bits : Bool → Bool → Bool
equal_bits true b = b
equal_bits false true = false
equal_bits false false = true

-- What the loop uses of two bytes: their exclusive or is 0 when they are equal, an or is 0 when both
-- are, and both are bytes.
abbrev byte_facts : ℕ → ℕ → Bool
byte_facts x y =
    equal_bits (bit_xor x y == 0) (x == y)
    && equal_bits (bit_or x y == 0) ((x == 0) && (y == 0))
    && ltb (bit_xor x y) 256
    && ltb (bit_or x y) 256

byte_table : passes_upto (λ x. passes_upto (byte_facts x) 256) 256 ≡ true
unfolding passes_upto
byte_table = refl

byte_facts_hold : (x y : ℕ) → x < 256 → y < 256 → byte_facts x y ≡ true
byte_facts_hold x y p q =
    passes_upto-at (byte_facts x) 256
      (passes_upto-at (λ n. passes_upto (byte_facts n) 256) 256 byte_table x p) y q

abbrev pub IsBytes : Text → Type 0
IsBytes = All (λ c. c < 256)

xor_all-eq-zero :
    (v : ℕ) (a b : Text)
    → v < 256
    → IsBytes a
    → IsBytes b
    → length a ≡ length b
    → (xor_all v a b == 0) ≡ ((v == 0) && same a b)
unfolding xor_all same
xor_all-eq-zero v [] [] p ha hb e = ground arith
xor_all-eq-zero v [] (y ∷ b) p ha hb e = absurd (omega arith)
xor_all-eq-zero v (x ∷ a) [] p ha hb e = absurd (omega arith)
xor_all-eq-zero v (x ∷ a) (y ∷ b) p (hx, ha) (hy, hb) e = ground (
  arith,
  byte_facts_hold x y hx hy,
  byte_facts_hold v (bit_xor x y) p,
  xor_all-eq-zero (bit_or v (bit_xor x y)) a b,
)

same_lengths :
    (a b : Text)
    → IsBytes a
    → IsBytes b
    → length a ≡ length b
    → bytes_equal_const_time a b ≡ same a b
unfolding bytes_equal_const_time
same_lengths a b ha hb e = ground (arith, xor_all-eq-zero 0 a b)

-- On byte strings the constant-time comparison is equality.
pub bytes_equal_const_time_iff :
    (a b : Text) → IsBytes a → IsBytes b → (bytes_equal_const_time a b ≡ true) ↔ (a ≡ b)
bytes_equal_const_time_iff a b ha hb = elim (Bool-cases (length a == length b)) [
  | inl e ↦ rw (same_lengths a b ha hb ((==_iff _ _).0 e)) (same_iff a b)
  | inr ne ↦ (
    λ h. unfold bytes_equal_const_time in ground arith,
    λ h. absurd (ground (arith, ap length h)),
  )
]
