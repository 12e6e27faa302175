-- ===== src/Services/Validation/Addresses.antt =====
-- The addresses that the SSRF guard of validation.go lets through.
use tiny_url.Prelude.{
  ℕ, ◌+◌, ◌*◌, ◌^◌, ◌<◌, Bool, true, false, [], ◌∷◌, ◌++◌, ◌≡◌, arith, leb, ◌==◌, ◌&&◌, ◌||◌, not,
  is_empty, same, if◌then◌else◌, codes,
}
use tiny_url.Services.Validation.{to4, category4, categorize_ip, is_routable, v4_in_v6}

-- An IPv4 address as a number, and the ranges that the guard names, first and last address.
abbrev pub number : ℕ → ℕ → ℕ → ℕ → ℕ
number a b c d = a * 2 ^ 24 + b * 2 ^ 16 + c * 2 ^ 8 + d

abbrev pub is_within : ℕ → ℕ → ℕ → Bool
is_within n lo hi = leb lo n && leb n hi

abbrev pub is_reserved : ℕ → Bool
is_reserved n =
    (n == 0)
    || is_within n (number 10 0 0 0) (number 10 255 255 255)
    || is_within n (number 100 64 0 0) (number 100 127 255 255)
    || is_within n (number 127 0 0 0) (number 127 255 255 255)
    || is_within n (number 169 254 0 0) (number 169 254 255 255)
    || is_within n (number 172 16 0 0) (number 172 31 255 255)
    || is_within n (number 192 168 0 0) (number 192 168 255 255)
    || is_within n (number 224 0 0 0) (number 239 255 255 255)

-- The switch on eight answers, whatever their order.
switch :
    (loopback linked multicast ten b172 b192 zeros shared : Bool)
    → is_empty (
        if loopback
        then codes "loopback"
        else if linked
        then codes "link-local"
        else if multicast
        then codes "multicast"
        else if ten || b172 || b192
        then codes "private"
        else if zeros
        then codes "unspecified"
        else if shared
        then codes "cgnat"
        else [])
      ≡ not (zeros || ten || shared || loopback || linked || b172 || b192 || multicast)
switch true linked multicast ten b172 b192 zeros shared = ground arith
switch false true multicast ten b172 b192 zeros shared = ground arith
switch false false true ten b172 b192 zeros shared = ground arith
switch false false false ten b172 b192 zeros shared = ground arith

module _ (a b c d : ℕ) (pa : a < 256) (pb : b < 256) (pc : c < 256) (pd : d < 256) where
  -- A range of first bytes, and one of first two bytes.
  first_byte :
      (lo hi : ℕ)
      → is_within (number a b c d) (number lo 0 0 0) (number hi 255 255 255)
        ≡ (leb lo a && leb a hi)
  first_byte lo hi = ground arith

  first_bytes :
      (x lo hi : ℕ)
      → hi < 256
      → is_within (number a b c d) (number x lo 0 0) (number x hi 255 255)
        ≡ ((a == x) && leb lo b && leb b hi)
  first_bytes x lo hi h = ground arith

  both_bytes :
      (x y : ℕ)
      → y < 256
      → is_within (number a b c d) (number x y 0 0) (number x y 255 255) ≡ ((a == x) && (b == y))
  both_bytes x y h = ground arith

  no_bytes : (number a b c d == 0) ≡ same (a ∷ b ∷ c ∷ d ∷ []) (0 ∷ 0 ∷ 0 ∷ 0 ∷ [])
  unfolding same
  no_bytes = ground arith

  exactly : (x y : ℕ) → (leb x y && leb y x) ≡ (y == x)
  exactly x y = ground arith

  v4 : is_empty (category4 (a ∷ b ∷ c ∷ d ∷ [])) ≡ not (is_reserved (number a b c d))
  unfolding category4
  v4 =
      rw
        (
          no_bytes,
          first_byte 10 10,
          first_bytes 100 64 127 (omega arith),
          first_byte 127 127,
          both_bytes 169 254 (omega arith),
          first_bytes 172 16 31 (omega arith),
          both_bytes 192 168 (omega arith),
          first_byte 224 239,
          exactly 10 a,
          exactly 127 a,
        )
        (switch (a == 127) ((a == 169) && (b == 254)) (leb 224 a && leb a 239) (a == 10)
          ((a == 172) && leb 16 b && leb b 31) ((a == 192) && (b == 168))
          (same (a ∷ b ∷ c ∷ d ∷ []) (0 ∷ 0 ∷ 0 ∷ 0 ∷ [])) ((a == 100) && leb 64 b && leb b 127))

-- An IPv4 address, whether it is given in four bytes or mapped into IPv6 in sixteen, is routable
-- exactly if its number is outside the reserved ranges: 0.0.0.0, 10/8, 100.64/10, 127/8, 169.254/16,
-- 172.16/12, 192.168/16 and 224/4.
pub is_routable-v4 :
    (a b c d : ℕ)
    → a < 256
    → b < 256
    → c < 256
    → d < 256
    → let ip = a ∷ b ∷ c ∷ d ∷ [] in
      (is_routable ip ≡ not (is_reserved (number a b c d)))
      × (is_routable (v4_in_v6 ++ ip) ≡ not (is_reserved (number a b c d)))
unfolding categorize_ip to4 category4 same
is_routable-v4 a b c d pa pb pc pd = (v4 a b c d pa pb pc pd, v4 a b c d pa pb pc pd)
