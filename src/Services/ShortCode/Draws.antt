-- ===== src/Services/ShortCode/Draws.antt =====
-- What generateRandomBase62 and GenerateShortCode return.
use mathlib.Core.List.{append-nil, append_assoc}
use tiny_url.Prelude.{
  ℕ, suc, ◌+◌, ◌-◌, ◌≤◌, ◌<◌, List, Text, Option, some, [], ◌∷◌, ◌++◌, ◌≡◌, refl, sym, ap, ◌∙◌,
  arith, length, length-append, length-take, take, take-nil, take-append, select, map, not, leb,
  leb→le, le→leb, Bool-cases, inl, inr,
}
use tiny_url.Services.ShortCode.{
  base62_reject_threshold, drawn, symbol, fill, refill, generate_random_base62,
}

-- The characters of the bytes below the threshold, in order.
unfoldable pub sampled : Text → Text
sampled bytes = map symbol (select (λ b. not (leb base62_reject_threshold b)) bytes)

abbrev pub concat : List Text → Text
concat [] = []
concat (buf ∷ bufs) = buf ++ concat bufs

sampled-append : (a b : Text) → sampled (a ++ b) ≡ sampled a ++ sampled b
unfolding sampled
sampled-append [] b = refl
sampled-append (x ∷ a) b = elim (Bool-cases (leb base62_reject_threshold x)) [
  | inl out ↦ rw out (sampled-append a b)
  | inr in_ ↦ rw in_ (ap (λ l. symbol x ∷ l) (sampled-append a b))
]

one_more :
    (size : ℕ) (code : Text) (c : ℕ) (cs : Text)
    → length code < size
    → c ∷ take (size - length (code ++ c ∷ [])) cs ≡ take (size - length code) (c ∷ cs)
one_more size code c cs room =
    ap (λ k. c ∷ take k cs) (omega (arith, length-append code (c ∷ [])))
    ∙ ap (λ k. take k (c ∷ cs))
        (let e : suc (size - length code - 1) ≡ size - length code = omega arith in e)

pub fill_lem :
    (size : ℕ) (code buf : Text)
    → length code < size
    → fill size code buf ≡ code ++ take (size - length code) (sampled buf)
unfolding fill sampled
fill_lem size code [] room =
    sym (ap (λ l. code ++ l) (take-nil (size - length code)) ∙ append-nil code)
fill_lem size code (b ∷ buf) room = elim (Bool-cases (leb base62_reject_threshold b)) [
  | inl out ↦ rw out (fill_lem size code buf room)
  | inr kept ↦ elim (Bool-cases (leb size (length (code ++ symbol b ∷ [])))) [
    | inl full ↦
        rw (kept, full)
          (ap (λ k. code ++ take k (symbol b ∷ sampled buf))
            (let e : 1 ≡ size - length code = ground (arith, length-append code (symbol b ∷ [])) in
              e))
    | inr more ↦
        rw (kept, more)
          (fill_lem size (code ++ symbol b ∷ []) buf (ground arith)
            ∙ append_assoc code (symbol b ∷ []) _
            ∙ ap (λ l. code ++ l) (one_more size code (symbol b) (sampled buf) room))
  ]
]

nothing_left :
    (size : ℕ) (code cs : Text) → size ≤ length code → code ++ take (size - length code) cs ≡ code
nothing_left size code cs full =
    ap (λ k. code ++ take k cs) (let e : size - length code ≡ 0 = omega arith in e)
    ∙ append-nil code

-- The code after one buffer, as a stage of the code after all of them.
staged :
    (size : ℕ) (code cs ds : Text)
    → let next = code ++ take (size - length code) cs in
      next ++ take (size - length next) ds ≡ code ++ take (size - length code) (cs ++ ds)
staged size code cs ds =
    let k = size - length code in
    append_assoc code (take k cs) _
    ∙ ap (λ l. code ++ l)
        (ap (λ j. take k cs ++ take j ds)
            (let e : size - length (code ++ take k cs) ≡ k - length (take k cs) =
                omega (arith, length-append code (take k cs)) in
              e)
          ∙ take-append k cs ds)

refill_lem :
    (size : ℕ) (code : Text) (bufs : List Text)
    → length code ≤ size
    → size ≤ length code + length (sampled (concat bufs))
    → (rest : List (Option Text)) × (refill size code (map some bufs)
        ≡ drawn (code ++ take (size - length code) (sampled (concat bufs))) rest)
unfolding refill
refill_lem size code [] room enough =
    let full : size ≤ length code = unfold sampled in omega arith in
    (
      [],
      rw (le→leb size (length code) full)
          (ap (λ c. drawn c []) (sym (nothing_left size code _ full))),
    )
refill_lem size code (buf ∷ bufs) room enough = elim (Bool-cases (leb size (length code))) [
  | inl full ↦ (
    map some (buf ∷ bufs),
    rw full (
        ap (λ c. drawn c (map some (buf ∷ bufs)))
          (sym (nothing_left size code _ (leb→le _ _ full)))),
  )
  | inr more ↦
      let k = size - length code in
      let rest = concat bufs in
      let next = code ++ take k (sampled buf) in
      let e : fill size code buf ≡ next = fill_lem size code buf (ground arith) in
      let joined = length-append code (take k (sampled buf)) in
      let cut = length-take k (sampled buf) in
      let split =
        ap length (sampled-append buf rest) ∙ length-append (sampled buf) (sampled rest) in
      let (left, h) =
        refill_lem size next bufs (omega (arith, joined, cut))
          (omega (arith, joined, cut, split)) in
      (
        left,
        rw more (
            ap (λ c. refill size c (map some bufs)) e
            ∙ h
            ∙ ap (λ c. drawn c left)
                (staged size code (sampled buf) (sampled rest)
                  ∙ ap (λ l. code ++ take k l) (sym (sampled-append buf rest)))),
      )
]

-- When the reads succeed and together hold enough bytes below the threshold, generateRandomBase62
-- returns, and its answer is the first `size` characters of those bytes.
pub generate_random_base62_lem :
    (size : ℕ) (bufs : List Text)
    → size ≤ length (sampled (concat bufs))
    → (rest : List (Option Text)) × (generate_random_base62 size (map some bufs)
        ≡ drawn (take size (sampled (concat bufs))) rest)
unfolding generate_random_base62
generate_random_base62_lem size bufs enough =
    let (rest, h) = refill_lem size [] bufs (omega arith) (omega arith) in
    (rest, h ∙ ap (λ k. drawn (take k (sampled (concat bufs))) rest) (omega arith))
