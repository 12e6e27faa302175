-- ===== src/Services/ShortCode/Retries.antt =====
-- The retries of GenerateShortCode.
use tiny_url.Prelude.{
  ℕ, zero, suc, ◌%◌, ◌≤◌, ◌<◌, List, Text, Bool, false, Option, none, some, [], ◌∷◌, ◌++◌, ◌≡◌,
  refl, sym, ap, ◌∙◌, arith, length, length-append, length-map, take, take_long, le→leb, map, leb,
  Bool-cases, inl, inr, All, All-append, Option-cases, get_elem?, if◌then◌else◌,
}
use tiny_url.Services.ShortCode.{
  base62_chars, base62_reject_threshold, short_code_length, max_retries, Drawn, drawn, failed,
  exhausted, starved, symbol, fill, refill, generate_random_base62, retry, generate_short_code,
}
use tiny_url.Services.ShortCode.Draws.{sampled, fill_lem}

abbrev pub IsBase62 : ℕ → Type 0
IsBase62 c = (i : ℕ) × (get_elem? base62_chars i ≡ some c)

get_elem?-none : {A : Type 0} (xs : List A) (i : ℕ) → get_elem? xs i ≡ none → length xs ≤ i
get_elem?-none [] i h = omega arith
get_elem?-none (x ∷ xs) zero h = cc
get_elem?-none (x ∷ xs) (suc i) h = omega (arith, get_elem?-none xs i h)

symbol-IsBase62 : (b : ℕ) → IsBase62 (symbol b)
unfolding symbol
symbol-IsBase62 b = elim (Option-cases (get_elem? base62_chars (b % 62))) [
  | inl out ↦
      absurd
        (let far : 62 ≤ b % 62 = get_elem?-none base62_chars (b % 62) out in omega (arith, far))
  | inr (c, at) ↦ (b % 62, rw (symbol, at) refl)
]

-- A text of base-62 characters, no longer than `size`.
abbrev Fits : ℕ → Text → Type 0
Fits size code = (length code ≤ size) × All IsBase62 code

fill-Fits :
    (size : ℕ) (code buf : Text)
    → length code < size
    → Fits size code
    → Fits size (fill size code buf)
unfolding fill
fill-Fits size code [] room h = h
fill-Fits size code (b ∷ buf) room (short, good) =
    let next = code ++ symbol b ∷ [] in
    let longer = length-append code (symbol b ∷ []) in
    let still : All IsBase62 next =
      All-append IsBase62 code (symbol b ∷ []) good (symbol-IsBase62 b, tt) in
    elim (Bool-cases (leb base62_reject_threshold b)) [
      | inl out ↦ rw out (fill-Fits size code buf room (short, good))
      | inr kept ↦ elim (Bool-cases (leb size (length next))) [
        | inl full ↦ rw (kept, full) (omega (arith, longer), still)
        | inr more ↦
            rw (kept, more) (fill-Fits size next buf (ground arith) (omega (arith, longer), still))
      ]
    ]

drawn_inj : (a b : Text) (r t : List (Option Text)) → drawn a r ≡ drawn b t → a ≡ b
drawn_inj a b r t h = cc

-- Both ends of a round: the code is complete, or the read decides.
whole :
    (size : ℕ) (code result : Text) (reads rest : List (Option Text)) (other : Drawn)
    → Fits size code
    → (other ≡ drawn result rest → (length result ≡ size) × All IsBase62 result)
    → (if leb size (length code) then drawn code reads else other) ≡ drawn result rest
    → (length result ≡ size) × All IsBase62 result
whole size code result reads rest other (short, good) later h =
    elim (Bool-cases (leb size (length code))) [
      | inl full ↦
          let same = drawn_inj code result reads rest (rw full at h) in
          (
            let e : length code ≡ size = ground arith in sym (ap length same) ∙ e,
            rw (sym same) good,
          )
      | inr more ↦ later (rw more at h)
    ]

refill-Fits :
    (size : ℕ) (code : Text) (reads : List (Option Text)) (result : Text)
    (rest : List (Option Text))
    → Fits size code
    → refill size code reads ≡ drawn result rest
    → (length result ≡ size) × All IsBase62 result
unfolding refill
refill-Fits size code [] result rest fits h =
    whole size code result [] rest starved fits (λ e. cc) h
refill-Fits size code (none ∷ reads) result rest fits h =
    whole size code result _ rest failed fits (λ e. cc) h
refill-Fits size code (some buf ∷ reads) result rest fits h =
    elim (Bool-cases (leb size (length code))) [
      | inl full ↦
          whole size code result (some buf ∷ reads) rest starved fits (λ e. cc)
            (rw full (rw full at h))
      | inr more ↦
          refill-Fits size (fill size code buf) reads result rest
            (fill-Fits size code buf (ground arith) fits) (rw more at h)
    ]

-- A code that the loop returns.
IsFresh : (Text → Bool) → Text → Type 0
IsFresh exists code = (exists code ≡ false) × (length code ≡ short_code_length) × All IsBase62 code

-- One try, whose draw is r.
tried :
    (exists : Text → Bool) (code : Text) (rest : List (Option Text)) (r : Drawn)
    (again : List (Option Text) → Drawn)
    → ((c : Text) (left : List (Option Text))
        → r ≡ drawn c left
        → (length c ≡ short_code_length) × All IsBase62 c)
    → ((left : List (Option Text)) → again left ≡ drawn code rest → IsFresh exists code)
    → (elim r [
      | drawn c left ↦ if exists c then again left else drawn c left
      | failed ↦ failed
      | exhausted ↦ exhausted
      | starved ↦ starved
    ])
      ≡ drawn code rest
    → IsFresh exists code
unfolding IsFresh
tried exists code rest (drawn c left) again good later h = elim (Bool-cases (exists c)) [
  | inl taken ↦ later left (rw taken at h)
  | inr free ↦
      let same = drawn_inj c code left rest (rw free at h) in
      let (size, chars) = good c left refl in rw (sym same) (free, size, chars)
]
tried exists code rest failed again good later h = cc
tried exists code rest exhausted again good later h = cc
tried exists code rest starved again good later h = cc

retry-IsFresh :
    (exists : Text → Bool) (n : ℕ) (reads : List (Option Text)) (code : Text)
    (rest : List (Option Text))
    → retry exists n reads ≡ drawn code rest
    → IsFresh exists code
unfolding retry generate_random_base62
retry-IsFresh exists zero reads code rest h = cc
retry-IsFresh exists (suc n) reads code rest h =
    tried exists code rest (refill short_code_length [] reads) (retry exists n)
      (λ c left e. refill-Fits short_code_length [] reads c left (omega arith, tt) e)
      (λ left e. retry-IsFresh exists n left code rest e) h

-- A code that GenerateShortCode returns is not in the store, and it is six base-62 characters.
pub generate_short_code-IsFresh :
    (exists : Text → Bool) (reads : List (Option Text)) (code : Text) (rest : List (Option Text))
    → generate_short_code exists reads ≡ drawn code rest
    → (exists code ≡ false) × (length code ≡ short_code_length) × All IsBase62 code
unfolding generate_short_code IsFresh
generate_short_code-IsFresh exists reads code rest h =
    retry-IsFresh exists max_retries reads code rest h

-- The answer, if there is one: a code, or none for the error after the last retry.
abbrev pub answer : Drawn → Option (Option Text)
answer (drawn code rest) = some (some code)
answer exhausted = some none
answer failed = none
answer starved = none

abbrev pub first_free : (Text → Bool) → List Text → Option Text
first_free exists [] = none
first_free exists (code ∷ codes) = if exists code then first_free exists codes else some code

-- A read of six bytes, all below the threshold, is a code of its own.
abbrev pub IsCode : Text → Type 0
IsCode buf = (length buf ≡ short_code_length) × (sampled buf ≡ map symbol buf)

refill-full :
    (code : Text) (reads : List (Option Text)) → refill (length code) code reads ≡ drawn code reads
unfolding refill
refill-full code [] = rw (le→leb (length code) (length code) (omega arith)) refl
refill-full code (none ∷ reads) = rw (le→leb (length code) (length code) (omega arith)) refl
refill-full code (some buf ∷ reads) = rw (le→leb (length code) (length code) (omega arith)) refl

one_draw :
    (buf : Text) (bufs : List Text)
    → IsCode buf
    → generate_random_base62 short_code_length (map some (buf ∷ bufs))
      ≡ drawn (map symbol buf) (map some bufs)
unfolding refill generate_random_base62
one_draw buf bufs (size, clean) =
    let codes = map symbol buf in
    let long : length codes ≡ short_code_length = length-map symbol buf ∙ size in
    let e : fill short_code_length [] buf ≡ codes =
      fill_lem short_code_length [] buf (omega arith)
      ∙ ap (take short_code_length) clean
      ∙ take_long short_code_length codes (omega (arith, long)) in
    ap (λ c. refill short_code_length c (map some bufs)) e
    ∙ ap (λ n. refill n codes (map some bufs)) (sym long)
    ∙ refill-full codes (map some bufs)

retry_lem :
    (exists : Text → Bool) (n : ℕ) (bufs : List Text)
    → n ≤ length bufs
    → All IsCode bufs
    → answer (retry exists n (map some bufs))
      ≡ some (first_free exists (map (map symbol) (take n bufs)))
unfolding retry generate_random_base62 refill
retry_lem exists zero bufs enough clean = refl
retry_lem exists (suc n) [] enough clean = absurd (omega arith)
retry_lem exists (suc n) (buf ∷ bufs) enough (first, clean) =
    elim (Bool-cases (exists (map symbol buf))) [
      | inl taken ↦
          rw (one_draw buf bufs first, taken) (retry_lem exists n bufs (omega arith) clean)
      | inr free ↦ rw (one_draw buf bufs first, free) refl
    ]

-- When five reads of six bytes below the threshold are to come, GenerateShortCode returns the first
-- of their five codes that the store does not have, and its error if the store has all five.
pub generate_short_code-first_free :
    (exists : Text → Bool) (bufs : List Text)
    → max_retries ≤ length bufs
    → All IsCode bufs
    → answer (generate_short_code exists (map some bufs))
      ≡ some (first_free exists (map (map symbol) (take max_retries bufs)))
unfolding generate_short_code
generate_short_code-first_free exists bufs enough clean =
    retry_lem exists max_retries bufs enough clean
