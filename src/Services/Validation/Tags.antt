-- ===== src/Services/Validation/Tags.antt =====
-- The tags and the custom codes that validation.go accepts.
use tiny_url.Prelude.{
  ◌≤◌, List, Text, Bool, true, false, [], ◌∷◌, ◌++◌, ◌≡◌, refl, sym, ◌∙◌, arith, ltb, length, All,
  All-append, is_empty, is_some, Bool-cases, inl, inr, ◌⊎◌, if◌then◌else◌, text_eq, same, same_iff,
}
use tiny_url.Prelude.Strings.{trim_space}
use tiny_url.Prelude.Table.{Table, lookup, assign, lookup-assign}
use tiny_url.Services.Validation.{
  Checked, valid, invalid, max_tag_length, max_tags_per_url, collect_tags, normalize_tags,
  ValidationError,
}

-- A tag that may be stored.
abbrev pub IsTag : Text → Type 0
IsTag t = (is_empty t ≡ false) × (length t ≤ max_tag_length)

-- No tag occurs twice.
abbrev pub occurs : Text → List Text → Bool
occurs t [] = false
occurs t (u ∷ rest) = if same u t then true else occurs t rest

abbrev pub IsDistinct : List Text → Type 0
IsDistinct [] = Unit
IsDistinct (t ∷ rest) = (occurs t rest ≡ false) × IsDistinct rest

occurs-append :
    (t u : Text) (out : List Text)
    → occurs t (out ++ u ∷ []) ≡ (if same u t then true else occurs t out)
occurs-append t u [] = refl
occurs-append t u (v ∷ out) = ground (arith, occurs-append t u out)

IsDistinct-append :
    (u : Text) (out : List Text)
    → occurs u out ≡ false
    → IsDistinct out
    → IsDistinct (out ++ u ∷ [])
IsDistinct-append u [] absent h = (refl, tt)
IsDistinct-append u (v ∷ out) absent (new, h) = (
  ground (arith, occurs-append v u out, same_iff u v, same_iff v u),
  IsDistinct-append u out (ground (arith, absent)) h,
)

-- The map of seen tags and the list of kept tags are the same set.
abbrev Tracks : Table Text (Unit {0}) → List Text → Type 0
Tracks seen out = (t : Text) → is_some (lookup t seen) ≡ occurs t out

invalid_not_valid : {A : Type 0} {e : ValidationError} {a : A} → invalid e ≡ valid a → ⊥
invalid_not_valid h = cc

valid_inj : {A : Type 0} {a b : A} → valid a ≡ valid b → a ≡ b
valid_inj h = cc

collect_tags_lem :
    (raws out result : List Text) (seen : Table Text (Unit {0}))
    → Tracks seen out
    → All IsTag out
    → IsDistinct out
    → collect_tags raws out seen ≡ valid result
    → All IsTag result × IsDistinct result
unfolding collect_tags
collect_tags_lem [] out result seen tracks good distinct h = rw (sym (valid_inj h)) (good, distinct)
collect_tags_lem (raw ∷ raws) out result seen tracks good distinct h =
    let t = trim_space raw in
    let skipped = collect_tags_lem raws out result seen tracks good distinct in
    elim (Bool-cases (is_empty t)) [
      | inl blank ↦ skipped (rw (blank, collect_tags) at h)
      | inr full ↦ elim (Bool-cases (ltb max_tag_length (length t))) [
        | inl long ↦ absurd (invalid_not_valid (rw (full, long, collect_tags) at h))
        | inr short ↦ elim (Bool-cases (is_some (lookup t seen))) [
          | inl old ↦ skipped (rw (full, short, old, collect_tags) at h)
          | inr new ↦
              collect_tags_lem raws (out ++ t ∷ []) result (assign t tt seen)
                (λ u. ground (arith, lookup-assign t u tt seen, occurs-append u t out, tracks u))
                (All-append IsTag out (t ∷ []) good ((full, ground arith), tt))
                (IsDistinct-append t out (sym (tracks t) ∙ new) distinct)
                (rw (full, short, new, collect_tags) at h)
        ]
      ]
    ]

Checked-cases :
    {A : Type 0} (x : Checked A)
    → ((e : ValidationError) × (x ≡ invalid e)) ⊎ ((a : A) × (x ≡ valid a))
Checked-cases (valid a) = inr (a, refl)
Checked-cases (invalid e) = inl (e, refl)

-- The tags that NormalizeTags returns are at most 16, no two of them are the same, and each has from 1
-- to 32 bytes.
pub normalize_tags_lem :
    (tags out : List Text)
    → normalize_tags tags ≡ valid out
    → (length out ≤ max_tags_per_url) × IsDistinct out × All IsTag out
unfolding normalize_tags
normalize_tags_lem [] out h = rw (sym (valid_inj h)) (omega arith, tt, tt)
normalize_tags_lem (raw ∷ raws) out h = elim (Checked-cases (collect_tags (raw ∷ raws) [] [])) [
  | inl (e, failed) ↦ absurd (invalid_not_valid (rw (normalize_tags, failed) at h))
  | inr (all_tags, collected) ↦ elim (Bool-cases (ltb max_tags_per_url (length all_tags))) [
    | inl many ↦ absurd (invalid_not_valid (rw (normalize_tags, collected, many) at h))
    | inr few ↦
        let same_tags = valid_inj (rw (normalize_tags, collected, few) at h) in
        let (good, distinct) =
          collect_tags_lem (raw ∷ raws) [] all_tags [] (λ t. unfold lookup in refl) tt tt
            collected in
        rw (sym same_tags) (ground arith, distinct, good)
  ]
]
