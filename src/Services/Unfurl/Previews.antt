-- ===== src/Services/Unfurl/Previews.antt =====
-- services/unfurl.go: the sizes of a preview, and what a fetch changes in MemoryStore.
use tiny_url.Store.Memory.Listing.{Ordering}
use tiny_url.Prelude.{
  ℕ, ◌||◌, ap, ◌≤◌, ◌<◌, ◌*◌, List, Text, Bool, true, false, none, some, [], ◌∷◌, ◌≡◌, ◌⊎◌, inl,
  inr, refl, arith, length, ltb, leb, take, same, is_empty, length-take, codes, Bool-cases,
  Option-cases, text_eq,
}
use tiny_url.Prelude.Strings.{trim_space}
use tiny_url.Prelude.Table.{lookup, assign}
use tiny_url.Models.{Time, UrlMapping}
use tiny_url.Store.Memory.State.{MemoryStore}
use tiny_url.Store.Memory.Urls.{update_found, update_missing, apply_update}
use tiny_url.Store.Memory.Contract.{memory}
use tiny_url.Services.Validation.{Network, ParsedUrl, validate_host_at_runtime}
use tiny_url.Services.Unfurl.{
  UnfurlJob, Unfurler, Token, text, start_tag, self_closing_tag, end_tag, other, PreviewParsed,
  truncate_to, is_title_key, is_image_key, is_description_key, first_of, with_meta, with_attrs,
  with_title, scan, parse_preview, nothing_parsed, preview_of, Fetched, unsendable, unreachable,
  answer, is_html, read_answer, do_fetch, preview_fields, fetch,
}

-- No field is longer than its bound.
abbrev pub Fits : PreviewParsed → Type 0
Fits p = (length p.title ≤ 256) × (length p.image ≤ 1024) × (length p.description ≤ 512)

first_of_short : (old new : Text) (n : ℕ) → length old ≤ n → length (first_of old new n) ≤ n
unfolding first_of truncate_to
first_of_short old new n h = ground (arith, length-take n new)

with_meta-Fits : (key content : Text) (p : PreviewParsed) → Fits p → Fits (with_meta key content p)
unfolding with_meta
with_meta-Fits key content p (t, i, d) = elim (Bool-cases (is_empty content)) [
  | inl empty ↦ rw empty (t, i, d)
  | inr full ↦ elim (Bool-cases (is_title_key key)) [
    | inl title_ ↦ rw (full, title_) (first_of_short p.title content 256 t, i, d)
    | inr k ↦ elim (Bool-cases (is_image_key key)) [
      | inl image_ ↦ rw (full, k, image_) (t, first_of_short p.image content 1024 i, d)
      | inr l ↦ elim (Bool-cases (is_description_key key)) [
        | inl desc ↦ rw (full, k, l, desc) (t, i, first_of_short p.description content 512 d)
        | inr none_ ↦ rw (full, k, l, none_) (t, i, d)
      ]
    ]
  ]
]

with_attrs-Fits :
    (name : Text) (attrs : List (Text × Text)) (p : PreviewParsed)
    → Fits p
    → Fits (with_attrs name attrs p)
unfolding with_attrs
with_attrs-Fits name attrs p h = elim (Bool-cases (same name (codes "meta"))) [
  | inl meta ↦ rw meta (with_meta-Fits _ _ p h)
  | inr else_ ↦ rw else_ h
]

with_title-Fits : (t : Token) (p : PreviewParsed) → Fits p → Fits (with_title t p)
unfolding with_title
with_title-Fits (text data_) p (t, i, d) = (first_of_short p.title (trim_space data_) 256 t, i, d)
with_title-Fits (start_tag name attrs) p h = h
with_title-Fits (self_closing_tag name attrs) p h = h
with_title-Fits (end_tag name) p h = h
with_title-Fits other p h = h

scan-Fits :
    (behind_title : Bool) (tokens : List Token) (p : PreviewParsed)
    → Fits p
    → Fits (scan behind_title tokens p)
unfolding scan
scan-Fits behind_title [] p h = h
scan-Fits true (t ∷ tokens) p h = scan-Fits false tokens _ (with_title-Fits t p h)
scan-Fits false (text data_ ∷ tokens) p h = scan-Fits false tokens p h
scan-Fits false (other ∷ tokens) p h = scan-Fits false tokens p h
scan-Fits false (end_tag name ∷ tokens) p h = elim (Bool-cases (same name (codes "head"))) [
  | inl head ↦ rw head h
  | inr else_ ↦ rw else_ (scan-Fits false tokens p h)
]
scan-Fits false (start_tag name attrs ∷ tokens) p h =
    scan-Fits _ tokens _ (with_attrs-Fits name attrs p h)
scan-Fits false (self_closing_tag name attrs ∷ tokens) p h =
    scan-Fits _ tokens _ (with_attrs-Fits name attrs p h)

module _ (N : Network) (tokenize : Text → List Token) where
  -- Where a preview comes from: it is empty, or it is read from the first 16 KiB of the body of an
  -- answer with a status from 200 to 299, by a host that the runtime validation lets through.
  abbrev pub IsPreviewOf : (Text → Fetched) → Text → PreviewParsed → Type 0
  IsPreviewOf client url p =
      (p ≡ nothing_parsed)
      ⊎ ((parsed : ParsedUrl) × (status : ℕ) × (content_type : Text) × (body : Text) × (N.parse_url
              url
            ≡ some parsed)
          × (validate_host_at_runtime N parsed.hostname ≡ none)
          × (client url ≡ answer status content_type body)
          × (200 ≤ status)
          × (status < 300)
          × (is_html content_type ≡ true)
          × (p ≡ parse_preview (tokenize (take (16 * 1024) body))))

  -- What an answer is read as
  abbrev IsReadFrom : Fetched → PreviewParsed → Type 0
  IsReadFrom a p =
      (p ≡ nothing_parsed)
      ⊎ ((status : ℕ) × (content_type : Text) × (body : Text) × (a
            ≡ answer status content_type body)
          × (200 ≤ status)
          × (status < 300)
          × (is_html content_type ≡ true)
          × (p ≡ parse_preview (tokenize (take (16 * 1024) body))))

  read_answer-IsReadFrom : (a : Fetched) → IsReadFrom a (preview_of (read_answer N tokenize a))
  unfolding read_answer preview_of
  read_answer-IsReadFrom unsendable = inl refl
  read_answer-IsReadFrom unreachable = inl refl
  read_answer-IsReadFrom (answer status content_type body) =
      elim (Bool-cases (ltb status 200 || leb 300 status)) [
        | inl bad ↦ rw bad (inl refl)
        | inr good ↦ elim (Bool-cases (is_html content_type)) [
          | inr else_ ↦ rw (good, else_) (inl refl)
          | inl html ↦
              rw (good, html)
                (inr (status, content_type, body, refl, ground arith, ground arith, html, refl))
        ]
      ]

  do_fetch-IsPreviewOf :
      (client : Text → Fetched) (url : Text)
      → IsPreviewOf client url (preview_of (do_fetch N tokenize client url).0)
  unfolding do_fetch preview_of
  do_fetch-IsPreviewOf client url = elim (Option-cases (N.parse_url url)) [
    | inl broken ↦ rw (broken, do_fetch) (inl refl)
    | inr (parsed, fine) ↦ elim (Option-cases (validate_host_at_runtime N parsed.hostname)) [
      | inr (e, bad) ↦ rw (fine, bad, do_fetch) (inl refl)
      | inl safe ↦ elim (read_answer-IsReadFrom (client url)) [
        | inl nothing ↦ rw (fine, safe, nothing, do_fetch) (inl refl)
        | inr (status, content_type, body, a, low, high, html, e) ↦
            rw (fine, safe, do_fetch)
              (inr (parsed, status, content_type, body, refl, safe, a, low, high, html, e))
      ]
    ]
  ]

  IsPreviewOf-Fits :
      (client : Text → Fetched) (url : Text) (p : PreviewParsed) → IsPreviewOf client url p → Fits p
  unfolding parse_preview
  IsPreviewOf-Fits client url p (inl nothing) = rw nothing (omega arith, omega arith, omega arith)
  IsPreviewOf-Fits client url p (inr (parsed, n, ct, body, _, _, _, _, _, _, e)) = rw e (
      scan-Fits false (tokenize (take (16 * 1024) body)) nothing_parsed
        (omega arith, omega arith, omega arith))

  -- What an update by a fetch makes of a mapping: all but the four fields of the preview are kept.
  abbrev pub IsPreviewed : Time → PreviewParsed → UrlMapping → UrlMapping → Type 0
  IsPreviewed now p m n = n ≡ record m {
    preview_title = p.title;
    preview_image = p.image;
    preview_description = p.description;
    preview_fetched_at = some now;
  }

  module _ (ordering : Ordering) where
    previewed :
        (now : Time) (p : PreviewParsed) (m : UrlMapping)
        → IsPreviewed now p m (apply_update now (preview_fields N tokenize p) m)
    unfolding apply_update preview_fields
    previewed now p m = refl

    -- A fetch into MemoryStore leaves a store without the job's code as it is, and otherwise changes
    -- one mapping, that under the code: it writes the preview, of at most 256, 1024 and 512 bytes,
    -- and stamps it, and keeps all else. The preview is empty, or it is read from the first 16 KiB of
    -- the body of an HTML answer with a status from 200 to 299, by a host that the runtime validation
    -- lets through.
    pub fetch-IsPreviewed :
        (now : Time) (client : Text → Fetched) (j : UnfurlJob) (u : Unfurler) (s : MemoryStore)
        → let t = (fetch N tokenize (memory ordering) now client j u s).1 in
          ((lookup j.code s.urls ≡ none) × (t ≡ s))
          ⊎ ((m : UrlMapping) × (n : UrlMapping) × (p : PreviewParsed) × (lookup j.code s.urls
                ≡ some m)
              × (t ≡ record s { urls = assign j.code n s.urls })
              × IsPreviewed now p m n
              × Fits p
              × IsPreviewOf client j.url p)
    unfolding fetch
    fetch-IsPreviewed now client j u s =
        let p = preview_of (do_fetch N tokenize client j.url).0 in
        let came = do_fetch-IsPreviewOf client j.url in
        elim (Option-cases (lookup j.code s.urls)) [
          | inl gone ↦
              inl (
                gone,
                ap (λ r. r.1) (update_missing now j.code (preview_fields N tokenize p) s gone),
              )
          | inr (m, there) ↦ inr (
            m,
            apply_update now (preview_fields N tokenize p) m,
            p,
            there,
            ap (λ r. r.1) (update_found now j.code (preview_fields N tokenize p) m s there),
            previewed now p m,
            IsPreviewOf-Fits client j.url p came,
            came,
          )
        ]
