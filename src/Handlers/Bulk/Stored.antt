-- ===== src/Handlers/Bulk/Stored.antt =====
-- handlers/shorten_bulk.go: what a bulk request leaves in MemoryStore.
use tiny_url.Store.Memory.Listing.{Ordering}
use tiny_url.Prelude.{
  ℕ, suc, ◌+◌, ◌≤◌, List, Text, Option, none, some, [], ◌∷◌, ◌≡◌, refl, sym, ap, ◌∙◌, ◌⊎◌, inl, inr,
  arith, length, ltb, ◌==◌, same, same_refl, same_iff, codes, text_eq, Bool-cases, Option-cases,
}
use tiny_url.Prelude.Int.{ℤ}
use tiny_url.Prelude.Table.{lookup, assign, lookup-assign, length-assign_new}
use tiny_url.Models.{Time, UrlMapping, ShortenRequest}
use tiny_url.Store.Memory.State.{MemoryStore}
use tiny_url.Store.Memory.Contract.{memory}
use tiny_url.Services.Validation.{Network}
use tiny_url.Handlers.{Clock, Request, Response}
use tiny_url.Handlers.Auth.{extract_bearer}
use tiny_url.Store.Memory.Keys.{lookup_api_key}
use tiny_url.Handlers.Clicked.{Result-cases}
use tiny_url.Handlers.Access.{lookup_api_key_keeps}
use tiny_url.Handlers.Shorten.{
  ItemError, ShortenResponse, Item, created, rejected, Draws, Crypto, ShortenHandler,
}
use tiny_url.Handlers.Shorten.One.{shorten_one, detect_api_key}
use tiny_url.Handlers.Shorten.Created.{shorten_one-rejected, shorten_one_urls}
use tiny_url.Handlers.Gates.{simple, answered}
use tiny_url.Handlers.Bulk.{BulkItem, BulkResponse, add_entry, shorten_all, bulk_handler}

Item-cases :
    (item : Item)
    → ((e : ItemError) × (item ≡ rejected e)) ⊎ ((resp : ShortenResponse) × (item ≡ created resp))
Item-cases (created resp) = inr (resp, refl)
Item-cases (rejected e) = inl (e, refl)

none_not_some : {m : UrlMapping} → none ≡ some m → ⊥
none_not_some h = cc

refused_not_answered : {A : Type 0} {r : Response} {n : ℕ} {a : A} → simple r ≡ answered n a → ⊥
refused_not_answered h = cc

answered_inj : {A : Type 0} {n : ℕ} {a b : A} → answered n a ≡ answered n b → a ≡ b
answered_inj h = cc

-- A created item has its mapping, to the URL that was asked for.
abbrev pub IsServed : ShortenRequest → Item → MemoryStore → Type 0
IsServed req (created resp) s =
    (m : UrlMapping) × (lookup resp.short_code s.urls ≡ some m) × (m.original_url ≡ req.url)
IsServed req (rejected e) s = Unit

-- The entries of a list of items, from the i-th on: one for each item, in its order, with its number.
abbrev pub AreServed : ℕ → List ShortenRequest → List BulkItem → MemoryStore → Type 0
AreServed i [] [] s = Unit
AreServed i [] (entry ∷ entries) s = ⊥
AreServed i (req ∷ reqs) [] s = ⊥
AreServed i (req ∷ reqs) (entry ∷ entries) s =
    (entry.index ≡ i) × IsServed req entry.outcome s × AreServed (suc i) reqs entries s

abbrev pub created_of : Item → ℕ
created_of (created resp) = 1
created_of (rejected e) = 0

-- The mappings of one store are in another.
abbrev pub Keeps : MemoryStore → MemoryStore → Type 0
Keeps s t = (k : Text) (m : UrlMapping) → lookup k s.urls ≡ some m → lookup k t.urls ≡ some m

module _ (C : Crypto) (N : Network) (h : ShortenHandler) (ordering : Ordering) where
  Keeps-assign :
      (code : Text) (m : UrlMapping) (s t : MemoryStore)
      → lookup code s.urls ≡ none
      → t.urls ≡ assign code m s.urls
      → Keeps s t
  Keeps-assign code m s t free e k n there = elim (Bool-cases (same code k)) [
    | inl at ↦ absurd (none_not_some (sym (rw (sym ((same_iff code k).0 at)) free) ∙ there))
    | inr off ↦ ap (λ u. lookup k u) e ∙ lookup-assign code k m s.urls ∙ rw off there
  ]

  -- One item: how many mappings it adds, and what it keeps.
  one_item :
      (R : Draws) (clock : Clock) (req : ShortenRequest) (id : ℤ) (req_id : Text) (s : MemoryStore)
      → let (item, _, after) = shorten_one C N h R (memory ordering) clock req id req_id s in
        IsServed req item after
        × Keeps s after
        × (length after.urls ≡ length s.urls + created_of item)
  one_item R clock req id req_id s =
      let run = shorten_one C N h R (memory ordering) clock req id req_id s in
      elim (Item-cases run.0) [
        | inl (e, bad) ↦
            let (_, same_s) = shorten_one-rejected C N h R ordering clock req id req_id s e bad in
            rw (bad, same_s) (tt, λ k m there. there, omega arith)
        | inr (resp, good) ↦
            let (free, (m, grown, url)) =
              shorten_one_urls C N h R ordering clock req id req_id s resp good in
            rw good (
              (
                m,
                ap (λ u. lookup resp.short_code u) grown
                    ∙ lookup-assign resp.short_code resp.short_code m s.urls
                    ∙ rw (same_refl resp.short_code) refl,
                url,
              ),
              Keeps-assign resp.short_code m s run.2 free grown,
              ap length grown ∙ length-assign_new resp.short_code m s.urls free,
            )
      ]

  -- A later store that keeps the mappings serves what an earlier one does.
  IsServed-kept :
      (req : ShortenRequest) (item : Item) (s t : MemoryStore)
      → Keeps s t
      → IsServed req item s
      → IsServed req item t
  IsServed-kept req (created resp) s t keeps (m, there, url) =
      (m, keeps resp.short_code m there, url)
  IsServed-kept req (rejected e) s t keeps served = tt

  -- What the loop makes of the items, from the i-th on
  abbrev pub IsDone : ℕ → List ShortenRequest → BulkResponse → MemoryStore → MemoryStore → Type 0
  IsDone i items resp s final =
      AreServed i items resp.items final
      × (resp.created_count + resp.failed_count ≡ length items)
      × (length final.urls ≡ length s.urls + resp.created_count)
      × Keeps s final

  add-IsDone :
      (i : ℕ) (req : ShortenRequest) (rest : List ShortenRequest) (item : Item)
      (later : BulkResponse) (s after final : MemoryStore)
      → IsServed req item after
      → Keeps s after
      → length after.urls ≡ length s.urls + created_of item
      → IsDone (suc i) rest later after final
      → IsDone i (req ∷ rest) (add_entry i item later) s final
  unfolding add_entry
  add-IsDone i req rest (created resp) later s after final served kept grown (all_, n, g, keeps) = (
    (refl, IsServed-kept req (created resp) after final keeps served, all_),
    omega (arith, n),
    omega (arith, g, grown),
    λ k m there. keeps k m (kept k m there),
  )
  add-IsDone i req rest (rejected e) later s after final served kept grown (all_, n, g, keeps) = (
    (refl, tt, all_),
    omega (arith, n),
    omega (arith, g, grown),
    λ k m there. keeps k m (kept k m there),
  )

  shorten_all-IsDone :
      (draws : ℕ → Draws) (clocks : ℕ → Clock) (id : ℤ) (req_id : Text) (i : ℕ)
      (items : List ShortenRequest) (s : MemoryStore)
      → let (resp, _, final) =
          shorten_all C N h (memory ordering) draws clocks id req_id i items s in
        IsDone i items resp s final
  unfolding shorten_all
  shorten_all-IsDone draws clocks id req_id i [] s = (tt, refl, omega arith, λ k m there. there)
  shorten_all-IsDone draws clocks id req_id i (req ∷ rest) s =
      let run = shorten_one C N h (draws i) (memory ordering) (clocks i) req id req_id s in
      let (served, kept, grown) = one_item (draws i) (clocks i) req id req_id s in
      let more = shorten_all C N h (memory ordering) draws clocks id req_id (suc i) rest run.2 in
      add-IsDone i req rest run.0 more.0 s run.2 more.2 served kept grown
        (shorten_all-IsDone draws clocks id req_id (suc i) rest run.2)

  detect_api_key_keeps :
      (R : Draws) (now : Time) (authorization : Text) (s : MemoryStore)
      → (detect_api_key C N h R (memory ordering) now authorization s).1.urls ≡ s.urls
  unfolding detect_api_key
  detect_api_key_keeps R now authorization s =
      elim (Option-cases (extract_bearer C.sha256 authorization)) [
        | inl anonymous ↦ rw (anonymous, detect_api_key) refl
        | inr (hash, bearer) ↦
            let (urls, _, _) = lookup_api_key_keeps now hash s in
            elim (Result-cases (lookup_api_key now hash s).0) [
              | inl (e, unknown) ↦ rw (bearer, unknown, detect_api_key) urls
              | inr (key, known) ↦ rw (bearer, known, detect_api_key) urls
            ]
      ]

  -- A bulk request that is answered: it had from one to max_items items; the answer has an entry for
  -- each, in their order, with its number; the counts of created and failed items add up to the number
  -- of items; the store has exactly as many mappings more as items were created, all the mappings from
  -- before, and, after the whole batch, a mapping to the asked URL under the code of every created item.
  pub bulk_handler_lem :
      (max_items : ℕ) (draws : ℕ → Draws) (clocks : ℕ → Clock) (now : Time) (r : Request)
      (body : Option (List ShortenRequest)) (s : MemoryStore) (resp : BulkResponse)
      → let (reply, _, final) =
          bulk_handler C N h (memory ordering) max_items draws clocks now r body s in
        reply ≡ answered 200 resp
        → (items : List ShortenRequest) × (body ≡ some items)
          × (1 ≤ length items)
          × (length items ≤ max_items)
          × IsDone 0 items resp s final
  unfolding bulk_handler
  bulk_handler_lem max_items draws clocks now r body s resp k =
      let (id, after) = detect_api_key C N h (draws 0) (memory ordering) now r.authorization s in
      let urls = detect_api_key_keeps (draws 0) now r.authorization s in
      elim (Bool-cases (same r.method (codes "POST"))) [
        | inr other ↦ absurd (refused_not_answered (rw (other, bulk_handler) at k))
        | inl post ↦ elim (Option-cases body) [
          | inl broken ↦ absurd (refused_not_answered (rw (post, broken, bulk_handler) at k))
          | inr (items, decoded) ↦ elim (Bool-cases (length items == 0)) [
            | inl nothing ↦
                absurd (refused_not_answered (rw (post, decoded, nothing, bulk_handler) at k))
            | inr some_ ↦ elim (Bool-cases (ltb max_items (length items))) [
              | inl many ↦
                  absurd (refused_not_answered (rw (post, decoded, some_, many, bulk_handler) at k))
              | inr few ↦
                  let e = answered_inj (rw (post, decoded, some_, few, bulk_handler) at k) in
                  let batch =
                    (shorten_all C N h (memory ordering) draws clocks id r.request_id 0 items
                      after).0 in
                  let (all_, n, g, keeps) =
                    shorten_all-IsDone draws clocks id r.request_id 0 items after in
                  rw (post, decoded, some_, few, bulk_handler, sym e)
                    (
                      items,
                      refl,
                      ground arith,
                      ground arith,
                      (
                        all_,
                        n,
                        g ∙ ap (λ u. length u + batch.created_count) urls,
                        λ j m there. keeps j m (ap (λ u. lookup j u) urls ∙ there),
                      ),
                    )
            ]
          ]
        ]
      ]
