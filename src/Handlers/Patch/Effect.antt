-- ===== src/Handlers/Patch/Effect.antt =====
-- handlers/patch.go: what a PATCH leaves in MemoryStore.
use tiny_url.Store.Memory.Listing.{Ordering}
use tiny_url.Prelude.{
  ℕ, Text, true, Option, some, ◌≡◌, ◌≢◌, refl, sym, ap, ◌∙◌, ◌⊎◌, inl, inr, is_empty, Bool-cases,
  Option-cases, some_inj, text_eq, same, same_refl, if◌then◌else◌,
}
use tiny_url.Prelude.Table.{lookup, assign, lookup-assign}
use tiny_url.Models.{UrlMapping}
use tiny_url.Store.{ok, UpdateFields}
use tiny_url.Store.Memory.State.{MemoryStore}
use tiny_url.Store.Memory.Urls.{get, update_found, apply_update}
use tiny_url.Store.Memory.Audit.{log_audit}
use tiny_url.Store.Memory.Contract.{memory}
use tiny_url.Services.Validation.{Network}
use tiny_url.Handlers.{Clock, Request, Response, plain}
use tiny_url.Handlers.Auth.{authorize_access, log_audit_best_effort}
use tiny_url.Handlers.Clicked.{Result-cases}
use tiny_url.Handlers.Revoked.{get_found, resolve_actor_keeps}
use tiny_url.Handlers.Shorten.{Crypto, Draws}
use tiny_url.Handlers.Gates.{Gate-cases, pass, Reply, simple, answered, admit}
use tiny_url.Handlers.Admitted.{IsKept, admit-IsKept, admit_passed}
use tiny_url.Handlers.Patch.{PatchHandler, PatchRequest, PatchResponse, is_blank, patch_fields}
use tiny_url.Handlers.Patch.Serve.{patch_response, patch_answer, patch_handler}
use tiny_url.Handlers.Patch.Accepted.{IsPatched, patch_fields-IsPatched}

refused_not_answered : {A : Type 0} {r : Response} {n : ℕ} {a : A} → simple r ≡ answered n a → ⊥
refused_not_answered h = cc

answered_not_refused : {A : Type 0} {r : Response} {n : ℕ} {a : A} → answered n a ≡ simple r → ⊥
answered_not_refused h = cc

refused_status :
    {A : Type 0} {n k : ℕ} {t u : Text}
    → Path (Reply A) (simple (plain n t)) (simple (plain k u))
    → n ≡ k
refused_status h = cc

answered_inj : {A : Type 0} {n : ℕ} {a b : A} → answered n a ≡ answered n b → a ≡ b
answered_inj h = cc

module _ (C : Crypto) (N : Network) (h : PatchHandler) (R : Draws) (ordering : Ordering) where
  answer_refused :
      (clock : Clock) (r : Request) (req : PatchRequest) (m : UrlMapping) (issued : Text)
      (s : MemoryStore) (status : ℕ) (message : Text)
      → (patch_answer C (memory ordering) clock r req m issued s).0 ≡ simple (plain status message)
      → status ≡ 500
  unfolding patch_answer
  answer_refused clock r req m issued s status message k =
      elim (Result-cases (get (clock 4) r.code s)) [
        | inl (e, missing) ↦ sym (refused_status (rw (missing, patch_answer) at k))
        | inr (n, there) ↦ absurd (answered_not_refused (rw (there, patch_answer) at k))
      ]

  admit_found :
      (clock : Clock) (r : Request) (s : MemoryStore) (m : UrlMapping)
      → (admit C.sha256 (memory ordering) clock r s).0 ≡ pass m
      → lookup r.code (admit C.sha256 (memory ordering) clock r s).1.urls ≡ some m
  admit_found clock r s m open_ =
      ap (λ t. lookup r.code t) (admit-IsKept C.sha256 ordering clock r s).0
      ∙ get_found (clock 0) r.code m s (admit_passed C.sha256 ordering clock r s m open_).1

  -- The store at the second Get, for the mapping and the fields that the checks let through.
  abbrev patched : Clock → Text → UpdateFields → UrlMapping → MemoryStore → MemoryStore
  patched clock code fields m s = record s {
    urls = assign code (apply_update (clock 3) fields m) s.urls;
  }

  -- The checks refuse the request, or the handler goes on to its answer.
  checked :
      (clock : Clock) (r : Request) (body : Option PatchRequest) (s : MemoryStore)
      → let after = (admit C.sha256 (memory ordering) clock r s).1 in
        let (reply, final) = patch_handler C (memory ordering) N h R clock r body s in
        ((response : Response) × (reply ≡ simple response) × IsKept s final)
        ⊎ ((m : UrlMapping) × (req : PatchRequest) × (fields : UpdateFields × Text) × ((admit
                C.sha256
                (memory ordering)
                clock
                r
                s).0
              ≡ pass m)
            × (patch_fields C N h R (clock 2) m req ≡ pass fields)
            × ((reply, final)
                ≡ patch_answer C
                    (memory ordering)
                    clock
                    r
                    req
                    m
                    fields.1
                    (patched clock r.code fields.0 m after)))
  unfolding patch_handler
  checked clock r body s = elim (Bool-cases (is_empty r.code)) [
    | inl blank ↦ rw (blank, patch_handler) (inl (_, refl, (refl, refl, refl)))
    | inr full ↦ elim (Option-cases body) [
      | inl broken ↦ rw (full, broken, patch_handler) (inl (_, refl, (refl, refl, refl)))
      | inr (req, decoded) ↦ elim (Bool-cases (is_blank req)) [
        | inl nothing ↦
            rw (full, decoded, nothing, patch_handler) (inl (_, refl, (refl, refl, refl)))
        | inr asks ↦
            let kept = admit-IsKept C.sha256 ordering clock r s in
            elim (Gate-cases (admit C.sha256 (memory ordering) clock r s).0) [
              | inl (response, shut) ↦
                  rw (full, decoded, asks, shut, patch_handler) (inl (response, refl, kept))
              | inr (m, open_) ↦ elim (Gate-cases (patch_fields C N h R (clock 2) m req)) [
                | inl (response, wrong) ↦
                    rw (full, decoded, asks, open_, wrong, patch_handler)
                      (inl (response, refl, kept))
                | inr (fields, right) ↦
                    let done =
                      update_found (clock 3) r.code fields.0 m
                        (admit C.sha256 (memory ordering) clock r s).1
                        (admit_found clock r s m open_) in
                    inr (
                      m,
                      req,
                      fields,
                      open_,
                      right,
                      rw (full, decoded, asks, open_, right, done, patch_handler) refl,
                    )
              ]
            ]
      ]
    ]
  ]

  -- A PATCH that is refused with a status other than 500, at whatever check, leaves every mapping,
  -- every click log and the audit log as they were.
  pub patch_handler-refused :
      (clock : Clock) (r : Request) (body : Option PatchRequest) (s : MemoryStore) (status : ℕ)
      (message : Text)
      → let (reply, after) = patch_handler C (memory ordering) N h R clock r body s in
        reply ≡ simple (plain status message) → status ≢ 500 → IsKept s after
  patch_handler-refused clock r body s status message k other = elim (checked clock r body s) [
    | inl (response, _, kept) ↦ kept
    | inr (m, req, fields, _, _, e) ↦
        absurd (
          other
            (answer_refused clock r req m fields.1 _ status message (sym (ap (λ t. t.0) e) ∙ k)))
  ]

  answer_given :
      (clock : Clock) (r : Request) (req : PatchRequest) (m : UrlMapping) (issued : Text)
      (s : MemoryStore) (resp : PatchResponse)
      → let (reply, after) = patch_answer C (memory ordering) clock r req m issued s in
        reply ≡ answered 200 resp
        → (n : UrlMapping) × (lookup r.code s.urls ≡ some n)
          × (resp ≡ patch_response C n issued)
          × (after.urls ≡ s.urls)
          × (after.events ≡ s.events)
  unfolding patch_answer log_audit_best_effort log_audit
  answer_given clock r req m issued s resp k = elim (Result-cases (get (clock 4) r.code s)) [
    | inl (e, missing) ↦ absurd (refused_not_answered (rw (missing, patch_answer) at k))
    | inr (n, there) ↦
        let (urls, events) = resolve_actor_keeps C.sha256 ordering (clock 5) r.authorization m s in
        rw (there, patch_answer)
          (
            n,
            get_found (clock 4) r.code n s there,
            sym (answered_inj (rw (there, patch_answer) at k)),
            urls,
            events,
          )
  ]

  -- A PATCH that is answered with 200: the mapping is stored and has not expired, the credentials are
  -- right for it, and its code then has a mapping that IsPatched allows, which the answer shows: the
  -- counter, the owner's token and the API key are kept, the URL, the pool and the webhook are the old
  -- ones, gone, or ones that the validation of a new mapping accepts, and a click cap that was not
  -- reached is not reached. No other mapping and no click log changes.
  pub patch_handler-answered :
      (clock : Clock) (r : Request) (body : Option PatchRequest) (s : MemoryStore)
      (resp : PatchResponse)
      → let (reply, after) = patch_handler C (memory ordering) N h R clock r body s in
        reply ≡ answered 200 resp
        → (m n : UrlMapping) × (get (clock 0) r.code s ≡ ok m)
          × ((authorize_access C.sha256 (memory ordering) (clock 1) r.authorization m s).0 ≡ true)
          × IsPatched C N h R m n
          × ((issued : Text) × (resp ≡ patch_response C n issued))
          × ((k : Text) → lookup k after.urls ≡ (if same r.code k then some n else lookup k s.urls))
          × (after.events ≡ s.events)
  patch_handler-answered clock r body s resp k = elim (checked clock r body s) [
    | inl (response, stopped, _) ↦ absurd (refused_not_answered (sym stopped ∙ k))
    | inr (m, req, fields, open_, right, e) ↦
        let (urls, events, _) = admit-IsKept C.sha256 ordering clock r s in
        let (_, there, allowed) = admit_passed C.sha256 ordering clock r s m open_ in
        let after = (admit C.sha256 (memory ordering) clock r s).1 in
        let n = apply_update (clock 3) fields.0 m in
        let (o, stored, shown, urls2, events2) =
          answer_given clock r req m fields.1 (patched clock r.code fields.0 m after) resp
            (sym (ap (λ t. t.0) e) ∙ k) in
        let same_n : o ≡ n =
          some_inj o n
            (sym stored ∙ lookup-assign r.code r.code n after.urls ∙ rw (same_refl r.code) refl) in
        (
          m,
          n,
          there,
          allowed,
          patch_fields-IsPatched C N h R (clock 2) (clock 3) m req fields.0 fields.1 right,
          (fields.1, shown ∙ ap (λ t. patch_response C t fields.1) same_n),
          λ j.
              ap (λ t. lookup j t.1.urls) e
              ∙ ap (λ t. lookup j t) urls2
              ∙ lookup-assign r.code j n after.urls
              ∙ ap (λ t. if same r.code j then some n else lookup j t) urls,
          ap (λ t. t.1.events) e ∙ events2 ∙ events,
        )
  ]
