-- ===== src/Handlers/Shorten/Created.antt =====
-- What shortenOne leaves in MemoryStore.
use tiny_url.Store.Memory.Listing.{Ordering}
use tiny_url.Prelude.{
  not, is_empty, Text, Bool, false, none, some, [], ◌≡◌, refl, sym, ap, ◌∙◌, ◌⊎◌, inl, inr,
  Option-cases, text_eq, same_refl,
}
use tiny_url.Prelude.Int.{ℤ, pos}
use tiny_url.Prelude.Table.{lookup, assign, lookup-assign}
use tiny_url.Models.{UrlMapping, ShortenRequest}
use tiny_url.Store.{ok, err, code_conflict}
use tiny_url.Store.Memory.State.{MemoryStore}
use tiny_url.Store.Memory.Urls.{set, exists}
use tiny_url.Store.Memory.Audit.{log_audit}
use tiny_url.Store.Memory.Contract.{memory}
use tiny_url.Services.Validation.{Network, validate_destination_url}
use tiny_url.Handlers.{Clock}
use tiny_url.Handlers.Auth.{log_audit_best_effort}
use tiny_url.Handlers.Shorten.{
  ItemError, ShortenResponse, created, rejected, Draws, Crypto, ShortenHandler,
  generate_owner_token, Prepared, Step, go, stop, and_then, check_url,
}
use tiny_url.Handlers.Shorten.One.{prepare, mapping_of, response_of, shorten_one}

pub Step-cases :
    {A : Type 0} (x : Step A) → ((e : ItemError) × (x ≡ stop e)) ⊎ ((a : A) × (x ≡ go a))
Step-cases (go a) = inr (a, refl)
Step-cases (stop e) = inl (e, refl)

stop_not_go : {A : Type 0} {e : ItemError} {a : A} → stop e ≡ go a → ⊥
stop_not_go h = cc

-- A chain that goes through has a first step that went.
on_go :
    {A B : Type 0} {G : Type 0} (x : Step A) (f : A → Step B) (b : B)
    → and_then x f ≡ go b
    → ((a : A) → x ≡ go a → f a ≡ go b → G)
    → G
unfolding and_then
on_go (go a) f b h k = k a refl h
on_go (stop e) f b h k = absurd (stop_not_go h)

go_inj : {A : Type 0} {a b : A} → go a ≡ go b → a ≡ b
go_inj h = cc

pub rejected_not_created : {e : ItemError} {r : ShortenResponse} → rejected e ≡ created r → ⊥
rejected_not_created h = cc

created_not_rejected : {e : ItemError} {r : ShortenResponse} → created r ≡ rejected e → ⊥
created_not_rejected h = cc

pub created_inj : {r t : ShortenResponse} → created r ≡ created t → r ≡ t
created_inj h = cc

pub set_new :
    (code : Text) (m : UrlMapping) (s : MemoryStore)
    → lookup code s.urls ≡ none
    → set code m s ≡ (ok tt, record s { urls = assign code m s.urls })
unfolding set
set_new code m s h = rw (h, set) refl

pub set_taken :
    (code : Text) (m n : UrlMapping) (s : MemoryStore)
    → lookup code s.urls ≡ some n
    → set code m s ≡ (err code_conflict, s)
unfolding set
set_taken code m n s h = rw (h, set) refl

module _ (C : Crypto) (N : Network) (h : ShortenHandler) (R : Draws) (ordering : Ordering) where
  -- An item that is rejected, at whatever step, leaves the store as it was and queues no preview.
  pub shorten_one-rejected :
      (clock : Clock) (req : ShortenRequest) (id : ℤ) (req_id : Text) (s : MemoryStore)
      (e : ItemError)
      → let (item, queued, after) = shorten_one C N h R (memory ordering) clock req id req_id s in
        item ≡ rejected e → (queued ≡ []) × (after ≡ s)
  unfolding shorten_one
  shorten_one-rejected clock req id req_id s e k =
      elim (Step-cases (prepare C N h R (λ code. exists code s) req)) [
        | inl (f, stopped) ↦ rw (stopped, shorten_one) (refl, refl)
        | inr (p, ready) ↦ elim (Option-cases (lookup p.short_code s.urls)) [
          | inl free ↦ absurd (
              created_not_rejected (
                rw
                  (
                    ready,
                    set_new p.short_code (mapping_of C N h R clock req id p) s free,
                    shorten_one,
                  )
                  at k))
          | inr (n, taken) ↦
              rw
                (
                  ready,
                  set_taken p.short_code (mapping_of C N h R clock req id p) n s taken,
                  shorten_one,
                )
                (
                  refl,
                  ap (λ r. r.1)
                      (set_taken p.short_code (mapping_of C N h R clock req id p) n s taken),
                )
        ]
      ]

  -- The mapping of an item that is created, as the change of the map of mappings.
  pub shorten_one_urls :
      (clock : Clock) (req : ShortenRequest) (id : ℤ) (req_id : Text) (s : MemoryStore)
      (resp : ShortenResponse)
      → let (item, _, after) = shorten_one C N h R (memory ordering) clock req id req_id s in
        item ≡ created resp
        → (lookup resp.short_code s.urls ≡ none)
          × ((m : UrlMapping) × (after.urls ≡ assign resp.short_code m s.urls)
              × (m.original_url ≡ req.url))
  unfolding shorten_one mapping_of response_of log_audit_best_effort log_audit
  shorten_one_urls clock req id req_id s resp k =
      elim (Step-cases (prepare C N h R (λ code. exists code s) req)) [
        | inl (f, stopped) ↦ absurd (rejected_not_created (rw (stopped, shorten_one) at k))
        | inr (p, ready) ↦
            let m = mapping_of C N h R clock req id p in
            elim (Option-cases (lookup p.short_code s.urls)) [
              | inl free ↦
                  let e = set_new p.short_code m s free in
                  let stored = ap (λ t. t.0) e in
                  let r : response_of C N h R clock req p ≡ resp =
                    created_inj (rw (ready, e, shorten_one) at k) in
                  rw (sym r, ready, stored, shorten_one) (free, (m, ap (λ t. t.1.urls) e, refl))
              | inr (n, taken) ↦ absurd (
                  rejected_not_created
                    (rw (ready, set_taken p.short_code m n s taken, shorten_one) at k))
            ]
      ]

  checked_url :
      (req : ShortenRequest)
      → check_url C N h R req.url ≡ go tt
      → validate_destination_url N req.url h.deny_list ≡ none
  unfolding check_url
  checked_url req k = elim (Option-cases (validate_destination_url N req.url h.deny_list)) [
    | inl fine ↦ fine
    | inr (e, bad) ↦ absurd (stop_not_go (rw (bad, check_url) at k))
  ]

  -- What the steps before the Set have checked and drawn.
  prepared :
      (exists_ : Text → Bool) (req : ShortenRequest) (p : Prepared)
      → prepare C N h R exists_ req ≡ go p
      → (validate_destination_url N req.url h.deny_list ≡ none) × (p.token_hash ≡ C.sha256 p.token)
  unfolding prepare generate_owner_token
  prepared exists_ req p k = on_go _ _ p k λ _ _ k1. on_go _ _ p k1 λ _ url k2.
      on_go _ _ p k2 λ _ _ k3. on_go _ _ p k3 λ _ _ k4. on_go _ _ p k4 λ _ _ k5.
        on_go _ _ p k5 λ _ _ k6. on_go _ _ p k6 λ _ _ k7. on_go _ _ p k7 λ _ _ k8.
          on_go _ _ p k8 λ _ _ k9. (
            checked_url req url,
            elim (Option-cases R.token_bytes) [
              | inl dry ↦ absurd (stop_not_go (rw (dry, generate_owner_token) at k9))
              | inr (b, drew) ↦
                  let r = go_inj (rw (drew, generate_owner_token) at k9) in
                  ap (λ q. q.token_hash) (sym r) ∙ ap (λ q. C.sha256 q.token) r
            ],
          )

  -- An item that is created: its code was free, its URL passed the validation, and the store has under
  -- its code a mapping to that URL with no clicks, for the caller's API key, with the answered
  -- expiration and destinations, with a password if the answer says so, and with the hash of the
  -- answered admin token.
  pub shorten_one-created :
      (clock : Clock) (req : ShortenRequest) (id : ℤ) (req_id : Text) (s : MemoryStore)
      (resp : ShortenResponse)
      → let (item, queued, after) = shorten_one C N h R (memory ordering) clock req id req_id s in
        item ≡ created resp
        → (exists resp.short_code s ≡ false)
          × (validate_destination_url N req.url h.deny_list ≡ none)
          × ((m : UrlMapping) × (lookup resp.short_code after.urls ≡ some m)
              × (m.original_url ≡ req.url)
              × (m.click_count ≡ pos 0)
              × (m.api_key_id ≡ id)
              × (m.expires_at ≡ resp.expires_at)
              × (not (is_empty m.password_hash) ≡ resp.has_password)
              × (m.destinations ≡ resp.destinations)
              × (m.owner_token_hash ≡ C.sha256 resp.admin_token))
  unfolding shorten_one exists mapping_of response_of log_audit_best_effort log_audit
  shorten_one-created clock req id req_id s resp k =
      elim (Step-cases (prepare C N h R (λ code. exists code s) req)) [
        | inl (f, stopped) ↦ absurd (rejected_not_created (rw (stopped, shorten_one) at k))
        | inr (p, ready) ↦
            let m = mapping_of C N h R clock req id p in
            let (url, hashed) = prepared (λ code. exists code s) req p ready in
            elim (Option-cases (lookup p.short_code s.urls)) [
              | inl free ↦
                  let e = set_new p.short_code m s free in
                  let stored = ap (λ t. t.0) e in
                  let r : response_of C N h R clock req p ≡ resp =
                    created_inj (rw (ready, e, shorten_one) at k) in
                  rw (sym r, ready, stored, shorten_one)
                    (
                      rw free refl,
                      url,
                      (
                        m,
                        ap (λ t. lookup p.short_code t.1.urls) e
                            ∙ lookup-assign p.short_code p.short_code m s.urls
                            ∙ rw (same_refl p.short_code) refl,
                        refl,
                        refl,
                        refl,
                        refl,
                        refl,
                        refl,
                        hashed,
                      ),
                    )
              | inr (n, taken) ↦ absurd (
                  rejected_not_created
                    (rw (ready, set_taken p.short_code m n s taken, shorten_one) at k))
            ]
      ]
