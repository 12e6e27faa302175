-- ===== src/Handlers/Revoked.antt =====
-- What the delete and the rotate handlers do over MemoryStore.
use tiny_url.Store.Memory.Listing.{Ordering}
use tiny_url.Prelude.{
  Text, true, false, none, some, [], ◌≡◌, refl, ap, ◌∙◌, ◌↔◌, is_empty, same, same_iff, same_refl,
  text_eq, Bool-cases, Option-cases, inl, inr, if◌then◌else◌, some_inj, codes,
}
use tiny_url.Prelude.Table.{lookup, assign, remove, lookup-remove, lookup-assign}
use tiny_url.Models.{Time, UrlMapping}
use tiny_url.Store.{ok, err, StoreError}
use tiny_url.Store.Memory.State.{MemoryStore}
use tiny_url.Store.Memory.Urls.{get, delete, rotate_token, is_past}
use tiny_url.Store.Memory.Keys.{lookup_api_key}
use tiny_url.Store.Memory.Audit.{log_audit}
use tiny_url.Store.Memory.Contract.{memory}
use tiny_url.Handlers.{Clock, Request, plain, token_issued}
use tiny_url.Handlers.Auth.{
  extract_bearer, owns, authorize_owner, authorize_access, resolve_actor, log_audit_best_effort,
}
use tiny_url.Handlers.Owner.{delete_handler, rotate_handler, delete_outcome, rotate_outcome}
use tiny_url.Handlers.Clicked.{Result-cases}
use tiny_url.Handlers.Access.{authorize_access_keeps, lookup_api_key_keeps}

err_not_ok : {A : Type 0} {e : StoreError} {a : A} → err e ≡ ok a → ⊥
err_not_ok h = cc

ok_inj : {A : Type 0} {a b : A} → ok a ≡ ok b → a ≡ b
ok_inj h = cc

pub get_found :
    (now : Time) (code : Text) (m : UrlMapping) (s : MemoryStore)
    → get now code s ≡ ok m
    → lookup code s.urls ≡ some m
unfolding get
get_found now code m s h = elim (Option-cases (lookup code s.urls)) [
  | inl missing ↦ absurd (err_not_ok (rw (missing, get) at h))
  | inr (n, found) ↦ elim (Bool-cases (is_past n.expires_at now)) [
    | inl late ↦ absurd (err_not_ok (rw (found, late, get) at h))
    | inr live ↦ found ∙ ap some (ok_inj (rw (found, live, get) at h))
  ]
]

rotate_token_found :
    (code hash : Text) (m : UrlMapping) (s : MemoryStore)
    → lookup code s.urls ≡ some m
    → rotate_token code hash s
      ≡ (ok tt, record s { urls = assign code (record m { owner_token_hash = hash }) s.urls })
unfolding rotate_token
rotate_token_found code hash m s found = rw (found, rotate_token) refl

delete_found :
    (code : Text) (m : UrlMapping) (s : MemoryStore)
    → lookup code s.urls ≡ some m
    → delete code s ≡ (ok tt, record s { urls = remove code s.urls; events = remove code s.events })
unfolding delete
delete_found code m s found = rw (found, delete) refl

module _ (sha256 : Text → Text) (ordering : Ordering) where
  -- authorizeOwner accepts exactly the tokens whose hash is the stored one.
  authorize_owner_iff :
      (authorization hash : Text)
      → is_empty hash ≡ false
      → (authorize_owner sha256 authorization hash ≡ true)
        ↔ (extract_bearer sha256 authorization ≡ some hash)
  unfolding authorize_owner
  authorize_owner_iff authorization hash full =
      elim (Option-cases (extract_bearer sha256 authorization)) [
        | inl anonymous ↦ rw (anonymous, full, authorize_owner) ((λ h. cc), (λ h. cc))
        | inr (got, bearer) ↦
            rw (bearer, full, authorize_owner)
              (
                (λ h. ap some ((same_iff got hash).0 h)),
                (λ h. (same_iff got hash).1 (some_inj got hash h)),
              )
      ]

  pub resolve_actor_keeps :
      (now : Time) (authorization : Text) (m : UrlMapping) (s : MemoryStore)
      → let after = (resolve_actor sha256 (memory ordering) now authorization (some m) s).1 in
        (after.urls ≡ s.urls) × (after.events ≡ s.events)
  unfolding resolve_actor
  resolve_actor_keeps now authorization m s =
      elim (Option-cases (extract_bearer sha256 authorization)) [
        | inl anonymous ↦ rw (anonymous, resolve_actor) (refl, refl)
        | inr (hash, bearer) ↦
            let (urls, events, _) = lookup_api_key_keeps now hash s in
            elim (Bool-cases (owns sha256 hash m)) [
              | inl own ↦ rw (bearer, own, resolve_actor) (refl, refl)
              | inr foreign ↦ elim (Result-cases (lookup_api_key now hash s).0) [
                | inl (e, unknown) ↦ rw (bearer, foreign, unknown, resolve_actor) (urls, events)
                | inr (key, known) ↦ rw (bearer, foreign, known, resolve_actor) (urls, events)
              ]
            ]
      ]

  -- The stores before and after agree on the code j, but that `code` is gone if it was deleted.
  deleted :
      (clock : Clock) (r : Request) (m : UrlMapping) (s : MemoryStore)
      → lookup r.code s.urls ≡ some m
      → let (response, after) =
          delete_outcome sha256 (memory ordering) clock r m (delete r.code s) in
        (response ≡ plain 204 [])
        × (after.urls ≡ remove r.code s.urls)
        × (after.events ≡ remove r.code s.events)
  unfolding delete_outcome log_audit_best_effort log_audit
  deleted clock r m s found =
      rw (delete_found r.code m s found)
        (let kept = resolve_actor_keeps (clock 2) r.authorization m _ in (refl, kept.0, kept.1))

  -- A rotation by the holder of the current token issues the new one, and from then on authorizeOwner
  -- accepts, for the mapping, exactly the requests whose bearer token has the new token's hash: the
  -- old token is refused unless the hashes are the same.
  pub rotate_handler_lem :
      (clock : Clock) (token : Text) (r : Request) (authorization : Text) (m : UrlMapping)
      (s : MemoryStore)
      → is_empty r.code ≡ false
      → get (clock 0) r.code s ≡ ok m
      → authorize_owner sha256 r.authorization m.owner_token_hash ≡ true
      → is_empty (sha256 token) ≡ false
      → let (response, after) = rotate_handler sha256 (memory ordering) clock (some token) r s in
        (response ≡ token_issued r.code token)
        × ((n : UrlMapping) × (lookup r.code after.urls ≡ some n)
            × ((authorize_owner sha256 authorization n.owner_token_hash ≡ true)
                ↔ (extract_bearer sha256 authorization ≡ some (sha256 token))))
  unfolding rotate_handler rotate_outcome log_audit_best_effort log_audit
  rotate_handler_lem clock token r authorization m s named got owner full =
      let stored = get_found (clock 0) r.code m s got in
      rw (named, got, owner, rotate_handler, rotate_token_found r.code (sha256 token) m s stored)
        (
          refl,
          (
            record m { owner_token_hash = sha256 token },
            lookup-assign r.code r.code _ s.urls ∙ rw (same_refl r.code) refl,
            authorize_owner_iff authorization (sha256 token) full,
          ),
        )

  -- A request to delete a stored mapping that has not expired: if authorizeAccess lets it through, the
  -- answer is 204 and the mapping and its click log are gone, and no other; if not, the answer is 401
  -- and every mapping and click log is as before.
  pub delete_handler_lem :
      (clock : Clock) (r : Request) (m : UrlMapping) (j : Text) (s : MemoryStore)
      → is_empty r.code ≡ false
      → get (clock 0) r.code s ≡ ok m
      → let allowed = (authorize_access sha256 (memory ordering) (clock 1) r.authorization m s).0 in
        let (response, after) = delete_handler sha256 (memory ordering) clock r s in
        (response
          ≡ (if allowed then plain 204 [] else plain 401 (codes "missing or invalid admin token")))
        × (lookup j after.urls ≡ (
            if allowed then (if same r.code j then none else lookup j s.urls) else lookup j s.urls))
        × (lookup j after.events ≡ (
            if allowed
            then (if same r.code j then none else lookup j s.events)
            else lookup j s.events))
  unfolding delete_handler
  delete_handler_lem clock r m j s named got =
      let access = authorize_access sha256 (memory ordering) (clock 1) r.authorization m s in
      let (urls, events, _) =
        authorize_access_keeps sha256 ordering (clock 1) r.authorization m s in
      let stored : lookup r.code access.1.urls ≡ some m =
        rw urls (get_found (clock 0) r.code m s got) in
      elim (Bool-cases access.0) [
        | inl allowed ↦
            let (gone, no_url, no_log) = deleted clock r m access.1 stored in
            rw (named, got, allowed, delete_handler)
              (
                gone,
                ap (lookup j) no_url
                    ∙ lookup-remove r.code j access.1.urls
                    ∙ ap (λ t. if same r.code j then none else lookup j t) urls,
                ap (lookup j) no_log
                    ∙ lookup-remove r.code j access.1.events
                    ∙ ap (λ t. if same r.code j then none else lookup j t) events,
              )
        | inr refused ↦
            rw (named, got, refused, delete_handler)
              (refl, ap (lookup j) urls, ap (lookup j) events)
      ]
