-- ===== src/Handlers/Clicked.antt =====
-- What a redirect has passed, and what it does to the click counter.
use tiny_url.Prelude.{
  [], ◌∷◌, same_iff, ℕ, Text, true, Option, none, some, ◌≡◌, refl, sym, ap, ◌∙◌, is_empty,
  Bool-cases, Option-cases, inl, inr, ◌⊎◌, same, text_eq, codes, some_inj,
}
use tiny_url.Models.{UrlMapping}
use tiny_url.Store.{
  Store, Result, ok, err, StoreError, not_found, expired, code_conflict, backend, panicked,
}
use tiny_url.Services.DnsCache.{DnsCache}
use tiny_url.Handlers.{Clock, Request, Response, found, plain, refusal, form}
use tiny_url.Handlers.Checks.{
  IsOpen, is_used_up-IsOpen, IsTargetOf, IsUnlocked, verified, target_of-IsTargetOf, IsUnlisted,
  IsValidated, enabled,
}
use tiny_url.Handlers.Redirect.{
  World, RedirectConfig, password_ok, target_of, is_disabled, serve_target, is_used_up,
  redirect_handler, verify_password,
}

empty_text : (t : Text) → is_empty t ≡ true → t ≡ []
empty_text [] h = refl
empty_text (c ∷ t) h = cc

none_not_some : {A : Type 0} {x : A} → none ≡ some x → ⊥
none_not_some h = cc

some_not_none : {A : Type 0} {x : A} → some x ≡ none → ⊥
some_not_none h = cc

found_inj : {t u : Text} → found t ≡ found u → t ≡ u
found_inj h = cc

pub Result-cases :
    {A : Type 0} (r : Result A) → ((e : StoreError) × (r ≡ err e)) ⊎ ((a : A) × (r ≡ ok a))
Result-cases (ok a) = inr (a, refl)
Result-cases (err e) = inl (e, refl)

plain_not_found : {n : ℕ} {t u : Text} → plain n t ≡ found u → ⊥
plain_not_found h = cc

form_not_found : {n : ℕ} {t u : Text} → form n t ≡ found u → ⊥
form_not_found h = cc

refusal_not_found : (e : StoreError) (target : Text) → refusal e ≡ found target → ⊥
unfolding refusal
refusal_not_found not_found target h = plain_not_found h
refusal_not_found expired target h = plain_not_found h
refusal_not_found code_conflict target h = plain_not_found h
refusal_not_found backend target h = plain_not_found h
refusal_not_found panicked target h = plain_not_found h

module _ (W : World) where
  password_gate :
      (r : Request) (m : UrlMapping)
      → (password_ok W r m ≡ none → IsUnlocked W r m)
        × ((written : Response) (u : Text)
            → password_ok W r m ≡ some written
            → written ≡ found u
            → ⊥)
  unfolding password_ok
  password_gate r m = elim (Bool-cases (same r.method (codes "POST"))) [
    | inl post ↦ elim (Option-cases r.password) [
      | inl broken ↦
          rw (post, broken, password_ok)
            ((λ h. absurd (some_not_none h)), λ written u h k. form_not_found (some_inj _ _ h ∙ k))
      | inr (p, given) ↦ elim (Bool-cases (verify_password W p m.password_hash m.password_salt)) [
        | inl right ↦
            let is_post = (same_iff r.method (codes "POST")).0 post in
            rw (post, given, right, password_ok)
              (
                (λ h.
                    let (salted, hashed) = verified W p m right in
                    (p, is_post, refl, salted, hashed)),
                λ written u h k. none_not_some h,
              )
        | inr wrong ↦
            rw (post, given, wrong, password_ok)
              (
                (λ h. absurd (some_not_none h)),
                λ written u h k. form_not_found (some_inj _ _ h ∙ k),
              )
      ]
    ]
    | inr other ↦ elim (Bool-cases (same r.method (codes "GET"))) [
      | inl ask ↦
          rw (other, ask, password_ok)
            ((λ h. absurd (some_not_none h)), λ written u h k. form_not_found (some_inj _ _ h ∙ k))
      | inr bad ↦
          rw (other, bad, password_ok)
            ((λ h. absurd (some_not_none h)), λ written u h k. plain_not_found (some_inj _ _ h ∙ k))
    ]
  ]

module _ (W : World) (S : Store) where
  -- A redirect's way: it is to one of the mapping's targets, and its host is neither listed nor
  -- invalid.
  abbrev pub IsServed : Clock → RedirectConfig → UrlMapping → Option (DnsCache Text) → Text → Type 0
  IsServed clock cfg m cache target =
      IsTargetOf m target
      × ((host : Text)
          → W.parse_url target ≡ some host
          → IsUnlisted W cfg host × IsValidated W (clock 1) cache host)

  served :
      (clock : Clock) (cfg : RedirectConfig) (r : Request) (m : UrlMapping) (s : S.State)
      (cache : Option (DnsCache Text)) (target : Text)
      → (serve_target W S clock cfg r m (s, cache)).0 ≡ found target
      → IsServed clock cfg m cache target
  unfolding serve_target
  served clock cfg r m s cache target h = elim (Option-cases (target_of W m)) [
    | inl stuck ↦ absurd (plain_not_found (rw (stuck, serve_target) at h))
    | inr (t, chosen) ↦ elim (Bool-cases (is_disabled W (clock 1) cfg t cache).0) [
      | inl off ↦ absurd (plain_not_found (rw (chosen, off, serve_target) at h))
      | inr on ↦
          let e : t ≡ target = found_inj (rw (chosen, on, serve_target) at h) in
          (
            target_of-IsTargetOf W m target (chosen ∙ ap some e),
            λ host. enabled W (clock 1) cfg target host cache (rw (sym e) on),
          )
    ]
  ]

  -- A redirect that the handler answers has passed every check: the store's Get gives the mapping, its
  -- click cap is not reached, the request is a POST of its password if it has one, the target is the
  -- mapping's own URL or that of one of its destinations, and if the target's host parses, then neither
  -- it nor a parent of it is on the deny list, and its validation found nothing, at this time or in a
  -- cached run that has not expired.
  pub redirect_handler_passed :
      (clock : Clock) (cfg : RedirectConfig) (r : Request) (s : S.State)
      (cache : Option (DnsCache Text)) (target : Text)
      → (redirect_handler W S clock cfg r (s, cache)).0 ≡ found target
      → (m : UrlMapping) × (S.get (clock 0) r.code s ≡ ok m)
        × IsOpen m
        × ((m.password_hash ≡ []) ⊎ IsUnlocked W r m)
        × IsServed clock cfg m cache target
  unfolding redirect_handler
  redirect_handler_passed clock cfg r s cache target h = elim (Bool-cases (is_empty r.code)) [
    | inl blank ↦ absurd (plain_not_found (rw (blank, redirect_handler) at h))
    | inr named ↦ elim (Result-cases (S.get (clock 0) r.code s)) [
      | inl (e, missing) ↦
          absurd (refusal_not_found e target (rw (named, missing, redirect_handler) at h))
      | inr (m, got) ↦ elim (Bool-cases (is_used_up m)) [
        | inl used ↦ absurd (plain_not_found (rw (named, got, used, redirect_handler) at h))
        | inr open_ ↦ elim (Bool-cases (is_empty m.password_hash)) [
          | inl free ↦ (
            m,
            got,
            is_used_up-IsOpen m open_,
            inl (empty_text m.password_hash free),
            served clock cfg r m s cache target
                (rw (named, got, open_, free, redirect_handler) at h),
          )
          | inr gated ↦ elim (Option-cases (password_ok W r m)) [
            | inl passed ↦ (
              m,
              got,
              is_used_up-IsOpen m open_,
              inr ((password_gate W r m).0 passed),
              served clock cfg r m s cache target
                  (rw (named, got, open_, gated, passed, redirect_handler) at h),
            )
            | inr (written, stopped) ↦ absurd (
                (password_gate W r m).1 written target stopped
                  (rw (named, got, open_, gated, stopped, redirect_handler) at h))
          ]
        ]
      ]
    ]
  ]
