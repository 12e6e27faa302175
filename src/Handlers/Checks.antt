-- ===== src/Handlers/Checks.antt =====
-- handlers/redirect.go: what the checks of a redirect establish, each by itself.
use mathlib.Core.Path.{subst}
use tiny_url.Prelude.{
  List, Text, true, false, Option, none, some, [], ◌∷◌, ◌≡◌, ◌≢◌, refl, sym, ap, ◌∙◌, is_empty,
  Bool-cases, Option-cases, inl, inr, ◌⊎◌, same_iff, text_eq, codes, some_inj, arith, IsIn, here,
  there,
}
use tiny_url.Prelude.Int.{ℤ, pos, lt_int, le_int, ◌<ℤ◌, ◌≤ℤ◌}
use tiny_url.Prelude.Words.{add64}
use tiny_url.Prelude.Strings.{to_lower, trim_space}
use tiny_url.Prelude.Table.{lookup}
use tiny_url.Models.{Time, Destination, UrlMapping}
use tiny_url.Services.Destinations.{
  Picked, no_pool, panicked, picked, add_weights, pick_from, pick_destination,
}
use tiny_url.Services.DenyList.{Hosts, listed, contains}
use tiny_url.Services.DenyList.Parents.{IsParent, contains_iff}
use tiny_url.Services.DnsCache.{DnsCache, DnsCacheEntry, cached, validate_host}
use tiny_url.Handlers.{Request}
use tiny_url.Handlers.Redirect.{
  World, RedirectConfig, target_of, is_disabled, is_used_up, verify_password,
}

clash : false ≡ true → ⊥
clash h = cc

none_not_some : {A : Type 0} {x : A} → none ≡ some x → ⊥
none_not_some h = cc

-- The mapping's click cap is not reached.
abbrev pub IsOpen : UrlMapping → Type 0
IsOpen m = (m.max_clicks ≤ℤ pos 0) ⊎ (m.click_count <ℤ m.max_clicks)

pub is_used_up-IsOpen : (m : UrlMapping) → is_used_up m ≡ false → IsOpen m
is_used_up-IsOpen m h = elim (Bool-cases (lt_int (pos 0) m.max_clicks)) [
  | inl capped ↦ inr (ground (arith, capped, h))
  | inr free ↦ inl (ground arith)
]

-- The mapping's own URL, if it has no destinations, or that of one of them
abbrev pub IsTargetOf : UrlMapping → Text → Type 0
IsTargetOf m target =
    ((m.destinations ≡ []) × (target ≡ m.original_url))
    ⊎ ((d : Destination) × IsIn d m.destinations × (target ≡ d.url))

pick_from-IsIn :
    (r cum : ℤ) (last : Destination) (pool all_ : List Destination)
    → IsIn last all_
    → ((d : Destination) → IsIn d pool → IsIn d all_)
    → IsIn (pick_from r cum last pool) all_
unfolding pick_from
pick_from-IsIn r cum last [] all_ seen sub = seen
pick_from-IsIn r cum last (d ∷ pool) all_ seen sub =
    let next = add64 cum d.weight in
    elim (Bool-cases (lt_int r next)) [
      | inl here_ ↦ rw here_ (sub d (here pool))
      | inr on ↦
          rw on (pick_from-IsIn r next d pool all_ (sub d (here pool)) (λ e i. sub e (there d i)))
    ]

picked_inj : {d e : Destination} → picked d ≡ picked e → d ≡ e
picked_inj h = cc

panicked_not_picked : {d : Destination} → panicked ≡ picked d → ⊥
panicked_not_picked h = cc

pick_destination-IsIn :
    (int_n : ℤ → ℤ) (pool : List Destination) (d : Destination)
    → pick_destination int_n pool ≡ picked d
    → IsIn d pool
unfolding pick_destination
pick_destination-IsIn int_n [] d h = cc
pick_destination-IsIn int_n (e ∷ []) d h = subst (λ x. IsIn x (e ∷ [])) (picked_inj h) (here [])
pick_destination-IsIn int_n (e ∷ f ∷ pool) d h =
    let total = add_weights (pos 0) (e ∷ f ∷ pool) in
    elim (Bool-cases (le_int total (pos 0))) [
      | inl none_ ↦ absurd (panicked_not_picked (rw none_ at h))
      | inr some_ ↦
          subst (λ x. IsIn x (e ∷ f ∷ pool)) (picked_inj (rw some_ at h))
            (pick_from-IsIn (int_n total) (pos 0) e (e ∷ f ∷ pool) (e ∷ f ∷ pool) (here (f ∷ pool))
              (λ x i. i))
    ]

Picked-cases : (p : Picked) → (p ≡ no_pool) ⊎ (p ≡ panicked) ⊎ ((d : Destination) × (p ≡ picked d))
Picked-cases no_pool = inl refl
Picked-cases panicked = inr (inl refl)
Picked-cases (picked d) = inr (inr (d, refl))

no_pool-empty :
    (int_n : ℤ → ℤ) (pool : List Destination) → pick_destination int_n pool ≡ no_pool → pool ≡ []
unfolding pick_destination
no_pool-empty int_n [] h = refl
no_pool-empty int_n (e ∷ []) h = cc
no_pool-empty int_n (e ∷ f ∷ pool) h =
    elim (Bool-cases (le_int (add_weights (pos 0) (e ∷ f ∷ pool)) (pos 0))) [
      | inl none_ ↦ let k = rw none_ at h in cc
      | inr some_ ↦ let k = rw some_ at h in cc
    ]

module _ (W : World) where
  -- The request is a POST with a password whose PBKDF2 hash, under the stored salt, is the stored one.
  abbrev pub IsUnlocked : Request → UrlMapping → Type 0
  IsUnlocked r m =
      (p : Text) × (r.method ≡ codes "POST")
      × (r.password ≡ some p)
      × (m.password_salt ≢ [])
      × (W.pbkdf2 p m.password_salt ≡ some m.password_hash)

  pub verified :
      (p : Text) (m : UrlMapping)
      → verify_password W p m.password_hash m.password_salt ≡ true
      → (m.password_salt ≢ []) × (W.pbkdf2 p m.password_salt ≡ some m.password_hash)
  unfolding verify_password
  verified p m h = elim (Bool-cases (is_empty m.password_hash)) [
    | inl open_ ↦ absurd (clash (rw open_ at h))
    | inr gated ↦ elim (Bool-cases (is_empty m.password_salt)) [
      | inl bare ↦ absurd (clash (rw (gated, bare) at h))
      | inr salted ↦ elim (Option-cases (W.pbkdf2 p m.password_salt)) [
        | inl failed ↦ absurd (clash (rw (gated, salted, failed) at h))
        | inr (got, hashed) ↦ (
          λ e. clash (sym (rw e at salted)),
          hashed ∙ ap some ((same_iff got m.password_hash).0 (rw (gated, salted, hashed) at h)),
        )
      ]
    ]
  ]

  pub target_of-IsTargetOf :
      (m : UrlMapping) (target : Text) → target_of W m ≡ some target → IsTargetOf m target
  unfolding target_of
  target_of-IsTargetOf m target h = elim (Picked-cases (pick_destination W.int_n m.destinations)) [
    | inl empty ↦ inl (
      no_pool-empty W.int_n m.destinations empty,
      sym (some_inj _ _ (rw (empty, target_of) at h)),
    )
    | inr (inl stuck) ↦ absurd (none_not_some (rw (stuck, target_of) at h))
    | inr (inr (d, one)) ↦ inr (
      d,
      pick_destination-IsIn W.int_n m.destinations d one,
      sym (some_inj _ _ (rw (one, target_of) at h)),
    )
  ]

  -- Neither the host, trimmed and in lower case, nor any of its parents is on the deny list.
  abbrev pub IsUnlisted : RedirectConfig → Text → Type 0
  IsUnlisted cfg host =
      let h = to_lower W.unicode_lower (trim_space host) in
      (set : Hosts)
      → cfg.deny_list ≡ some set
      → is_empty h ≡ false
      → (e : Text) → IsParent e h
      → lookup e set ≡ none

  -- The validation of the host finds nothing, now or in a cached run that has not expired.
  abbrev pub IsValidated : Time → Option (DnsCache Text) → Text → Type 0
  IsValidated now cache host =
      (W.resolve now host ≡ none)
      ⊎ ((c : DnsCache Text) × (entry : DnsCacheEntry Text) × (cache ≡ some c)
          × (lookup host c.data_ ≡ some entry)
          × (now <ℤ entry.expires)
          × (entry.error ≡ none))

  unlisted :
      (cfg : RedirectConfig) (host : Text)
      → contains W.unicode_lower cfg.deny_list host ≡ false
      → IsUnlisted cfg host
  unlisted cfg host off set is_set full e parent = elim (Option-cases (lookup e set)) [
    | inl free ↦ free
    | inr (u, listed_) ↦
        let hit : listed e set ≡ true = rw listed_ refl in
        absurd (
          clash (
            sym off
            ∙ ap (λ l. contains W.unicode_lower l host) is_set
            ∙ (contains_iff W.unicode_lower set host full).1 (e, parent, hit)))
  ]

  cached_or_resolved :
      (now : Time) (host : Text) (c : DnsCache Text)
      → (validate_host W.resolve now host c).0 ≡ none
      → IsValidated now (some c) host
  unfolding validate_host cached
  cached_or_resolved now host c h = elim (Option-cases (lookup host c.data_)) [
    | inl fresh ↦ inl (rw (fresh, validate_host, cached) at h)
    | inr (entry, old) ↦ elim (Bool-cases (lt_int now entry.expires)) [
      | inl live ↦
          inr (c, entry, refl, old, ground arith, (rw (old, live, validate_host, cached) at h))
      | inr stale ↦ inl (rw (old, stale, validate_host, cached) at h)
    ]
  ]

  validated :
      (now : Time) (cfg : RedirectConfig) (target host : Text) (cache : Option (DnsCache Text))
      → (is_disabled W now cfg target cache).0 ≡ false
      → W.parse_url target ≡ some host
      → contains W.unicode_lower cfg.deny_list host ≡ false
      → IsValidated now cache host
  unfolding is_disabled
  validated now cfg target host none on parsed free = elim (Option-cases (W.resolve now host)) [
    | inl fine ↦ inl fine
    | inr (e, bad) ↦ absurd (clash (sym (rw (parsed, free, bad, is_disabled) at on)))
  ]
  validated now cfg target host (some c) on parsed free =
      elim (Option-cases (validate_host W.resolve now host c).0) [
        | inl fine ↦ cached_or_resolved now host c fine
        | inr (e, bad) ↦ absurd (clash (sym (rw (parsed, free, bad, is_disabled) at on)))
      ]

  pub enabled :
      (now : Time) (cfg : RedirectConfig) (target host : Text) (cache : Option (DnsCache Text))
      → (is_disabled W now cfg target cache).0 ≡ false
      → W.parse_url target ≡ some host
      → IsUnlisted cfg host × IsValidated now cache host
  unfolding is_disabled
  enabled now cfg target host cache on parsed =
      elim (Bool-cases (contains W.unicode_lower cfg.deny_list host)) [
        | inl denied ↦ absurd (clash (sym (rw (parsed, denied, is_disabled) at on)))
        | inr free ↦ (unlisted cfg host free, validated now cfg target host cache on parsed free)
      ]
