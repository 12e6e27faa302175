-- ===== src/Handlers/Patch/Accepted.antt =====
-- handlers/patch.go: what the checks of a PATCH let through, and what Update then makes of a mapping.
use tiny_url.Prelude.{
  List, Text, Bool, true, false, Option, none, some, [], ◌≡◌, refl, sym, ap, ◌⊎◌, inl, inr, arith,
  ◌&&◌, ◌||◌, not, is_empty, is_some, Bool-cases, Option-cases,
}
use tiny_url.Prelude.Int.{ℤ}
use tiny_url.Models.{Time, UrlMapping, Destination}
use tiny_url.Store.{UpdateFields}
use tiny_url.Store.Memory.Urls.{assigned, switched, apply_update}
use tiny_url.Services.Validation.{
  ValidationError, Checked, valid, invalid, Network, validate_destination_url,
  validate_destinations,
}
use tiny_url.Handlers.{Response}
use tiny_url.Handlers.Redirect.{is_used_up}
use tiny_url.Handlers.Shorten.{Crypto, Draws}
use tiny_url.Handlers.Gates.{pass, refuse, passed_first}
use tiny_url.Handlers.Patch.{
  PatchHandler, PatchRequest, WebhookChange, new_url, new_expiration, new_tags, new_max_clicks,
  new_password, new_webhook, new_destinations, rotated, with_fresh_secret, patch_fields,
}

-- A field that is given has the property.
abbrev pub Accepted {ℓ κ} : {A : Type ℓ} → (A → Type κ) → Option A → Type κ
Accepted P none = Unit
Accepted P (some a) = P a

assigned-Accepted {ℓ κ} :
    {A : Type ℓ} (P : A → Type κ) (new : Option A) (old : A)
    → Accepted P new
    → (assigned new old ≡ old) ⊎ P (assigned new old)
assigned-Accepted P none old h = inl refl
assigned-Accepted P (some a) old h = inr h

pass_inj : {A : Type 0} {a b : A} → pass a ≡ pass b → a ≡ b
pass_inj h = cc

refuse_not_pass : {A : Type 0} {r : Response} {a : A} → refuse r ≡ pass a → ⊥
refuse_not_pass h = cc

Checked-cases :
    {A : Type 0} (c : Checked A)
    → ((e : ValidationError) × (c ≡ invalid e)) ⊎ ((a : A) × (c ≡ valid a))
Checked-cases (valid a) = inr (a, refl)
Checked-cases (invalid e) = inl (e, refl)

module _ (C : Crypto) (N : Network) (h : PatchHandler) (R : Draws) where
  abbrev pub IsSafe : Text → Type 0
  IsSafe url = validate_destination_url N url h.deny_list ≡ none

  abbrev pub IsSafePool : List Destination → Type 0
  IsSafePool dests = validate_destinations N dests h.deny_list ≡ valid dests

  new_url-Accepted :
      (asked out : Option Text) → new_url C N h R asked ≡ pass out → Accepted IsSafe out
  unfolding new_url
  new_url-Accepted none out k = ground arith
  new_url-Accepted (some url) out k = ground arith

  validated_same :
      (dests out : List Destination)
      → validate_destinations N dests h.deny_list ≡ valid out
      → out ≡ dests
  unfolding validate_destinations
  validated_same dests out k = ground arith

  new_max_clicks-Accepted :
      (m : UrlMapping) (asked out : Option ℤ)
      → new_max_clicks C N h R m asked ≡ pass out
      → Accepted (λ n. is_used_up (record m { max_clicks = n }) ≡ false) out
  unfolding new_max_clicks
  new_max_clicks-Accepted m none out k = ground arith
  new_max_clicks-Accepted m (some n) out k = ground arith

  new_destinations-Accepted :
      (asked out : Option (List Destination))
      → new_destinations C N h R asked ≡ pass out
      → Accepted IsSafePool out
  unfolding new_destinations
  new_destinations-Accepted none out k = ground arith
  new_destinations-Accepted (some dests) out k =
      elim (Checked-cases (validate_destinations N dests h.deny_list)) [
        | inl (e, bad) ↦ absurd (refuse_not_pass (rw (bad, new_destinations) at k))
        | inr (vs, fine) ↦
            let same = validated_same dests vs fine in
            rw (sym (pass_inj (rw (fine, new_destinations) at k)), same) (rw same at fine)
      ]

  -- The webhook goes, stays, or is one whose URL is checked.
  abbrev pub IsFine : UrlMapping → WebhookChange → Type 0
  IsFine m w = (w.cleared ≡ true) ⊎ Accepted (λ url. (url ≡ m.webhook_url) ⊎ IsSafe url) w.url

  with_fresh_secret-IsFine :
      (m : UrlMapping) (url : Text) (w : WebhookChange)
      → (url ≡ m.webhook_url) ⊎ IsSafe url
      → with_fresh_secret C N h R url ≡ pass w
      → IsFine m w
  unfolding with_fresh_secret
  with_fresh_secret-IsFine m url w safe k = elim (Option-cases R.secret) [
    | inl dry ↦ absurd (refuse_not_pass (rw (dry, with_fresh_secret) at k))
    | inr (secret, drew) ↦ rw (sym (pass_inj (rw (drew, with_fresh_secret) at k))) (inr safe)
  ]

  new_webhook-IsFine :
      (m : UrlMapping) (rotate : Bool) (asked : Option Text) (w : WebhookChange)
      → new_webhook C N h R m rotate asked ≡ pass w
      → IsFine m w
  unfolding new_webhook
  new_webhook-IsFine m rotate none w k = rw (sym (pass_inj k)) (inr tt)
  new_webhook-IsFine m rotate (some url) w k = elim (Bool-cases (is_empty url)) [
    | inl blank ↦ rw (sym (pass_inj (rw (blank, new_webhook) at k))) (inl refl)
    | inr full ↦ elim (Option-cases (validate_destination_url N url h.deny_list)) [
      | inr (e, bad) ↦ absurd (refuse_not_pass (rw (full, bad, new_webhook) at k))
      | inl safe ↦ elim (Bool-cases (is_empty m.webhook_secret || rotate)) [
        | inl fresh ↦
            with_fresh_secret-IsFine m url w (inr safe) (rw (full, safe, fresh, new_webhook) at k)
        | inr kept ↦ rw (sym (pass_inj (rw (full, safe, kept, new_webhook) at k))) (inr (inr safe))
      ]
    ]
  ]

  rotated-IsFine :
      (m : UrlMapping) (req : PatchRequest) (w v : WebhookChange)
      → IsFine m w
      → rotated C N h R m req w ≡ pass v
      → IsFine m v
  unfolding rotated
  rotated-IsFine m req w v fine k =
      elim (Bool-cases (req.rotate_webhook && not (is_some req.webhook_url))) [
        | inr off ↦ rw (sym (pass_inj (rw (off, rotated) at k))) fine
        | inl on ↦ elim (Bool-cases (is_empty m.webhook_url)) [
          | inl bare ↦ absurd (refuse_not_pass (rw (on, bare, rotated) at k))
          | inr there ↦
              with_fresh_secret-IsFine m m.webhook_url v (inl refl) (rw (on, there, rotated) at k)
        ]
      ]

  -- What a PATCH may do to a mapping: it keeps the clicks and the owner's token, what it sets has
  -- passed the checks of a new mapping, and the click cap that it leaves is no more reached than before.
  pub record IsPatched (m n : UrlMapping) : Type 0 where
    pub same_clicks : n.click_count ≡ m.click_count
    pub same_owner : n.owner_token_hash ≡ m.owner_token_hash
    pub same_key : n.api_key_id ≡ m.api_key_id
    pub url : (n.original_url ≡ m.original_url) ⊎ IsSafe n.original_url
    pub pool : (n.destinations ≡ m.destinations) ⊎ IsSafePool n.destinations
    pub webhook : (n.webhook_url ≡ []) ⊎ (n.webhook_url ≡ m.webhook_url) ⊎ IsSafe n.webhook_url
    pub room : (is_used_up n ≡ is_used_up m) ⊎ (is_used_up n ≡ false)

  webhook_after :
      (cleared : Bool) (url : Option Text) (old : Text)
      → (cleared ≡ true) ⊎ Accepted (λ u. (u ≡ old) ⊎ IsSafe u) url
      → let u = switched cleared [] url (λ v. v) old in (u ≡ []) ⊎ (u ≡ old) ⊎ IsSafe u
  webhook_after true url old fine = inl refl
  webhook_after false none old fine = inr (inl refl)
  webhook_after false (some u) old (inl gone) = cc
  webhook_after false (some u) old (inr fine) = inr fine

  room_after :
      (m : UrlMapping) (asked : Option ℤ)
      → Accepted (λ n. is_used_up (record m { max_clicks = n }) ≡ false) asked
      → let n = record m { max_clicks = assigned asked m.max_clicks } in
        (is_used_up n ≡ is_used_up m) ⊎ (is_used_up n ≡ false)
  room_after m none fine = inl refl
  room_after m (some n) fine = inr fine

  pub patch_fields-IsPatched :
      (now later : Time) (m : UrlMapping) (req : PatchRequest) (fields : UpdateFields)
      (issued : Text)
      → patch_fields C N h R now m req ≡ pass (fields, issued)
      → IsPatched m (apply_update later fields m)
  unfolding patch_fields apply_update
  patch_fields-IsPatched now later m req fields issued k =
      let (url, url_ok, k1) = passed_first (new_url C N h R req.url) _ _ k in
      let (exp, _, k2) = passed_first (new_expiration C N h R now req.expiration_mins) _ _ k1 in
      let (tags, _, k3) = passed_first (new_tags C N h R req.tags) _ _ k2 in
      let (cap_, cap_ok, k4) = passed_first (new_max_clicks C N h R m req.max_clicks) _ _ k3 in
      let (pw, _, k5) = passed_first (new_password C N h R req.password) _ _ k4 in
      let (hook, hook_ok, k6) =
        passed_first (new_webhook C N h R m req.rotate_webhook req.webhook_url) _ _ k5 in
      let (pool, pool_ok, k7) = passed_first (new_destinations C N h R req.destinations) _ _ k6 in
      let (last, last_ok, k8) = passed_first (rotated C N h R m req hook) _ _ k7 in
      let e = ap (λ p. p.0) (pass_inj k8) in
      rw (sym e) (record {
        same_clicks = refl;
        same_owner = refl;
        same_key = refl;
        url = assigned-Accepted IsSafe url m.original_url (new_url-Accepted req.url url url_ok);
        pool =
            assigned-Accepted IsSafePool pool m.destinations
              (new_destinations-Accepted req.destinations pool pool_ok);
        webhook = webhook_after last.cleared last.url m.webhook_url (
            rotated-IsFine m req hook last
              (new_webhook-IsFine m req.rotate_webhook req.webhook_url hook hook_ok) last_ok);
        room = room_after m cap_ (new_max_clicks-Accepted m req.max_clicks cap_ cap_ok);
      })
