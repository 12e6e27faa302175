-- ===== src/Handlers/ClickCap.antt =====
-- The click cap of the redirect handler over MemoryStore, as one request after another counts.
use tiny_url.Store.Memory.Listing.{Ordering}
use tiny_url.Prelude.{
  ◌+◌, Text, false, Option, some, ◌≡◌, refl, sym, ap, ◌∙◌, ◌⊎◌, inl, inr, arith, is_empty, same,
  same_iff, text_eq, ◌&&◌, ◌≤◌, Bool-cases, Option-cases, some_inj,
}
use tiny_url.Prelude.Int.{ℤ, pos, negsuc, ◌≤ℤ◌, ◌<ℤ◌, lt_int, le_int}
use tiny_url.Prelude.Words.{max_int64, add64, add64-pos}
use tiny_url.Prelude.Table.{lookup}
use tiny_url.Models.{UrlMapping, ClickEvent}
use tiny_url.Store.Memory.State.{MemoryStore}
use tiny_url.Store.Memory.Urls.{get}
use tiny_url.Store.Memory.Clicks.{counted, record_click}
use tiny_url.Store.Memory.Clicklog.{lookup-record_click}
use tiny_url.Store.Memory.Contract.{memory}
use tiny_url.Services.DnsCache.{DnsCache}
use tiny_url.Handlers.{Clock, Request}
use tiny_url.Handlers.Redirect.{
  World, RedirectConfig, password_ok, target_of, is_disabled, click_of, serve_target, is_used_up,
  redirect_handler,
}
use tiny_url.Handlers.Clicked.{Result-cases}
use tiny_url.Handlers.Revoked.{get_found}

below_cap :
    (c k : ℤ)
    → pos 0 <ℤ k
    → k ≤ℤ pos max_int64
    → pos 0 ≤ℤ c
    → (lt_int (pos 0) k && le_int k c) ≡ false
    → add64 c (pos 1) ≤ℤ k
below_cap (pos c) (pos k) capped wide low room =
    let small : c + 1 ≤ k = ground arith in rw (add64-pos c 1 (omega arith)) (omega arith)
below_cap (pos c) (negsuc k) capped wide low room = absurd (omega arith)
below_cap (negsuc c) k capped wide low room = absurd (omega arith)

module _ (W : World) (ordering : Ordering) where
  -- The store after a request: as before, or with one more click on a mapping below its cap.
  abbrev Leaves : Request → MemoryStore → MemoryStore → Type 0
  Leaves r s after =
      (after ≡ s)
      ⊎ ((n : UrlMapping) × (ev : ClickEvent) × (lookup r.code s.urls ≡ some n)
          × (is_used_up n ≡ false)
          × (after ≡ (record_click r.code ev s).1))

  served-Leaves :
      (clock : Clock) (cfg : RedirectConfig) (r : Request) (n : UrlMapping) (s : MemoryStore)
      (cache : Option (DnsCache Text))
      → lookup r.code s.urls ≡ some n
      → is_used_up n ≡ false
      → Leaves r s (serve_target W (memory ordering) clock cfg r n (s, cache)).2
  unfolding serve_target
  served-Leaves clock cfg r n s cache got room = elim (Option-cases (target_of W n)) [
    | inl stuck ↦ inl (rw (stuck, serve_target) refl)
    | inr (t, chosen) ↦ elim (Bool-cases (is_disabled W (clock 1) cfg t cache).0) [
      | inl off ↦ inl (rw (chosen, off, serve_target) refl)
      | inr on ↦
          inr (n, click_of W (clock 2) cfg r n t, got, room, rw (chosen, on, serve_target) refl)
    ]
  ]

  redirect_handler-Leaves :
      (clock : Clock) (cfg : RedirectConfig) (r : Request) (s : MemoryStore)
      (cache : Option (DnsCache Text))
      → Leaves r s (redirect_handler W (memory ordering) clock cfg r (s, cache)).2
  unfolding redirect_handler
  redirect_handler-Leaves clock cfg r s cache = elim (Bool-cases (is_empty r.code)) [
    | inl blank ↦ inl (rw (blank, redirect_handler) refl)
    | inr named ↦ elim (Result-cases (get (clock 0) r.code s)) [
      | inl (e, missing) ↦ inl (rw (named, missing, redirect_handler) refl)
      | inr (n, got) ↦ elim (Bool-cases (is_used_up n)) [
        | inl used ↦ inl (rw (named, got, used, redirect_handler) refl)
        | inr room ↦ elim (Bool-cases (is_empty n.password_hash)) [
          | inl free ↦
              rw (named, got, room, free, redirect_handler)
                (served-Leaves clock cfg r n s cache (get_found (clock 0) r.code n s got) room)
          | inr gated ↦ elim (Option-cases (password_ok W r n)) [
            | inl passed ↦
                rw (named, got, room, gated, passed, redirect_handler)
                  (served-Leaves clock cfg r n s cache (get_found (clock 0) r.code n s got) room)
            | inr (written, stopped) ↦
                inl (rw (named, got, room, gated, stopped, redirect_handler) refl)
          ]
        ]
      ]
    ]
  ]

  -- A stored mapping whose click cap is positive and whose counter is between 0 and the cap: after any
  -- request to the redirect handler, for whatever code, it is stored with the same cap, and its
  -- counter is not above the cap.
  pub redirect_handler_capped :
      (clock : Clock) (cfg : RedirectConfig) (r : Request) (code : Text) (m : UrlMapping)
      (s : MemoryStore) (cache : Option (DnsCache Text))
      → lookup code s.urls ≡ some m
      → pos 0 <ℤ m.max_clicks
      → m.max_clicks ≤ℤ pos max_int64
      → pos 0 ≤ℤ m.click_count
      → m.click_count ≤ℤ m.max_clicks
      → let after = (redirect_handler W (memory ordering) clock cfg r (s, cache)).2 in
        (n : UrlMapping) × (lookup code after.urls ≡ some n)
        × (n.max_clicks ≡ m.max_clicks)
        × (n.click_count ≤ℤ n.max_clicks)
  redirect_handler_capped clock cfg r code m s cache stored capped wide low high =
      elim (redirect_handler-Leaves clock cfg r s cache) [
        | inl same_store ↦ rw same_store (m, stored, refl, high)
        | inr (n, ev, found, room, next) ↦
            let e = lookup-record_click r.code code ev n s found in
            elim (Bool-cases (same r.code code)) [
              | inl mine ↦
                  let there : lookup code s.urls ≡ some n =
                    rw (sym ((same_iff r.code code).0 mine)) found in
                  let me : m ≡ n = some_inj m n (sym stored ∙ there) in
                  let below =
                    below_cap n.click_count n.max_clicks (rw (sym me) capped) (rw (sym me) wide)
                      (rw (sym me) low) room in
                  rw next (counted ev n, e ∙ rw mine refl, ap (λ u. u.max_clicks) (sym me), below)
              | inr other ↦ rw next (m, e ∙ rw other stored, refl, high)
            ]
      ]
