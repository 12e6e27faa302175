-- ===== src/Handlers/Admitted.antt =====
-- handlers/: what the guard of the owner's handlers lets through, over MemoryStore.
use tiny_url.Store.Memory.Listing.{Ordering}
use tiny_url.Prelude.{Text, true, false, ◌≡◌, refl, inl, inr, is_empty, Bool-cases, sym}
use tiny_url.Models.{UrlMapping}
use tiny_url.Store.{ok}
use tiny_url.Store.Memory.State.{MemoryStore}
use tiny_url.Store.Memory.Urls.{get}
use tiny_url.Store.Memory.Contract.{memory}
use tiny_url.Handlers.{Clock, Request, Response}
use tiny_url.Handlers.Auth.{authorize_access}
use tiny_url.Handlers.Access.{authorize_access_keeps}
use tiny_url.Handlers.Clicked.{Result-cases}
use tiny_url.Handlers.Gates.{pass, refuse, admit}

refuse_not_pass : {A : Type 0} {r : Response} {a : A} → refuse r ≡ pass a → ⊥
refuse_not_pass h = cc

pass_inj : {A : Type 0} {a b : A} → pass a ≡ pass b → a ≡ b
pass_inj h = cc

-- The parts of the store that a handler's guard leaves alone
abbrev pub IsKept : MemoryStore → MemoryStore → Type 0
IsKept s after = (after.urls ≡ s.urls) × (after.events ≡ s.events) × (after.audit ≡ s.audit)

module _ (sha256 : Text → Text) (ordering : Ordering) where
  pub admit-IsKept :
      (clock : Clock) (r : Request) (s : MemoryStore)
      → IsKept s (admit sha256 (memory ordering) clock r s).1
  unfolding admit
  admit-IsKept clock r s = elim (Bool-cases (is_empty r.code)) [
    | inl blank ↦ rw (blank, admit) (refl, refl, refl)
    | inr full ↦ elim (Result-cases (get (clock 0) r.code s)) [
      | inl (e, missing) ↦ rw (full, missing, admit) (refl, refl, refl)
      | inr (m, there) ↦
          let kept = authorize_access_keeps sha256 ordering (clock 1) r.authorization m s in
          elim (Bool-cases
            (authorize_access sha256 (memory ordering) (clock 1) r.authorization m s).0) [
              | inl allowed ↦ rw (full, there, allowed, admit) kept
              | inr denied ↦ rw (full, there, denied, admit) kept
            ]
    ]
  ]

  -- The guard passes a mapping: it is the stored one, and the credentials are right.
  pub admit_passed :
      (clock : Clock) (r : Request) (s : MemoryStore) (m : UrlMapping)
      → (admit sha256 (memory ordering) clock r s).0 ≡ pass m
      → (is_empty r.code ≡ false)
        × (get (clock 0) r.code s ≡ ok m)
        × ((authorize_access sha256 (memory ordering) (clock 1) r.authorization m s).0 ≡ true)
  unfolding admit
  admit_passed clock r s m k = elim (Bool-cases (is_empty r.code)) [
    | inl blank ↦ absurd (refuse_not_pass (rw (blank, admit) at k))
    | inr full ↦ elim (Result-cases (get (clock 0) r.code s)) [
      | inl (e, missing) ↦ absurd (refuse_not_pass (rw (full, missing, admit) at k))
      | inr (n, there) ↦
          elim (Bool-cases
            (authorize_access sha256 (memory ordering) (clock 1) r.authorization n s).0) [
              | inr denied ↦ absurd (refuse_not_pass (rw (full, there, denied, admit) at k))
              | inl allowed ↦
                  let e = pass_inj (rw (full, there, allowed, admit) at k) in
                  rw (sym e) (full, there, allowed)
            ]
    ]
  ]
