-- ===== src/Handlers/Gates.antt =====
-- handlers/: the early returns of the handlers, as a chain of gates, and the guard that the handlers
-- for a mapping's owner begin with.
use tiny_url.Prelude.{
  ℕ, Text, Bool, true, false, ◌≡◌, refl, ◌⊎◌, inl, inr, is_empty, codes, if◌then◌else◌,
}
use tiny_url.Models.{UrlMapping}
use tiny_url.Store.{Store, ok, err}
use tiny_url.Handlers.{Clock, Request, Response, plain, refusal}
use tiny_url.Handlers.Auth.{authorize_access}

-- Either the rest of a handler or the response that ends it
pub data Gate (A : Type 0) : Type 0 where
  pass : A → Gate A
  refuse : Response → Gate A

-- What a handler writes: a response without a JSON body, or a status and a JSON body.
pub data Reply (A : Type 0) : Type 0 where
  simple : Response → Reply A
  answered : ℕ → A → Reply A

infixl 5 ◌>>=◌ ◌>>◌
abbrev pub ◌>>=◌ : {A B : Type 0} → Gate A → (A → Gate B) → Gate B
pass a >>= f = f a
refuse r >>= f = refuse r

abbrev pub ◌>>◌ : {B : Type 0} → Gate (Unit {0}) → Gate B → Gate B
m >> k = m >>= λ _. k

-- writeError, if the test holds
abbrev pub refuse_if : Bool → ℕ → Text → Gate (Unit {0})
refuse_if true status message = refuse (plain status message)
refuse_if false status message = pass tt

pub Gate-cases :
    {A : Type 0} (g : Gate A) → ((r : Response) × (g ≡ refuse r)) ⊎ ((a : A) × (g ≡ pass a))
Gate-cases (pass a) = inr (a, refl)
Gate-cases (refuse r) = inl (r, refl)

-- A chain that goes through has a first gate that passed.
pub passed_first :
    {A B : Type 0} (m : Gate A) (f : A → Gate B) (b : B)
    → (m >>= f) ≡ pass b
    → (a : A) × (m ≡ pass a) × (f a ≡ pass b)
passed_first (pass a) f b h = (a, refl, h)
passed_first (refuse r) f b h = cc

pub refuse_if_passed :
    (test : Bool) (status : ℕ) (message : Text)
    → refuse_if test status message ≡ pass tt
    → test ≡ false
refuse_if_passed true status message h = cc
refuse_if_passed false status message h = refl

module _ (sha256 : Text → Text) (S : Store) where
  -- The code, the Get and authorizeAccess
  unfoldable pub admit : Clock → Request → S.State → Gate UrlMapping × S.State
  admit clock r s =
      if is_empty r.code
      then (refuse (plain 400 (codes "Short code is required")), s)
      else elim (S.get (clock 0) r.code s) [
        | err e ↦ (refuse (refusal e), s)
        | ok m ↦
            let (allowed, after) = authorize_access sha256 S (clock 1) r.authorization m s in
            if allowed
            then (pass m, after)
            else (refuse (plain 401 (codes "missing or invalid admin token")), after)
      ]
