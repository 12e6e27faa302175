-- ===== src/Middleware/ClientIp.antt =====
-- middleware/ratelimit.go: ClientIP. net.ParseIP and net.SplitHostPort are parameters (`none` for nil and
-- for an error).
use tiny_url.Prelude.{
  All, ℕ, List, Text, Bool, true, false, Option, none, some, [], ◌∷◌, ◌++◌, ◌≡◌, refl, ap, ◌∙◌, inl,
  inr, ◌==◌, is_empty, is_some, not, ◌&&◌, Bool-cases, if◌then◌else◌,
}
use tiny_url.Prelude.Strings.{trim_space}

-- c in front of the first part
abbrev push : ℕ → List Text → List Text
push c [] = (c ∷ []) ∷ []
push c (part ∷ parts) = (c ∷ part) ∷ parts

-- strings.Split(s, ",")
unfoldable pub split_commas : Text → List Text
split_commas [] = [] ∷ []
split_commas (c ∷ s) = let parts = split_commas s in if c == 44 then [] ∷ parts else push c parts

pushed :
    (c d : ℕ) (parts more : List Text)
    → push c (push d parts ++ more) ≡ push c (push d parts) ++ more
pushed c d [] more = refl
pushed c d (part ∷ parts) more = refl

is_empty-append : (s t : Text) → is_empty (s ++ 44 ∷ t) ≡ false
is_empty-append [] t = refl
is_empty-append (c ∷ s) t = refl

module _ (parse_ip : Text → Option Text) (split_host_port : Text → Option Text) where
  -- The loop over the parts, which begins with the last one
  unfoldable pub last_ip : List Text → Option Text
  last_ip [] = none
  last_ip (part ∷ parts) =
      let ip = trim_space part in
      elim (last_ip parts) [
        | some later ↦ some later
        | none ↦ if not (is_empty ip) && is_some (parse_ip ip) then some ip else none
      ]

  -- The host of the connection's address
  unfoldable pub remote_host : Text → Text
  remote_host remote_addr = elim (split_host_port remote_addr) [
    | none ↦ remote_addr
    | some host ↦ host
  ]

  unfoldable pub client_ip : Bool → Text → Text → Text
  client_ip trust_proxy xff remote_addr =
      if trust_proxy && not (is_empty xff)
      then (elim (last_ip (split_commas xff)) [ none ↦ remote_host remote_addr | some ip ↦ ip ])
      else remote_host remote_addr

  push-append :
      (c : ℕ) (s : Text) (parts : List Text)
      → push c (split_commas s ++ parts) ≡ push c (split_commas s) ++ parts
  unfolding split_commas
  push-append c [] parts = refl
  push-append c (d ∷ s) parts = elim (Bool-cases (d == 44)) [
    | inl comma ↦ rw comma refl
    | inr other ↦ rw other (pushed c d (split_commas s) parts)
  ]

  split_commas-append : (s t : Text) → split_commas (s ++ 44 ∷ t) ≡ split_commas s ++ split_commas t
  unfolding split_commas
  split_commas-append [] t = refl
  split_commas-append (c ∷ s) t = elim (Bool-cases (c == 44)) [
    | inl comma ↦ rw comma (ap (λ p. [] ∷ p) (split_commas-append s t))
    | inr other ↦
        rw other (ap (push c) (split_commas-append s t) ∙ push-append c s (split_commas t))
  ]

  last_ip-append :
      (ip : Text) (front back : List Text)
      → last_ip back ≡ some ip
      → last_ip (front ++ back) ≡ some ip
  unfolding last_ip
  last_ip-append ip [] back h = h
  last_ip-append ip (part ∷ front) back h = rw (last_ip-append ip front back h, last_ip) refl

  split_commas_single : (s : Text) → All (λ c. (c == 44) ≡ false) s → split_commas s ≡ s ∷ []
  unfolding split_commas
  split_commas_single [] h = refl
  split_commas_single (c ∷ s) (other, h) = rw (other, split_commas_single s h) refl

  -- Behind a trusted proxy that appends an address to X-Forwarded-For, the client's address is the
  -- appended one, whatever the client has put in front of it; provided that the appended text has no
  -- comma and is not blank, and that net.ParseIP reads it without the spaces around it.
  pub client_ip_appended :
      (spoofed appended remote_addr address : Text)
      → All (λ c. (c == 44) ≡ false) appended
      → is_empty (trim_space appended) ≡ false
      → parse_ip (trim_space appended) ≡ some address
      → client_ip true (spoofed ++ 44 ∷ appended) remote_addr ≡ trim_space appended
  unfolding client_ip last_ip
  client_ip_appended spoofed appended remote_addr address plain full reads =
      let single : last_ip (split_commas appended) ≡ some (trim_space appended) =
        rw (split_commas_single appended plain, full, reads) refl in
      let e =
        ap last_ip (split_commas-append spoofed appended)
        ∙ last_ip-append (trim_space appended) (split_commas spoofed) (split_commas appended)
            single in
      rw (is_empty-append spoofed appended, e, client_ip) refl
