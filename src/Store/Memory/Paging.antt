-- ===== src/Store/Memory/Paging.antt =====
-- The pages of MemoryStore's two listings, the mappings of an API key and the audit events.
use mathlib.Core.List.{reverse-append}
use native.Mathlib.Nat.{zero-add, suc-add}
use tiny_url.Prelude.{
  ℕ, zero, suc, ◌+◌, ◌-◌, ◌≤◌, ◌<◌, min, List, [], ◌∷◌, ◌++◌, ◌≡◌, refl, sym, ap, ◌∙◌, arith,
  length, length-drop, length-reverse, take, take-nil, take_long, drop, reverse, leb, leb→le,
  Bool-cases, inl, inr,
}
use tiny_url.Prelude.Int.{ℤ, pos, pos_part}
use tiny_url.Prelude.Words.{max_int64, add64-pos}
use tiny_url.Models.{Time, UrlMapping, AuditEvent}
use tiny_url.Store.{ok}
use tiny_url.Store.Memory.State.{MemoryStore, memory_audit_cap, walk_back, default_limit}
use tiny_url.Store.Memory.Listing.{page}
use tiny_url.Store.Memory.Audit.{numbered, log_audit, recent_audit_events}
use tiny_url.Store.Memory.Clicklog.{walk_back_lem, reverse-push_capped}

module _ {ℓ} {A : Type ℓ} where
  drop_long : (n : ℕ) (xs : List A) → length xs ≤ n → drop n xs ≡ []
  drop_long zero [] h = refl
  drop_long zero (x ∷ xs) h = absurd (omega arith)
  drop_long (suc n) [] h = refl
  drop_long (suc n) (x ∷ xs) h = drop_long n xs (omega arith)

  pub take-take_rest : (n m : ℕ) (xs : List A) → take n xs ++ take m (drop n xs) ≡ take (n + m) xs
  take-take_rest zero m xs = rw zero-add
  take-take_rest (suc n) m [] = rw (suc-add, take-nil)
  take-take_rest (suc n) m (x ∷ xs) = rw suc-add (ap (λ l. x ∷ l) (take-take_rest n m xs))

  drop-drop : (n k : ℕ) (xs : List A) → drop n (drop k xs) ≡ drop (n + k) xs
  drop-drop n zero xs = ap (λ j. drop j xs) (let e : n ≡ n + 0 = omega arith in e)
  drop-drop zero (suc k) [] = rw zero-add refl
  drop-drop (suc n) (suc k) [] = rw suc-add refl
  drop-drop n (suc k) (x ∷ xs) =
      drop-drop n k xs
      ∙ ap (λ j. drop j (x ∷ xs)) (let e : suc (n + k) ≡ n + suc k = omega arith in e)

  take_clipped : (n m : ℕ) (xs : List A) → length xs ≤ m → take (min n m) xs ≡ take n xs
  take_clipped n m xs h = elim (Bool-cases (leb n m)) [
    | inl le ↦ ap (λ k. take k xs) (let e : min n m ≡ n = omega (arith, leb→le n m le) in e)
    | inr gt ↦ take_long (min n m) xs (ground arith) ∙ sym (take_long n xs (ground arith))
  ]

  drop-append : (n : ℕ) (xs ys : List A) → n ≤ length xs → drop n (xs ++ ys) ≡ drop n xs ++ ys
  drop-append zero xs ys h = refl
  drop-append (suc n) [] ys h = absurd (omega arith)
  drop-append (suc n) (x ∷ xs) ys h = drop-append n xs ys (omega arith)

  -- A prefix, seen from the end.
  reverse-take :
      (e k : ℕ) (xs : List A) → e + k ≡ length xs → reverse (take e xs) ≡ drop k (reverse xs)
  reverse-take zero k xs h = sym (drop_long k (reverse xs) (omega (arith, length-reverse xs)))
  reverse-take (suc e) k [] h = absurd (omega arith)
  reverse-take (suc e) k (x ∷ xs) h =
      reverse-append (x ∷ []) (take e xs)
      ∙ ap (λ l. l ++ x ∷ []) (reverse-take e k xs (omega arith))
      ∙ sym (drop-append k (reverse xs) (x ∷ []) (omega (arith, length-reverse xs)))
      ∙ ap (drop k) (sym (reverse-append (x ∷ []) xs))

walked :
    (limit offset : ℕ) (list : List AuditEvent)
    → offset ≤ length list
    → let end = length list - offset in
      walk_back list end (end - (end - limit)) ≡ take limit (drop offset (reverse list))
walked limit offset list h =
    let end = length list - offset in
    let rounds : end - (end - limit) ≡ min limit end = omega arith in
    walk_back_lem list end (end - (end - limit)) (omega arith)
    ∙ ap (λ k. take k (reverse (take end list))) rounds
    ∙ ap (take (min limit end)) (reverse-take end offset list (omega arith))
    ∙ take_clipped limit end (drop offset (reverse list))
        (omega (arith, length-drop offset (reverse list), length-reverse list))

-- RecentAuditEvents returns a page of the reversed audit ring, so the newest events first: from the
-- offset (0 if it is negative) on, as many as the limit asks for (50 if it is not positive).
pub recent_audit_events_page :
    (limit offset : ℤ) (s : MemoryStore)
    → recent_audit_events limit offset s
      ≡ ok (take (default_limit limit) (drop (pos_part offset) (reverse s.audit)))
recent_audit_events_page limit offset s =
    let k = pos_part offset in
    let n = default_limit limit in
    elim (Bool-cases (leb (length s.audit) k)) [
      | inl past ↦
          unfold recent_audit_events in
          rw past (
            ap ok (
              sym (
                ap (take n) (
                  drop_long k (reverse s.audit)
                    (omega (arith, leb→le _ _ past, length-reverse s.audit)))
                ∙ take-nil n)))
      | inr within ↦
          unfold recent_audit_events in rw within (ap ok (walked n k s.audit (ground arith)))
    ]

-- After LogAudit on a ring within its cap, the first page of RecentAuditEvents is the new event, with
-- the next number and a time, and then the newest 999 of the events before it, cut to the limit.
pub recent_audit_events-log_audit :
    (now : Time) (ev : AuditEvent) (limit : ℤ) (s : MemoryStore)
    → length s.audit ≤ memory_audit_cap
    → recent_audit_events limit (pos 0) (log_audit now ev s).1
      ≡ ok (take (default_limit limit) (numbered now ev s ∷ take 999 (reverse s.audit)))
unfolding log_audit
recent_audit_events-log_audit now ev limit s capped =
    recent_audit_events_page limit (pos 0) (log_audit now ev s).1
    ∙ ap (λ l. ok (take (default_limit limit) l))
        (reverse-push_capped 999 s.audit (numbered now ev s) capped)

page_within :
    (limit offset : ℕ) (list : List UrlMapping)
    → limit + offset ≤ max_int64
    → offset < length list
    → page limit offset list ≡ ok (take (min limit (length list - offset)) (drop offset list))
unfolding page
page_within limit offset list room within = ground (arith, add64-pos offset limit (omega arith))

pub page_lem :
    (limit offset : ℕ) (list : List UrlMapping)
    → limit + offset ≤ max_int64
    → page limit offset list ≡ ok (take limit (drop offset list))
page_lem limit offset list room = elim (Bool-cases (leb (length list) offset)) [
  | inl past ↦
      unfold page in
      rw past
        (ap ok (sym (ap (take limit) (drop_long offset list (leb→le _ _ past)) ∙ take-nil limit)))
  | inr within ↦
      page_within limit offset list room (ground arith)
      ∙ ap ok (
          take_clipped limit (length list - offset) (drop offset list)
            (omega (arith, length-drop offset list)))
]
