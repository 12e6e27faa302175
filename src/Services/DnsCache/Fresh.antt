-- ===== src/Services/DnsCache/Fresh.antt =====
-- The size of the DNS cache, and the age of what it answers, over any interleaving of calls.
use tiny_url.Prelude.{
  All, IsIn, here, there, some_inj, ◌≤◌, List, Text, Option, none, some, [], ◌∷◌, ◌≡◌, refl, sym,
  ◌∙◌, arith, length, if◌then◌else◌, text_eq, Bool-cases, Option-cases, inl, inr,
}
use tiny_url.Prelude.Int.{ℤ, pos, lt_int, le_int, ◌+ℤ◌, ◌≤ℤ◌, ◌<ℤ◌}
use tiny_url.Prelude.Table.{Table, lookup, length-assign, All-assign, All-lookup}
use tiny_url.Models.{Time, Duration}
use tiny_url.Services.DnsCache.{
  DnsCacheEntry, DnsCache, new_dns_cache, drop_expired, evict_if_full_locked, cached, remember,
}

none_not_some : {A : Type 0} {x : A} → none ≡ some x → ⊥
none_not_some h = cc

module _ {E : Type 0} where
  length-drop_expired :
      (now : Time) (t : Table Text (DnsCacheEntry E)) → length (drop_expired now t) ≤ length t
  unfolding drop_expired
  length-drop_expired now [] = omega arith
  length-drop_expired now ((host, entry) ∷ t) = ground (arith, length-drop_expired now t)

  -- The locked sections of any number of calls, the latest first. A read leaves the cache as it is.
  unfoldable pub sections : List (Time × Text × Option E) → DnsCache E → DnsCache E
  sections [] c = c
  sections ((now, host, error) ∷ writes) c = remember now host error (sections writes c)

  abbrev IsBounded : DnsCache E → Type 0
  IsBounded c = (pos 0 <ℤ c.capacity) × (pos (length c.data_) ≤ℤ c.capacity)

  evict-IsBounded :
      (now : Time) (c : DnsCache E)
      → IsBounded c
      → let d = evict_if_full_locked now c in
        (pos 0 <ℤ c.capacity) × (pos (length d.data_) <ℤ c.capacity)
  unfolding evict_if_full_locked
  evict-IsBounded now c (roomy, full) =
      elim (Bool-cases (lt_int (pos (length c.data_)) c.capacity)) [
        | inl spare ↦ rw spare (roomy, ground arith)
        | inr shut ↦
            elim (Bool-cases (le_int c.capacity (pos (length (drop_expired now c.data_))))) [
              | inl still ↦ rw (shut, still) (roomy, ground arith)
              | inr kept ↦ rw (shut, kept) (roomy, ground arith)
            ]
      ]

  evict-fields :
      (now : Time) (c : DnsCache E)
      → ((evict_if_full_locked now c).ttl ≡ c.ttl)
        × ((evict_if_full_locked now c).capacity ≡ c.capacity)
  unfolding evict_if_full_locked
  evict-fields now c = elim (Bool-cases (lt_int (pos (length c.data_)) c.capacity)) [
    | inl spare ↦ rw spare (refl, refl)
    | inr shut ↦ rw shut (refl, refl)
  ]

  remember-IsBounded :
      (now : Time) (host : Text) (error : Option E) (c : DnsCache E)
      → IsBounded c
      → IsBounded (remember now host error c)
  unfolding remember
  remember-IsBounded now host error c (roomy, full) =
      let d = evict_if_full_locked now c in
      let (some_room, small) = evict-IsBounded now c (roomy, full) in
      let (_, same) = evict-fields now c in
      rw same (
        some_room,
        omega
            (arith, length-assign host (record { error = error; expires = now +ℤ d.ttl }) d.data_),
      )

  sections-IsBounded :
      (ttl : Duration) (capacity : ℤ) (writes : List (Time × Text × Option E))
      → IsBounded (sections writes (new_dns_cache ttl capacity))
  unfolding sections new_dns_cache
  sections-IsBounded ttl capacity [] = ground arith
  sections-IsBounded ttl capacity ((now, host, error) ∷ writes) =
      remember-IsBounded now host error _ (sections-IsBounded ttl capacity writes)

  sections-fields :
      (ttl : Duration) (capacity : ℤ) (writes : List (Time × Text × Option E))
      → let c = new_dns_cache {E = E} ttl capacity in
        ((sections writes c).ttl ≡ c.ttl) × ((sections writes c).capacity ≡ c.capacity)
  unfolding sections remember
  sections-fields ttl capacity [] = (refl, refl)
  sections-fields ttl capacity ((now, host, error) ∷ writes) =
      let (t, k) = sections-fields ttl capacity writes in
      let (u, l) = evict-fields now (sections writes (new_dns_cache ttl capacity)) in (u ∙ t, l ∙ k)

  sections-capacity :
      (ttl : Duration) (capacity : ℤ) (writes : List (Time × Text × Option E))
      → (sections writes (new_dns_cache ttl capacity)).capacity
        ≡ (if le_int capacity (pos 0) then pos 1024 else capacity)
  unfolding new_dns_cache
  sections-capacity ttl capacity writes = (sections-fields ttl capacity writes).1

  -- The cache never holds more hosts than its capacity, whatever the calls and however they
  -- interleave: NewDNSCache replaces a capacity that is not positive by 1024.
  pub dns_cache_bounded :
      (ttl : Duration) (capacity : ℤ) (writes : List (Time × Text × Option E))
      → let c = sections writes (new_dns_cache ttl capacity) in
        pos (length c.data_) ≤ℤ (if le_int capacity (pos 0) then pos 1024 else capacity)
  dns_cache_bounded ttl capacity writes =
      let (_, full) = sections-IsBounded ttl capacity writes in
      rw (sym (sections-capacity ttl capacity writes)) full

  -- A write of the history that the entry of a host comes from.
  data Wrote (host : Text) (entry : DnsCacheEntry E) (ttl : Duration)
      : List (Time × Text × Option E) → Type 0 where
    latest :
        (now : Time) (writes : List (Time × Text × Option E))
        → entry.expires ≡ now +ℤ ttl
        → Wrote host entry ttl ((now, host, entry.error) ∷ writes)
    earlier :
        (w : Time × Text × Option E) {writes : List (Time × Text × Option E)}
        → Wrote host entry ttl writes
        → Wrote host entry ttl (w ∷ writes)

  AllWrote : List (Time × Text × Option E) → DnsCache E → Type 0
  AllWrote writes c = All (λ p. Wrote p.0 p.1 c.ttl writes) c.data_

  All-earlier :
      (w : Time × Text × Option E) (writes : List (Time × Text × Option E)) (ttl : Duration)
      (t : Table Text (DnsCacheEntry E))
      → All (λ p. Wrote p.0 p.1 ttl writes) t
      → All (λ p. Wrote p.0 p.1 ttl (w ∷ writes)) t
  All-earlier w writes ttl [] h = tt
  All-earlier w writes ttl (p ∷ t) (q, h) = (earlier w q, All-earlier w writes ttl t h)

  All-drop_expired :
      (P : Text × DnsCacheEntry E → Type 0) (now : Time) (t : Table Text (DnsCacheEntry E))
      → All P t
      → All P (drop_expired now t)
  unfolding drop_expired
  All-drop_expired P now [] h = tt
  All-drop_expired P now ((host, entry) ∷ t) (q, h) = elim (Bool-cases (lt_int entry.expires now)) [
    | inl gone ↦ rw gone (All-drop_expired P now t h)
    | inr kept ↦ rw kept (q, All-drop_expired P now t h)
  ]

  All-evict :
      (P : Text × DnsCacheEntry E → Type 0) (now : Time) (c : DnsCache E)
      → All P c.data_
      → All P (evict_if_full_locked now c).data_
  unfolding evict_if_full_locked
  All-evict P now c h = elim (Bool-cases (lt_int (pos (length c.data_)) c.capacity)) [
    | inl spare ↦ rw spare h
    | inr shut ↦ elim (Bool-cases (le_int c.capacity (pos (length (drop_expired now c.data_))))) [
      | inl still ↦ rw (shut, still) tt
      | inr kept ↦ rw (shut, kept) (All-drop_expired P now c.data_ h)
    ]
  ]

  remember-AllWrote :
      (now : Time) (host : Text) (error : Option E) (writes : List (Time × Text × Option E))
      (c : DnsCache E)
      → AllWrote writes c
      → AllWrote ((now, host, error) ∷ writes) (remember now host error c)
  unfolding remember AllWrote
  remember-AllWrote now host error writes c h =
      let d = evict_if_full_locked now c in
      let (same, _) = evict-fields now c in
      All-assign (λ p. Wrote p.0 p.1 d.ttl ((now, host, error) ∷ writes)) host
        (record { error = error; expires = now +ℤ d.ttl }) d.data_ (latest now writes refl)
        (rw same (
          All-earlier (now, host, error) writes c.ttl d.data_
            (All-evict (λ p. Wrote p.0 p.1 c.ttl writes) now c h)))

  sections-AllWrote :
      (ttl : Duration) (capacity : ℤ) (writes : List (Time × Text × Option E))
      → AllWrote writes (sections writes (new_dns_cache ttl capacity))
  unfolding sections AllWrote new_dns_cache
  sections-AllWrote ttl capacity [] = tt
  sections-AllWrote ttl capacity ((now, host, error) ∷ writes) =
      remember-AllWrote now host error writes _ (sections-AllWrote ttl capacity writes)

  write_of :
      (host : Text) (entry : DnsCacheEntry E) (ttl : Duration)
      {writes : List (Time × Text × Option E)}
      → Wrote host entry ttl writes
      → (at : Time) × IsIn (at, host, entry.error) writes × (entry.expires ≡ at +ℤ ttl)
  write_of host entry ttl (latest now writes e) = (now, here writes, e)
  write_of host entry ttl (earlier w wrote) =
      let (at, is_in, e) = write_of host entry ttl wrote in (at, there w is_in, e)

  cached_hit :
      (now : Time) (host : Text) (error : Option E) (c : DnsCache E)
      → cached now host c ≡ some error
      → (entry : DnsCacheEntry E) × (lookup host c.data_ ≡ some entry)
        × (entry.error ≡ error)
        × (now <ℤ entry.expires)
  unfolding cached
  cached_hit now host error c h = elim (Option-cases (lookup host c.data_)) [
    | inl miss ↦ absurd (none_not_some (rw (miss, cached) at h))
    | inr (entry, hit) ↦ elim (Bool-cases (lt_int now entry.expires)) [
      | inl fresh ↦
          (entry, hit, some_inj entry.error error (rw (hit, fresh, cached) at h), ground arith)
      | inr stale ↦ absurd (none_not_some (rw (hit, stale, cached) at h))
    ]
  ]

  sections-ttl :
      (ttl : Duration) (capacity : ℤ) (writes : List (Time × Text × Option E))
      → (sections writes (new_dns_cache ttl capacity)).ttl
        ≡ (if le_int ttl (pos 0) then pos 5000000000 else ttl)
  unfolding new_dns_cache
  sections-ttl ttl capacity writes = (sections-fields ttl capacity writes).0

  -- What the cache answers for a host is the result of a validation of that host which began less
  -- than the time to live ago (5 seconds if NewDNSCache got no positive one), whatever the calls and
  -- however they interleave.
  pub cached_lem :
      (ttl : Duration) (capacity : ℤ) (writes : List (Time × Text × Option E)) (now : Time)
      (host : Text) (error : Option E)
      → cached now host (sections writes (new_dns_cache ttl capacity)) ≡ some error
      → (at : Time) × IsIn (at, host, error) writes
        × (now <ℤ at +ℤ (if le_int ttl (pos 0) then pos 5000000000 else ttl))
  unfolding AllWrote
  cached_lem ttl capacity writes now host error h =
      let c = sections writes (new_dns_cache ttl capacity) in
      let (entry, hit, same, fresh) = cached_hit now host error c h in
      let wrote =
        All-lookup (λ p. Wrote p.0 p.1 c.ttl writes) host entry c.data_
          (sections-AllWrote ttl capacity writes) hit in
      let (at, is_in, e) = write_of host entry c.ttl wrote in
      (at, rw (sym same) is_in, rw (sym (sections-ttl ttl capacity writes), sym e) fresh)
