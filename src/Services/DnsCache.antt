-- ===== src/Services/DnsCache.antt =====
-- services/dnscache.go. A cached validation result is `none` for nil and `some e` for an error e. The
-- result of ValidateHostAtRuntime is a parameter of the model here: it resolves the host, outside
-- the cache's lock, and takes as long as it takes. A nil *DNSCache has no state: it only validates.
pub mod Fresh
use tiny_url.Prelude.{
  ℕ, List, Text, Bool, Option, none, some, [], ◌∷◌, length, ltb, leb, if◌then◌else◌, text_eq,
}
use tiny_url.Prelude.Int.{ℤ, pos, pos_part, lt_int, le_int, ◌+ℤ◌}
use tiny_url.Prelude.Table.{Table, lookup, assign}
use tiny_url.Models.{Time, Duration}

pub record DnsCacheEntry {ℓ} (E : Type ℓ) : Type ℓ where
  pub error : Option E
  pub expires : Time

pub record DnsCache {ℓ} (E : Type ℓ) : Type ℓ where
  pub ttl : Duration
  pub capacity : ℤ
  pub data_ : Table Text (DnsCacheEntry E)

module _ {ℓ} {E : Type ℓ} where
  unfoldable pub new_dns_cache : Duration → ℤ → DnsCache E
  new_dns_cache ttl capacity = record {
    ttl = if le_int ttl (pos 0) then pos 5000000000 else ttl;
    capacity = if le_int capacity (pos 0) then pos 1024 else capacity;
    data_ = [];
  }

  -- The loop of evictIfFullLocked.
  unfoldable pub drop_expired : Time → Table Text (DnsCacheEntry E) → Table Text (DnsCacheEntry E)
  drop_expired now [] = []
  drop_expired now ((host, entry) ∷ t) =
      if lt_int entry.expires now then drop_expired now t else (host, entry) ∷ drop_expired now t

  unfoldable pub evict_if_full_locked : Time → DnsCache E → DnsCache E
  evict_if_full_locked now c =
      if lt_int (pos (length c.data_)) c.capacity
      then c
      else let kept = drop_expired now c.data_ in
        record c { data_ = if le_int c.capacity (pos (length kept)) then [] else kept }

  -- The first locked section of ValidateHost: the answer of the cache, if it has a fresh one.
  unfoldable pub cached : Time → Text → DnsCache E → Option (Option E)
  cached now host c = elim (lookup host c.data_) [
    | none ↦ none
    | some entry ↦ if lt_int now entry.expires then some entry.error else none
  ]

  -- The second one: `now` is the reading from before the resolution.
  unfoldable pub remember : Time → Text → Option E → DnsCache E → DnsCache E
  remember now host error c =
      let d = evict_if_full_locked now c in
      record d { data_ = assign host (record { error = error; expires = now +ℤ d.ttl }) d.data_ }

  -- A call that no other call interleaves with.
  unfoldable pub validate_host :
      (Time → Text → Option E) → Time → Text → DnsCache E → Option E × DnsCache E
  validate_host validate now host c = elim (cached now host c) [
    | some error ↦ (error, c)
    | none ↦ let error = validate now host in (error, remember now host error c)
  ]
