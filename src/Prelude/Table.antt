-- ===== src/Prelude/Table.antt =====
-- Go's maps: association lists with one entry for each key. Only the order of a `range` loop can
-- show the order of the entries.
use tiny_url.Prelude.Tests.{if◌then◌else◌, Eq, Bool-cases, some_inj}
use mathlib.Core.Logic.{inl, inr}
use tiny_url.Prelude.Lists.{length, All}
use Prim.Native.Nat.{◌+◌, ◌≤◌}
use mathlib.Core.Path.{◌≡◌, refl, sym}
use mathlib.Core.Option.{Option, none, some}
use mathlib.Core.List.{List, [], ◌∷◌}
use native.Mathlib.Omega.{arith}

abbrev pub Table {ℓ κ} : Type ℓ → Type κ → Type (ℓ ⊔ κ)
Table K V = List (K × V)

module _ {ℓ κ} {K : Type ℓ} {V : Type κ} ⦃e : Eq K⦄ where
  -- v, ok := m[k]
  unfoldable pub lookup : K → Table K V → Option V
  lookup k [] = none
  lookup k ((j, v) ∷ t) = if e.beq j k then some v else lookup k t

  -- m[k] = v
  unfoldable pub assign : K → V → Table K V → Table K V
  assign k v [] = (k, v) ∷ []
  assign k v ((j, w) ∷ t) = if e.beq j k then (j, v) ∷ t else (j, w) ∷ assign k v t

  -- delete(m, k)
  unfoldable pub remove : K → Table K V → Table K V
  remove k [] = []
  remove k ((j, w) ∷ t) = if e.beq j k then remove k t else (j, w) ∷ remove k t

  pub lookup-assign :
      (k j : K) (v : V) (t : Table K V)
      → lookup j (assign k v t) ≡ (if e.beq k j then some v else lookup j t)
  unfolding lookup assign
  lookup-assign k j v [] = refl
  lookup-assign k j v ((i, w) ∷ t) =
      ground (arith, e.beq_iff k j, e.beq_iff i k, e.beq_iff i j, lookup-assign k j v t)

  pub lookup-remove :
      (k j : K) (t : Table K V) → lookup j (remove k t) ≡ (if e.beq k j then none else lookup j t)
  unfolding lookup remove
  lookup-remove k j [] = ground arith
  lookup-remove k j ((i, w) ∷ t) =
      ground (arith, e.beq_iff k j, e.beq_iff i k, e.beq_iff i j, lookup-remove k j t)

  pub length-assign : (k : K) (v : V) (t : Table K V) → length (assign k v t) ≤ length t + 1
  unfolding assign
  length-assign k v [] = omega arith
  length-assign k v ((j, w) ∷ t) = ground (arith, length-assign k v t)

  pub length-assign_new :
      (k : K) (v : V) (t : Table K V) → lookup k t ≡ none → length (assign k v t) ≡ length t + 1
  unfolding assign lookup
  length-assign_new k v [] h = omega arith
  length-assign_new k v ((j, w) ∷ t) h = ground (arith, length-assign_new k v t)

  -- A map has one entry for each key.
  abbrev pub Once : Table K V → Type κ
  Once [] = Unit
  Once ((k, v) ∷ t) = (lookup k t ≡ none) × Once t

  pub Once-assign : (k : K) (v : V) (t : Table K V) → Once t → Once (assign k v t)
  unfolding assign lookup
  Once-assign k v [] h = (refl, tt)
  Once-assign k v ((j, w) ∷ t) (fresh, h) = elim (Bool-cases (e.beq j k)) [
    | inl at ↦ rw at (fresh, h)
    | inr off ↦
        rw off
          (ground (arith, lookup-assign k j v t, e.beq_iff k j, e.beq_iff j k), Once-assign k v t h)
  ]

  pub Once-remove : (k : K) (t : Table K V) → Once t → Once (remove k t)
  unfolding remove lookup
  Once-remove k [] h = tt
  Once-remove k ((j, w) ∷ t) (fresh, h) = elim (Bool-cases (e.beq j k)) [
    | inl at ↦ rw at (Once-remove k t h)
    | inr off ↦ rw off (ground (arith, lookup-remove k j t), Once-remove k t h)
  ]

  -- A property of every entry.
  pub All-assign {μ} :
      (P : K × V → Type μ) (k : K) (v : V) (t : Table K V)
      → P (k, v)
      → All P t
      → All P (assign k v t)
  unfolding assign
  All-assign P k v [] p h = (p, tt)
  All-assign P k v ((j, w) ∷ t) p (q, h) = elim (Bool-cases (e.beq j k)) [
    | inl at ↦ rw at (rw ((e.beq_iff j k).0 at) p, h)
    | inr off ↦ rw off (q, All-assign P k v t p h)
  ]

  pub All-remove {μ} : (P : K × V → Type μ) (k : K) (t : Table K V) → All P t → All P (remove k t)
  unfolding remove
  All-remove P k [] h = tt
  All-remove P k ((j, v) ∷ t) (p, h) = elim (Bool-cases (e.beq j k)) [
    | inl hit ↦ rw hit (All-remove P k t h)
    | inr miss ↦ rw miss (p, All-remove P k t h)
  ]

  pub All-lookup {μ} :
      (P : K × V → Type μ) (k : K) (v : V) (t : Table K V)
      → All P t
      → lookup k t ≡ some v
      → P (k, v)
  unfolding lookup
  All-lookup P k v [] h found = cc
  All-lookup P k v ((j, w) ∷ t) (q, h) found = elim (Bool-cases (e.beq j k)) [
    | inl at ↦ rw (sym ((e.beq_iff j k).0 at), sym (some_inj w v (rw at at found))) q
    | inr off ↦ All-lookup P k v t h (rw off at found)
  ]
