-- ===== src/Services/DenyList/Parents.antt =====
-- What DenyList.Contains decides, and what merging lists keeps.
use tiny_url.Prelude.{
  List, Text, Bool, true, false, none, some, [], ◌∷◌, ◌++◌, ◌==◌, ◌||◌, is_empty, text_eq, ◌≡◌,
  refl, sym, ap, ◌∙◌, ◌↔◌, ◌⊎◌, inl, inr, arith, Bool-cases, same,
}
use tiny_url.Prelude.Strings.{trim_space, to_lower}
use tiny_url.Prelude.Table.{lookup, assign, lookup-assign}
use tiny_url.Services.DenyList.{
  Hosts, DenyList, or_nil, listed, climb, contains, add_hosts, add_lists, merge_deny_lists,
}

-- The list has the host itself, or what stands behind one of its dots.
pub data IsParent : Text → Text → Type 0 where
  itself : {h : Text} → IsParent h h
  behind : (p : Text) {h e : Text} → h ≡ p ++ 46 ∷ e → IsParent e h

or_split : (a b : Bool) → (a || b) ≡ true → (a ≡ true) ⊎ (b ≡ true)
or_split true b h = inl refl
or_split false b h = inr h

climb_sound :
    (set : Hosts) (h : Text)
    → climb set h ≡ true
    → (p e : Text) × (h ≡ p ++ 46 ∷ e) × (listed e set ≡ true)
unfolding climb
climb_sound set [] k = cc
climb_sound set (c ∷ h) k = elim (Bool-cases (c == 46)) [
  | inl dot ↦ elim (or_split (listed h set) (climb set h) (rw dot at k)) [
    | inl here ↦ ([], h, ap (λ d. d ∷ h) (let e : c ≡ 46 = ground arith in e), here)
    | inr later ↦
        let (p, e, split, found) = climb_sound set h later in
        (c ∷ p, e, ap (λ t. c ∷ t) split, found)
  ]
  | inr other ↦
      let (p, e, split, found) = climb_sound set h (rw other at k) in
      (c ∷ p, e, ap (λ t. c ∷ t) split, found)
]

climb_complete : (set : Hosts) (p e : Text) → listed e set ≡ true → climb set (p ++ 46 ∷ e) ≡ true
unfolding climb
climb_complete set [] e k = ground (arith, k)
climb_complete set (c ∷ p) e k = ground (arith, climb_complete set p e k)

found_parent :
    (set : Hosts) (h e : Text)
    → IsParent e h
    → listed e set ≡ true
    → (listed h set || climb set h) ≡ true
found_parent set h e itself k = rw k refl
found_parent set h e (behind p split) k =
    let up : climb set h ≡ true = rw split (climb_complete set p e k) in ground (arith, up)

-- Contains, for a list that is not nil and a host that is not blank: it answers true exactly if the
-- list has an entry that is the host, trimmed and in lower case, or what stands behind one of its
-- dots.
pub contains_iff :
    (unicode_lower : Text → Text) (set : Hosts) (host : Text)
    → let h = to_lower unicode_lower (trim_space host) in
      is_empty h ≡ false
      → (contains unicode_lower (some set) host ≡ true)
        ↔ ((e : Text) × IsParent e h × (listed e set ≡ true))
unfolding contains
contains_iff unicode_lower set host nonempty =
    let h = to_lower unicode_lower (trim_space host) in
    (
      (λ k. elim (or_split (listed h set) (climb set h) (rw nonempty at k)) [
        | inl here ↦ (h, itself, here)
        | inr up ↦ let (p, e, split, found) = climb_sound set h up in (e, behind p split, found)
      ]),
      (λ (e, parent, found). rw nonempty (found_parent set h e parent found)),
    )

-- What a list on which the entries of two others meet decides.
IsUnion : Hosts → Hosts → Hosts → Type 0
IsUnion a b c = (h : Text) → listed h c ≡ (listed h a || listed h b)

climb-IsUnion : (a b c : Hosts) → IsUnion a b c → (h : Text) → climb c h ≡ (climb a h || climb b h)
unfolding climb IsUnion
climb-IsUnion a b c u [] = refl
climb-IsUnion a b c u (d ∷ h) = ground (arith, climb-IsUnion a b c u h, u h)

contains-IsUnion :
    (unicode_lower : Text → Text) (a b c : Hosts)
    → IsUnion a b c
    → (host : Text)
    → contains unicode_lower (some c) host
      ≡ (contains unicode_lower (some a) host || contains unicode_lower (some b) host)
unfolding contains IsUnion
contains-IsUnion unicode_lower a b c u host =
    let h = to_lower unicode_lower (trim_space host) in ground (arith, climb-IsUnion a b c u h, u h)

listed-assign : (j h : Text) (set : Hosts) → listed h (assign j tt set) ≡ (same j h || listed h set)
listed-assign j h set = ground (arith, lookup-assign j h tt set)

add_hosts-IsUnion : (set merged : Hosts) → IsUnion set merged (add_hosts set merged)
unfolding add_hosts IsUnion lookup
add_hosts-IsUnion [] merged h = refl
add_hosts-IsUnion ((j, u) ∷ set) merged h =
    add_hosts-IsUnion set (assign j tt merged) h ∙ ground (arith, listed-assign j h merged)

abbrev pub any_contains : (Text → Text) → List DenyList → Text → Bool
any_contains unicode_lower [] host = false
any_contains unicode_lower (d ∷ lists) host =
    contains unicode_lower d host || any_contains unicode_lower lists host

climb-nil : (h : Text) → climb [] h ≡ false
unfolding climb lookup
climb-nil [] = refl
climb-nil (c ∷ h) = ground (arith, climb-nil h)

contains-nil :
    (unicode_lower : Text → Text) (host : Text) → contains unicode_lower (some []) host ≡ false
unfolding contains lookup
contains-nil unicode_lower host =
    ground (arith, climb-nil (to_lower unicode_lower (trim_space host)))

contains-none :
    (unicode_lower : Text → Text) (host : Text) → contains unicode_lower none host ≡ false
unfolding contains
contains-none unicode_lower host = refl

or_nil_lem :
    (unicode_lower : Text → Text) (set : Hosts) (host : Text)
    → contains unicode_lower (or_nil set) host ≡ contains unicode_lower (some set) host
or_nil_lem unicode_lower [] host =
    contains-none unicode_lower host ∙ sym (contains-nil unicode_lower host)
or_nil_lem unicode_lower (h ∷ set) host = refl

add_lists_lem :
    (unicode_lower : Text → Text) (lists : List DenyList) (merged : Hosts) (host : Text)
    → contains unicode_lower (some (add_lists lists merged)) host
      ≡ (any_contains unicode_lower lists host || contains unicode_lower (some merged) host)
unfolding add_lists
add_lists_lem unicode_lower [] merged host = refl
add_lists_lem unicode_lower (none ∷ lists) merged host =
    ground (arith, contains-none unicode_lower host, add_lists_lem unicode_lower lists merged host)
add_lists_lem unicode_lower (some set ∷ lists) merged host = ground (
  arith,
  add_lists_lem unicode_lower lists (add_hosts set merged) host,
  contains-IsUnion unicode_lower set merged (add_hosts set merged) (add_hosts-IsUnion set merged)
      host,
)

-- The list that MergeDenyLists makes blocks a host exactly if one of the merged lists blocks it.
pub contains-merge_deny_lists :
    (unicode_lower : Text → Text) (lists : List DenyList) (host : Text)
    → contains unicode_lower (merge_deny_lists lists) host ≡ any_contains unicode_lower lists host
unfolding merge_deny_lists
contains-merge_deny_lists unicode_lower lists host =
    or_nil_lem unicode_lower (add_lists lists []) host
    ∙ ground (arith, add_lists_lem unicode_lower lists [] host, contains-nil unicode_lower host)
