-- ===== src/Store/Memory/History/Refinement.antt =====
-- The life of a MemoryStore against an abstract one: a function from codes to mappings, the numbers of
-- the API keys, and the number of the last key.
use tiny_url.Prelude.{
  List, Text, Bool, true, false, Option, none, some, [], ◌∷◌, ◌≡◌, refl, sym, ap, ◌∙◌, inl, inr,
  is_some, same, same_iff, text_eq, Bool-cases, if◌then◌else◌,
}
use tiny_url.Prelude.Int.{ℤ, pos, same_int, int_eq}
use tiny_url.Prelude.Words.{add64}
use tiny_url.Prelude.Table.{lookup, assign, lookup-assign, Once}
use tiny_url.Models.{UrlMapping}
use tiny_url.Store.Memory.State.{MemoryStore}
use tiny_url.Store.Memory.Urls.{apply_update}
use tiny_url.Store.Memory.Clicks.{counted}
use tiny_url.Store.Memory.Keys.{disowned}
use tiny_url.Store.Memory.Ownership.{AreFiled}
use tiny_url.Store.Memory.Maps.{unexpired}
use tiny_url.Store.Memory.History.{
  Call, setting, deleting, rotating, updating, clicking, creating_key, looking_up_key, deleting_key,
  labelling_key, auditing, cleaning,
}

pub record Shelf : Type 0 where
  pub at : Text → Option UrlMapping
  pub known : ℤ → Bool
  pub last_key : ℤ

abbrev pub empty_shelf : Shelf
empty_shelf = record { at = λ code. none; known = λ id. false; last_key = pos 0 }

abbrev pub amended : (UrlMapping → UrlMapping) → Option UrlMapping → Option UrlMapping
amended f none = none
amended f (some m) = some (f m)

-- A function, changed at one code
abbrev pub at_code : Text → (Option UrlMapping → Option UrlMapping) → Shelf → Shelf
at_code code f a = record a { at = λ j. if same code j then f (a.at j) else a.at j }

-- The first mapping that is set stays.
abbrev pub first_set : UrlMapping → Option UrlMapping → Option UrlMapping
first_set m none = some m
first_set m (some old) = some old

abbrev pub on_key : ℤ → Bool → Shelf → Shelf
on_key id b a = record a { known = λ j. if same_int id j then b else a.known j }

-- What each method does to the shelf
unfoldable pub shelf_step : Call → Shelf → Shelf
shelf_step (setting code m) a = at_code code (first_set m) a
shelf_step (deleting code) a = at_code code (λ o. none) a
shelf_step (rotating code hash) a =
    at_code code (amended (λ m. record m { owner_token_hash = hash })) a
shelf_step (updating now code f) a = at_code code (amended (apply_update now f)) a
shelf_step (clicking code ev) a = at_code code (amended (counted ev)) a
shelf_step (creating_key now label hash) a =
    let id = add64 a.last_key (pos 1) in record (on_key id true a) { last_key = id }
shelf_step (looking_up_key now hash) a = a
shelf_step (deleting_key id) a =
    if a.known id
    then record (on_key id false a) { at = λ code. amended (disowned id) (a.at code) }
    else a
shelf_step (labelling_key id label) a = a
shelf_step (auditing now ev) a = a
shelf_step (cleaning now) a = record a { at = λ code. unexpired now (a.at code) }

unfoldable pub replay : List Call → Shelf → Shelf
replay [] a = a
replay (c ∷ cs) a = replay cs (shelf_step c a)

-- The map of mappings has one entry for each code, and each key stands under its own id.
pub record IsValid (s : MemoryStore) : Type 0 where
  pub once : Once s.urls
  pub filed : AreFiled s.api_keys

pub record Refines (s : MemoryStore) (a : Shelf) : Type 0 where
  pub mappings : (code : Text) → lookup code s.urls ≡ a.at code
  pub keys : (id : ℤ) → is_some (lookup id s.api_keys) ≡ a.known id
  pub last : s.next_key_id ≡ a.last_key

-- A method on one stored mapping
pub amending :
    (f : UrlMapping → UrlMapping) (code : Text) (s : MemoryStore) (a : Shelf) (m : UrlMapping)
    → lookup code s.urls ≡ some m
    → Refines s a
    → Refines (record s { urls = assign code (f m) s.urls }) (at_code code (amended f) a)
amending f code s a m there r = record {
  mappings = λ j. lookup-assign code j (f m) s.urls ∙ elim (Bool-cases (same code j)) [
    | inl hit ↦
        let e = sym (ap (λ k. lookup k s.urls) ((same_iff code j).0 hit)) ∙ there in
        rw (hit, sym (r.mappings j) ∙ e) refl
    | inr miss ↦ rw miss (r.mappings j)
  ];
  keys = r.keys;
  last = r.last;
}

-- and on a code that has none
pub missing_amended :
    (f : Option UrlMapping → Option UrlMapping) (code : Text) (s : MemoryStore) (a : Shelf)
    → lookup code s.urls ≡ none
    → f none ≡ none
    → Refines s a
    → Refines s (at_code code f a)
missing_amended f code s a none_ fixed r = record {
  mappings = λ j. elim (Bool-cases (same code j)) [
    | inl hit ↦
        let e = sym (ap (λ k. lookup k s.urls) ((same_iff code j).0 hit)) ∙ none_ in
        rw (hit, sym (r.mappings j) ∙ e) (e ∙ sym fixed)
    | inr miss ↦ rw miss (r.mappings j)
  ];
  keys = r.keys;
  last = r.last;
}
