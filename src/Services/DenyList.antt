-- ===== src/Services/DenyList.antt =====
-- services/denylist.go. The host set is a map to the empty struct, and a nil *DenyList is `none`.
-- The lines of a file are a parameter, `none` if it cannot be opened or read.
pub mod Parents
use tiny_url.Prelude.{
  ℕ, List, Text, Bool, true, false, Option, none, some, [], ◌∷◌, ◌==◌, ◌||◌, ◌&&◌, not, is_some,
  is_empty, length, codes, if◌then◌else◌, text_eq,
}
use tiny_url.Prelude.Strings.{strip_prefix, trim_prefix, trim_space, to_lower}
use tiny_url.Prelude.Table.{Table, lookup, assign}

abbrev pub Hosts : Type 0
Hosts = Table Text (Unit {0})

abbrev pub DenyList : Type 0
DenyList = Option Hosts

-- if len(dl.set) == 0 { return nil }
abbrev pub or_nil : Hosts → DenyList
or_nil [] = none
or_nil (h ∷ set) = some (h ∷ set)

abbrev pub listed : Text → Hosts → Bool
listed host set = is_some (lookup host set)

-- The loop of Contains, as one scan: behind each dot, the rest of the host is looked up.
unfoldable pub climb : Hosts → Text → Bool
climb set [] = false
climb set (c ∷ host) = if c == 46 then listed host set || climb set host else climb set host

module _ (unicode_lower : Text → Text) where
  unfoldable pub normalize_host : Text → Text
  normalize_host raw =
      let h = trim_space raw in
      if is_empty h || is_some (strip_prefix (codes "#") h)
      then []
      else trim_prefix (codes ".") (trim_prefix (codes "*.") (to_lower unicode_lower h))

  -- The loop of NewDenyList.
  unfoldable pub add_entries : List Text → Hosts → Hosts
  add_entries [] set = set
  add_entries (raw ∷ entries) set =
      let h = normalize_host raw in
      add_entries entries (if is_empty h then set else assign h tt set)

  unfoldable pub new_deny_list : List Text → DenyList
  new_deny_list entries = or_nil (add_entries entries [])

  unfoldable pub contains : DenyList → Text → Bool
  contains none host = false
  contains (some set) host =
      let h = to_lower unicode_lower (trim_space host) in
      if is_empty h then false else listed h set || climb set h

  -- `none` for an error
  unfoldable pub load_deny_list_file : (Text → Option (List Text)) → Text → Option DenyList
  load_deny_list_file lines path =
      if is_empty path
      then some none
      else (elim (lines path) [ none ↦ none | some entries ↦ some (new_deny_list entries) ])

-- The inner loop of MergeDenyLists.
unfoldable pub add_hosts : Hosts → Hosts → Hosts
add_hosts [] merged = merged
add_hosts ((h, u) ∷ set) merged = add_hosts set (assign h tt merged)

unfoldable pub add_lists : List DenyList → Hosts → Hosts
add_lists [] merged = merged
add_lists (none ∷ lists) merged = add_lists lists merged
add_lists (some set ∷ lists) merged = add_lists lists (add_hosts set merged)

unfoldable pub merge_deny_lists : List DenyList → DenyList
merge_deny_lists lists = or_nil (add_lists lists [])

abbrev pub size : DenyList → ℕ
size none = 0
size (some set) = length set

-- loadDenyList of main.go
module _ (unicode_lower : Text → Text) where
  unfoldable pub load_deny_list : (Text → Option (List Text)) → List Text → Text → Option DenyList
  load_deny_list lines deny_hosts deny_hosts_file =
      elim (load_deny_list_file unicode_lower lines deny_hosts_file) [
        | none ↦ none
        | some file_list ↦
            some (merge_deny_lists (new_deny_list unicode_lower deny_hosts ∷ file_list ∷ []))
      ]
