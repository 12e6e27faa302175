-- ===== src/Store/Memory/Urls.antt =====
-- services/storage.go: MemoryStore's methods on mappings: Set, Get, Delete, Exists, RotateToken,
-- Update and the cleanup pass.
use tiny_url.Prelude.{Text, Option, none, some, Bool, true, false, [], ◌∷◌, is_some, if◌then◌else◌}
use tiny_url.Prelude.{text_eq, ◌≡◌, refl}
use tiny_url.Prelude.Int.{lt_int}
use tiny_url.Prelude.Table.{Table, lookup, assign, remove}
use tiny_url.Models.{Time, UrlMapping}
use tiny_url.Store.{Result, ok, err, not_found, expired, code_conflict, Done, UpdateFields}
use tiny_url.Store.Memory.State.{MemoryStore}

unfoldable pub set : Text → UrlMapping → MemoryStore → Result Done × MemoryStore
set code m s = elim (lookup code s.urls) [
  | some old ↦ (err code_conflict, s)
  | none ↦ (ok tt, record s { urls = assign code m s.urls })
]

-- t.After(deadline), for a deadline that may be nil
abbrev pub is_past : Option Time → Time → Bool
is_past none now = false
is_past (some deadline) now = lt_int deadline now

unfoldable pub get : Time → Text → MemoryStore → Result UrlMapping
get now code s = elim (lookup code s.urls) [
  | none ↦ err not_found
  | some m ↦ if is_past m.expires_at now then err expired else ok m
]

unfoldable pub delete : Text → MemoryStore → Result Done × MemoryStore
delete code s = elim (lookup code s.urls) [
  | none ↦ (err not_found, s)
  | some m ↦ (ok tt, record s { urls = remove code s.urls; events = remove code s.events })
]

unfoldable pub exists : Text → MemoryStore → Bool
exists code s = is_some (lookup code s.urls)

unfoldable pub rotate_token : Text → Text → MemoryStore → Result Done × MemoryStore
rotate_token code new_hash s = elim (lookup code s.urls) [
  | none ↦ (err not_found, s)
  | some m ↦
      (ok tt, record s { urls = assign code (record m { owner_token_hash = new_hash }) s.urls })
]

-- if p != nil { field = *p }
abbrev pub assigned {ℓ} : {A : Type ℓ} → Option A → A → A
assigned none old = old
assigned (some new) old = new

-- The three-way switches of Update: clear, replace or leave alone.
abbrev pub switched {ℓ} : {A B : Type ℓ} → Bool → A → Option B → (B → A) → A → A
switched true cleared p f old = cleared
switched false cleared none f old = old
switched false cleared (some new) f old = f new

-- The assignments of Update to one mapping; `now` is the reading that stamps a preview.
unfoldable pub apply_update : Time → UpdateFields → UrlMapping → UrlMapping
apply_update now f m = record m {
  original_url = assigned f.original_url m.original_url;
  expires_at = switched f.clear_expiration none f.expires_at some m.expires_at;
  tags = assigned f.tags m.tags;
  max_clicks = assigned f.max_clicks m.max_clicks;
  password_hash = switched f.clear_password [] f.password_hash (λ h. h) m.password_hash;
  password_salt =
      switched f.clear_password [] f.password_hash (λ _. f.password_salt) m.password_salt;
  webhook_url = switched f.clear_webhook [] f.webhook_url (λ u. u) m.webhook_url;
  webhook_secret =
      switched f.clear_webhook [] f.webhook_url (λ _. assigned f.webhook_secret m.webhook_secret)
        m.webhook_secret;
  api_key_id = assigned f.api_key_id m.api_key_id;
  preview_title = assigned f.preview_title m.preview_title;
  preview_image = assigned f.preview_image m.preview_image;
  preview_description = assigned f.preview_description m.preview_description;
  preview_fetched_at = if f.set_preview_fetched then some now else m.preview_fetched_at;
  destinations = assigned f.destinations m.destinations;
}

unfoldable pub update : Time → Text → UpdateFields → MemoryStore → Result Done × MemoryStore
update now code f s = elim (lookup code s.urls) [
  | none ↦ (err not_found, s)
  | some m ↦ (ok tt, record s { urls = assign code (apply_update now f m) s.urls })
]

pub update_found :
    (now : Time) (code : Text) (fields : UpdateFields) (m : UrlMapping) (s : MemoryStore)
    → lookup code s.urls ≡ some m
    → update now code fields s
      ≡ (ok tt, record s { urls = assign code (apply_update now fields m) s.urls })
unfolding update
update_found now code fields m s found = rw (found, update) refl

pub update_missing :
    (now : Time) (code : Text) (fields : UpdateFields) (s : MemoryStore)
    → lookup code s.urls ≡ none
    → update now code fields s ≡ (err not_found, s)
unfolding update
update_missing now code fields s gone = rw (gone, update) refl

-- The loop of cleanupExpired over the map of mappings.
unfoldable pub reap : Time → Table Text UrlMapping → Table Text UrlMapping
reap now [] = []
reap now ((code, m) ∷ t) = if is_past m.expires_at now then reap now t else (code, m) ∷ reap now t

-- The event logs of the mappings that go are left in place, as in the source.
unfoldable pub cleanup_expired : Time → MemoryStore → MemoryStore
cleanup_expired now s = record s { urls = reap now s.urls }
