-- ===== src/Services/Unfurl.antt =====
-- services/unfurl.go. The HTML tokenizer and the HTTP client are parameters. The reading of a body and
-- that of its tokens cannot fail halfway in another way than by ending early.
pub mod Previews
use tiny_url.Prelude.{
  ℕ, ◌*◌, List, Text, Bool, true, false, Option, none, some, [], ◌∷◌, ◌++◌, ◌&&◌, ◌||◌, not, length,
  ltb, leb, take, same, is_empty, is_some, codes, if◌then◌else◌,
}
use tiny_url.Prelude.Int.{ℤ, pos, pos_part, le_int}
use tiny_url.Prelude.Words.{add64}
use tiny_url.Prelude.Strings.{strip_prefix, trim_space}
use tiny_url.Models.{Time}
use tiny_url.Store.{Store, UpdateFields}
use tiny_url.Services.Validation.{Network, validate_host_at_runtime}

pub record UnfurlJob : Type 0 where
  pub code : Text
  pub url : Text

pub record Unfurler : Type 0 where
  pub queue : List UnfurlJob
  pub queue_size : ℕ
  pub stopped : Bool
  pub fetched : ℤ
  pub failed : ℤ
  pub dropped : ℤ

unfoldable pub new_unfurler : ℤ → Unfurler
new_unfurler queue_size = record {
  queue = [];
  queue_size = if le_int queue_size (pos 0) then 256 else pos_part queue_size;
  stopped = false;
  fetched = pos 0;
  failed = pos 0;
  dropped = pos 0;
}

-- Enqueue, for an unfurler that Close does not close meanwhile
unfoldable pub enqueue : UnfurlJob → Unfurler → Bool × Unfurler
enqueue j u =
    if u.stopped
    then (false, u)
    else if ltb (length u.queue) u.queue_size
    then (true, record u { queue = u.queue ++ j ∷ [] })
    else (false, record u { dropped = add64 u.dropped (pos 1) })

-- A token of the tokenizer, of those before its ErrorToken; `other` is a comment or a doctype.
pub data Token : Type 0 where
  text : Text → Token
  start_tag self_closing_tag : Text → List (Text × Text) → Token
  end_tag : Text → Token
  other : Token

pub record PreviewParsed : Type 0 where
  pub title : Text
  pub image : Text
  pub description : Text

abbrev pub nothing_parsed : PreviewParsed
nothing_parsed = record { title = []; image = []; description = [] }

abbrev pub max_title_len : ℕ
max_title_len = 256

abbrev pub max_desc_len : ℕ
max_desc_len = 512

abbrev pub max_image_len : ℕ
max_image_len = 1024

unfoldable pub truncate_to : Text → ℕ → Text
truncate_to s n = if ltb n (length s) then take n s else s

-- A field keeps its first value that is not empty.
unfoldable pub first_of : Text → Text → ℕ → Text
unfolding truncate_to
first_of old new n = if is_empty old then truncate_to new n else old

-- The loop over the attributes: the key and the content of a <meta>, of which the last one counts
unfoldable pub meta_of : List (Text × Text) → Text → Text → Text × Text
meta_of [] key content = (key, content)
meta_of ((name, val) ∷ attrs) key content =
    if same name (codes "property") || same name (codes "name")
    then meta_of attrs val content
    else meta_of attrs key (if same name (codes "content") then val else content)

-- The cases of the switch on the key of a <meta>
unfoldable pub is_title_key : Text → Bool
is_title_key key = same key (codes "og:title") || same key (codes "twitter:title")

unfoldable pub is_image_key : Text → Bool
is_image_key key = same key (codes "og:image") || same key (codes "twitter:image")

unfoldable pub is_description_key : Text → Bool
is_description_key key =
    same key (codes "og:description")
    || same key (codes "twitter:description")
    || same key (codes "description")

unfoldable pub with_meta : Text → Text → PreviewParsed → PreviewParsed
unfolding first_of
with_meta key content p =
    if is_empty content
    then p
    else if is_title_key key
    then record p { title = first_of p.title content max_title_len }
    else if is_image_key key
    then record p { image = first_of p.image content max_image_len }
    else if is_description_key key
    then record p { description = first_of p.description content max_desc_len }
    else p

unfoldable pub with_attrs : Text → List (Text × Text) → PreviewParsed → PreviewParsed
unfolding meta_of with_meta
with_attrs name attrs p =
    if same name (codes "meta")
    then (let (key, content) = meta_of attrs [] [] in with_meta key (trim_space content) p)
    else p

-- The token behind a <title>, whatever it is, is read with it.
unfoldable pub with_title : Token → PreviewParsed → PreviewParsed
unfolding first_of
with_title (text data_) p = record p { title = first_of p.title (trim_space data_) max_title_len }
with_title (start_tag name attrs) p = p
with_title (self_closing_tag name attrs) p = p
with_title (end_tag name) p = p
with_title other p = p

-- The loop over the tokens. `behind_title` says that the next one is that behind a <title>.
unfoldable pub scan : Bool → List Token → PreviewParsed → PreviewParsed
unfolding with_title with_attrs
scan behind_title [] p = p
scan true (t ∷ tokens) p = scan false tokens (with_title t p)
scan false (text data_ ∷ tokens) p = scan false tokens p
scan false (other ∷ tokens) p = scan false tokens p
scan false (end_tag name ∷ tokens) p =
    let rest = scan false tokens p in if same name (codes "head") then p else rest
scan false (start_tag name attrs ∷ tokens) p =
    scan (same name (codes "title")) tokens (with_attrs name attrs p)
scan false (self_closing_tag name attrs ∷ tokens) p =
    scan (same name (codes "title")) tokens (with_attrs name attrs p)

unfoldable pub parse_preview : List Token → PreviewParsed
unfolding scan
parse_preview tokens = scan false tokens nothing_parsed

-- The preview of a fetch, which is empty after an error
unfoldable pub preview_of : Option PreviewParsed → PreviewParsed
preview_of none = nothing_parsed
preview_of (some p) = p

unfoldable pub count_fetch : Option PreviewParsed → Unfurler → Unfurler
count_fetch none u = record u { failed = add64 u.failed (pos 1) }
count_fetch (some p) u = record u { fetched = add64 u.fetched (pos 1) }

-- What a GET meets: no request can be made of the URL, the client fails, or an answer
pub data Fetched : Type 0 where
  unsendable : Fetched
  unreachable : Fetched
  answer : (status : ℕ) → (content_type body : Text) → Fetched

abbrev pub max_body_bytes : ℕ
max_body_bytes = 16 * 1024

unfoldable pub is_html : Text → Bool
is_html content_type =
    is_some (strip_prefix (codes "text/html") content_type)
    || is_some (strip_prefix (codes "application/xhtml+xml") content_type)

module _ (N : Network) (tokenize : Text → List Token) where
  -- `none` for an error
  unfoldable pub read_answer : Fetched → Option PreviewParsed
  unfolding is_html
  read_answer unsendable = none
  read_answer unreachable = none
  read_answer (answer status content_type body) =
      if ltb status 200 || leb 300 status
      then none
      else if not (is_html content_type)
      then none
      else some (parse_preview (tokenize (take max_body_bytes body)))

  -- The preview, `none` for an error, and whether a request was made
  unfoldable pub do_fetch : (Text → Fetched) → Text → Option PreviewParsed × Bool
  unfolding read_answer
  do_fetch client url = elim (N.parse_url url) [
    | none ↦ (none, false)
    | some parsed ↦ elim (validate_host_at_runtime N parsed.hostname) [
      | some e ↦ (none, false)
      | none ↦ (read_answer (client url), true)
    ]
  ]

  -- What a fetch has the store change
  unfoldable pub preview_fields : PreviewParsed → UpdateFields
  preview_fields p = record {
    original_url = none;
    expires_at = none;
    clear_expiration = false;
    tags = none;
    max_clicks = none;
    password_hash = none;
    password_salt = [];
    clear_password = false;
    webhook_url = none;
    webhook_secret = none;
    clear_webhook = false;
    api_key_id = none;
    preview_title = some p.title;
    preview_image = some p.image;
    preview_description = some p.description;
    set_preview_fetched = true;
    destinations = none;
  }

  module _ (S : Store) where
    -- An error of the store is logged and dropped.
    unfoldable pub fetch :
        Time → (Text → Fetched) → UnfurlJob → Unfurler → S.State → Unfurler × S.State
    unfolding do_fetch preview_fields count_fetch
    fetch now client j u s =
        let got = (do_fetch client j.url).0 in
        (count_fetch got u, (S.update now j.code (preview_fields (preview_of got)) s).1)

    -- One turn of a worker
    unfoldable pub turn : Time → (Text → Fetched) → Unfurler → S.State → Unfurler × S.State
    turn now client u s = elim u.queue [
      | [] ↦ (u, s)
      | j ∷ rest ↦ fetch now client j (record u { queue = rest }) s
    ]
