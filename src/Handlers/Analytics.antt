-- ===== src/Handlers/Analytics.antt =====
-- handlers/analytics.go. sort.Slice is a parameter, and the order of a table stands for the order in
-- which Go happens to range over the map of counts. `less_text` is Go's order of strings, by bytes.
pub mod Countries
pub mod Top
use tiny_url.Prelude.{
  ℕ, List, Text, Bool, true, false, Option, none, some, [], ◌∷◌, map, take, length, leb, ltb, ◌==◌,
  not, is_empty, codes, text_eq, if◌then◌else◌,
}
use tiny_url.Prelude.Int.{ℤ, pos, lt_int, same_int}
use tiny_url.Prelude.Words.{add64}
use tiny_url.Prelude.Table.{Table, lookup, assign}
use tiny_url.Models.{UrlMapping, ClickEvent, CountryCount, AnalyticsResponse}
use tiny_url.Store.{Store, ok, err}
use tiny_url.Handlers.{Clock, Request}
use tiny_url.Handlers.Gates.{pass, refuse, Reply, simple, answered, admit}

abbrev pub analytics_top_countries_sample : ℤ
analytics_top_countries_sample = pos 1000

abbrev pub analytics_top_countries_limit : ℕ
analytics_top_countries_limit = 10

unfoldable pub less_text : Text → Text → Bool
less_text [] [] = false
less_text [] (d ∷ t) = true
less_text (c ∷ s) [] = false
less_text (c ∷ s) (d ∷ t) = let later = less_text s t in if c == d then later else ltb c d

-- The order of the answer: the highest count first, then the code
unfoldable pub ranks_before : CountryCount → CountryCount → Bool
unfolding less_text
ranks_before a b =
    if same_int a.count b.count then less_text a.iso b.iso else lt_int b.count a.count

-- counts[iso], which is 0 for a missing key
abbrev pub or_zero : Option ℤ → ℤ
or_zero none = pos 0
or_zero (some n) = n

-- The loop over the events
unfoldable pub count_countries : List ClickEvent → Table Text ℤ → Table Text ℤ
count_countries [] counts = counts
count_countries (ev ∷ events) counts = count_countries events (
    if is_empty ev.country
    then counts
    else assign ev.country (add64 (or_zero (lookup ev.country counts)) (pos 1)) counts)

abbrev pub row : Text × ℤ → CountryCount
row (iso, n) = record { iso = iso; count = n }

module _ (sort_slice : (CountryCount → CountryCount → Bool) → List CountryCount → List CountryCount)
    (S : Store) where
  -- The result is empty for nil.
  unfoldable pub top_countries : Text → S.State → List CountryCount
  top_countries code s = elim (S.recent_clicks code analytics_top_countries_sample s) [
    | err e ↦ []
    | ok [] ↦ []
    | ok (ev ∷ events) ↦
        let counts = count_countries (ev ∷ events) [] in
        let out = sort_slice ranks_before (map row counts) in
        if length counts == 0
        then []
        else if ltb analytics_top_countries_limit (length out)
        then take analytics_top_countries_limit out
        else out
  ]

  unfoldable pub analytics_of : UrlMapping → List CountryCount → AnalyticsResponse
  analytics_of m countries = record {
    short_code = m.id;
    original_url = m.original_url;
    click_count = m.click_count;
    created_at = m.created_at;
    expires_at = m.expires_at;
    last_accessed = m.last_accessed;
    tags = m.tags;
    max_clicks = m.max_clicks;
    has_password = not (is_empty m.password_hash);
    webhook_url = m.webhook_url;
    preview_title = m.preview_title;
    preview_image = m.preview_image;
    preview_description = m.preview_description;
    preview_fetched_at = m.preview_fetched_at;
    destinations = m.destinations;
    top_countries = countries;
  }

  unfoldable pub analytics_handler :
      (Text → Text) → Clock → Request → S.State → Reply AnalyticsResponse × S.State
  unfolding analytics_of
  analytics_handler sha256 clock r s =
      let (gate, after) = admit sha256 S clock r s in
      elim gate [
        | refuse response ↦ (simple response, after)
        | pass m ↦ (answered 200 (analytics_of m (top_countries r.code after)), after)
      ]
