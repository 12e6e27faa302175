-- ===== src/Handlers/Series/Answer.antt =====
-- handlers/series.go: the answer of the handler, over MemoryStore.
use tiny_url.Store.Memory.Listing.{Ordering}
use tiny_url.Prelude.{
  ℕ, ◌*◌, ◌≤◌, Text, ◌≡◌, sym, ap, ◌∙◌, inl, inr, length, text_eq, is_empty, codes, Option-cases,
  if◌then◌else◌,
}
use tiny_url.Prelude.Int.{pos, ◌+ℤ◌, ◌≤ℤ◌, ◌<ℤ◌}
use tiny_url.Prelude.Words.{max_int64}
use tiny_url.Prelude.Table.{lookup}
use tiny_url.Store.Memory.State.{MemoryStore}
use tiny_url.Store.Memory.Clicks.{events_of, or_nil}
use tiny_url.Store.Memory.Series.{clicks_by_bucket}
use tiny_url.Store.Memory.Contract.{memory}
use tiny_url.Handlers.{Clock, Request, Response}
use tiny_url.Handlers.Revoked.{get_found}
use tiny_url.Handlers.Gates.{Gate-cases, simple, answered, admit}
use tiny_url.Handlers.Admitted.{admit-IsKept, admit_passed}
use tiny_url.Handlers.Series.{
  second, range_caps, SeriesResponse, range_of, unix_epoch, series_end, series_handler,
}
use tiny_url.Handlers.Series.Counted.{
  range_caps_lem, range_of_lem, outcome_given, IsSeries, counts-IsSeries, series_end_lem,
}

simple_not_answered : {A : Type 0} {r : Response} {n : ℕ} {a : A} → simple r ≡ answered n a → ⊥
simple_not_answered h = cc

module _ (sha256 : Text → Text) (ordering : Ordering) where
  -- An answered series of a code whose click log is no longer than an int64: its counts are those of
  -- the log's events in the buckets, of the answered width, that end at the answered time. For a
  -- request after 1970, that end is after the request, by at most one bucket.
  pub series_handler-IsSeries :
      (clock : Clock) (r : Request) (bucket range : Text) (s : MemoryStore) (resp : SeriesResponse)
      → (series_handler sha256 (memory ordering) clock r bucket range s).0 ≡ answered 200 resp
      → length (events_of r.code s) ≤ max_int64
      → let b = resp.bucket_secs * second in
        IsSeries (events_of r.code s) b resp.end resp.counts
        × (unix_epoch ≤ℤ clock 2 → (clock 2 <ℤ resp.end) × (resp.end ≤ℤ clock 2 +ℤ pos b))
  unfolding series_handler
  series_handler-IsSeries clock r bucket range s resp k few =
      let after = (admit sha256 (memory ordering) clock r s).1 in
      let name = if is_empty bucket then codes "hour" else bucket in
      elim (Gate-cases (admit sha256 (memory ordering) clock r s).0) [
        | inl (response, shut) ↦ absurd (simple_not_answered (rw (shut, series_handler) at k))
        | inr (m, open_) ↦ elim (Option-cases (lookup name range_caps)) [
          | inl other ↦ absurd (simple_not_answered (rw (open_, other, series_handler) at k))
          | inr (cap, known) ↦ elim (Gate-cases (range_of cap range)) [
            | inl (response, wrong) ↦
                absurd (simple_not_answered (rw (open_, known, wrong, series_handler) at k))
            | inr (count, right) ↦
                let (urls, events, _) = admit-IsKept sha256 ordering clock r s in
                let (_, there, _) = admit_passed sha256 ordering clock r s m open_ in
                let is_cap = range_caps_lem name cap known in
                let (n, at, some_, room) = range_of_lem name cap range count is_cap right in
                let end = series_end cap.bucket (clock 2) in
                let (made, until, secs) =
                  outcome_given r.code name cap end
                    (clicks_by_bucket r.code end (pos cap.bucket) count after) resp
                    (rw (open_, known, right, series_handler) at k) in
                let log : events_of r.code after ≡ events_of r.code s =
                  ap (λ t. or_nil (lookup r.code t)) events in
                let wide : resp.bucket_secs * second ≡ cap.bucket =
                  ap (λ q. q * second) secs ∙ is_cap.1 in
                rw (wide, until)
                  (
                    rw (sym log) (
                        counts-IsSeries r.code end cap.bucket n resp.counts m after
                          (ap (λ t. lookup r.code t) urls ∙ get_found (clock 0) r.code m s there)
                          some_ is_cap.0 room (rw log few) (rw at at made)),
                    λ late. series_end_lem cap.bucket (clock 2) is_cap.0 late,
                  )
          ]
        ]
      ]
