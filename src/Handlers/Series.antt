-- ===== src/Handlers/Series.antt =====
-- handlers/series.go. A `time.Time` is counted from Go's zero time, and time.Now().UnixNano() from 1970,
-- as an int64 that lasts until 2262; Go's division truncates.
pub mod Counted
pub mod Answer
use tiny_url.Prelude.{
  ℕ, suc, ◌+◌, ◌-◌, ◌*◌, ◌/◌, ◌%◌, ◌<◌, ◌≤◌, List, Text, Option, none, some, [], ◌∷◌, ◌≡◌, arith,
  is_empty, same, codes, if◌then◌else◌, text_eq,
}
use tiny_url.Prelude.Int.{
  ℤ, pos, negsuc, pos_part, neg_part, lt_int, le_int, ◌+ℤ◌, ◌-ℤ◌, ◌≤ℤ◌, ◌<ℤ◌, int_laws,
}
use tiny_url.Prelude.Table.{Table, lookup}
use tiny_url.Models.{Time, Duration}
use tiny_url.Store.{Store, Result, ok, err, StoreError, not_found}
use tiny_url.Handlers.{Clock, Request, Response, plain}
use tiny_url.Handlers.Gates.{Gate, pass, refuse, Reply, simple, answered, admit}
use tiny_url.Handlers.Query.{atoi}

-- An entry of rangeCaps, with the bucket's width in nanoseconds
pub record RangeCap : Type 0 where
  pub bucket : ℕ
  pub def_n : ℤ
  pub max_n : ℤ

abbrev pub second : ℕ
second = 1000000000

abbrev pub range_caps : Table Text RangeCap
range_caps =
    (codes "minute", record { bucket = 60 * second; def_n = pos 60; max_n = pos 240 })
    ∷ (codes "hour", record { bucket = 3600 * second; def_n = pos 24; max_n = pos 168 })
    ∷ (codes "day", record { bucket = 86400 * second; def_n = pos 30; max_n = pos 365 })
    ∷ []

pub record SeriesResponse : Type 0 where
  pub short_code : Text
  pub bucket : Text
  pub bucket_secs : ℕ
  pub end : Time
  pub counts : List ℤ

-- The number of buckets: the default, or the query's number, bounded
unfoldable pub range_of : RangeCap → Text → Gate ℤ
range_of cap raw = if is_empty raw then pass cap.def_n else elim (atoi raw) [
  | none ↦ refuse (plain 400 (codes "range must be a positive integer"))
  | some n ↦
      if le_int n (pos 0)
      then refuse (plain 400 (codes "range must be a positive integer"))
      else pass (if lt_int cap.max_n n then cap.max_n else n)
]

-- 1970, in nanoseconds from Go's zero time
abbrev pub unix_epoch : ℤ
unix_epoch = pos (62135596800 * second)

-- (n / w) * w, by Go's division
abbrev pub truncate : ℕ → ℤ → ℤ
truncate w (pos n) = pos (n / w * w)
truncate w (negsuc n) = pos 0 -ℤ pos (suc n / w * w)

-- time.Unix(0, (end.UnixNano()/w_ns)*w_ns).Add(cfg.bucket)
unfoldable pub series_end : ℕ → Time → Time
series_end w now = unix_epoch +ℤ truncate w (now -ℤ unix_epoch) +ℤ pos w

-- SeriesHandler.ServeHTTP from the result of ClicksByBucket on
unfoldable pub series_outcome :
    Text → Text → RangeCap → Time → Result (List ℤ) → Reply SeriesResponse
series_outcome code name cap end (ok counts) = answered 200 (record {
  short_code = code;
  bucket = name;
  bucket_secs = cap.bucket / second;
  end = end;
  counts = counts;
})
series_outcome code name cap end (err not_found) = simple (plain 404 (codes "404 page not found"))
series_outcome code name cap end (err e) = simple (plain 500 (codes "Internal server error"))

module _ (sha256 : Text → Text) (S : Store) where
  unfoldable pub series_handler :
      Clock → Request → Text → Text → S.State → Reply SeriesResponse × S.State
  unfolding series_outcome
  series_handler clock r bucket range s =
      let (gate, after) = admit sha256 S clock r s in
      let name = if is_empty bucket then codes "hour" else bucket in
      elim gate [
        | refuse response ↦ (simple response, after)
        | pass m ↦ elim (lookup name range_caps) [
          | none ↦ (simple (plain 400 (codes "bucket must be one of minute, hour, day")), after)
          | some cap ↦ elim (range_of cap range) [
            | refuse response ↦ (simple response, after)
            | pass count ↦
                let end = series_end cap.bucket (clock 2) in
                let counted = S.clicks_by_bucket r.code end (pos cap.bucket) count after in
                (series_outcome r.code name cap end counted, after)
          ]
        ]
      ]
