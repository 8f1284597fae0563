-- ===== src/Analytics/Trim.antt =====
-- analytics/analytics.go: cutting the raw request and response to a size.
use tyk_pump.Base.{
  ◌<◌, ◌≡◌, Text, Int64, lt64, length, take, take_all, Option, none, some, ◌>>=◌, if◌then◌else◌,
  arith, lt64-nonneg,
}
use tyk_pump.Analytics.Record.{AnalyticsRecord}

-- `trimString`. `bytes.Buffer.Truncate` panics on a negative size.
unfoldable pub trim_string : Int64 → Text → Option Text
trim_string size value =
    let size' = if lt64 (length value) size then length value else size in
    if lt64 size' 0 then none else some (take size' value)

-- `AnalyticsRecord.TrimRawData`
unfoldable pub trim_raw_data : Int64 → AnalyticsRecord → Option AnalyticsRecord
unfolding trim_string
trim_raw_data size a = do
  response ← trim_string size a.raw_response
  request ← trim_string size a.raw_request
  some (record a { raw_response = response; raw_request = request })

-- What a Go string can be: its length is an `int`.
abbrev pub IsShort : Text → Type 0
IsShort s = length s < 9223372036854775808

-- A size of zero or more keeps the longest prefix that is no longer than the size.
pub trim_string-take :
    (size : Int64) (value : Text)
    → size < 9223372036854775808
    → IsShort value
    → trim_string size value ≡ some (take size value)
unfolding trim_string
trim_string-take size value h k = rw (lt64-nonneg (length value) size k h) (
    ground (
      arith,
      lt64-nonneg size 0 h,
      lt64-nonneg (length value) 0 k,
      take_all size value,
      take_all (length value) value,
    ))

-- With a size of zero or more, trimming a record keeps the longest prefixes of its raw request and
-- response that are no longer than the size, and changes nothing else.
pub trim_raw_data-take :
    (size : Int64) (a : AnalyticsRecord)
    → size < 9223372036854775808
    → IsShort a.raw_request
    → IsShort a.raw_response
    → trim_raw_data size a
      ≡ some (record a {
        raw_response = take size a.raw_response;
        raw_request = take size a.raw_request;
      })
unfolding trim_raw_data
trim_raw_data-take size a h k l =
    rw (trim_string-take size a.raw_response h l, trim_string-take size a.raw_request h k)
