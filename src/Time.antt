-- ===== src/Time.antt =====
-- The part of Go's package `time` that tyk-pump uses. A time is its civil parts in a location; a
-- location has one offset for good, so the changes of daylight saving within a location are left out.
use tyk_pump.Base.{
  ℕ, ◌+◌, ◌-◌, ◌*◌, ◌/◌, ◌%◌, Bool, ◌&&◌, ltb, ◌==◌, if◌then◌else◌, Text, is_empty, [], ◌∷◌,
}

-- `time.Location`: its name, and 86400 more than the seconds by which it is behind UTC.
pub record Location : Type 0 where
  pub name : Text
  pub behind : ℕ

abbrev pub utc : Location
utc = record { name = []; behind = 86400 }

-- `time.Time`
pub record Time : Type 0 where
  pub year : ℕ
  pub month : ℕ
  pub day : ℕ
  pub hour : ℕ
  pub minute : ℕ
  pub second : ℕ
  pub nanosecond : ℕ
  pub location : Location

-- The zero value, January 1 of the year 1 in UTC.
abbrev pub zero_time : Time
zero_time = record {
  year = 1;
  month = 1;
  day = 1;
  hour = 0;
  minute = 0;
  second = 0;
  nanosecond = 0;
  location = utc;
}

-- `t == time.Time{}`
unfoldable pub is_zero : Time → Bool
is_zero t =
    t.year == 1
    && t.month == 1
    && t.day == 1
    && t.hour == 0
    && t.minute == 0
    && t.second == 0
    && t.nanosecond == 0
    && is_empty t.location.name
    && t.location.behind == 86400

-- `time.Date` of parts that are in range.
abbrev pub date : ℕ → ℕ → ℕ → ℕ → ℕ → ℕ → ℕ → Location → Time
date y mo d h mi s ns loc = record {
  year = y;
  month = mo;
  day = d;
  hour = h;
  minute = mi;
  second = s;
  nanosecond = ns;
  location = loc;
}

-- The days from March 1 of the year 0 up to a date: years are counted from March.
days : ℕ → ℕ → ℕ → ℕ
days y m d =
    let y' = if ltb m 3 then y - 1 else y in
    let m' = if ltb m 3 then m + 9 else m - 3 in
    365 * y' + y' / 4 - y' / 100 + y' / 400 + (153 * m' + 2) / 5 + d - 1

-- The seconds since then in UTC, a day later.
seconds : Time → ℕ
unfolding days
seconds t =
    ((days t.year t.month t.day * 24 + t.hour) * 60 + t.minute) * 60 + t.second + t.location.behind

unfoldable pub instant : Time → ℕ
unfolding seconds
instant t = seconds t * 1000000000 + t.nanosecond

-- `t.Add(time.Minute * n).After(u)`
unfoldable pub add_minutes_after : Time → ℕ → Time → Bool
unfolding instant
add_minutes_after t n u = ltb (instant u) (instant t + n * 60000000000)

-- The last digits of a number in decimal.
abbrev digit : ℕ → ℕ
digit n = b'0' + n % 10

-- `t.Format("20060102")`, of a year with four digits.
unfoldable pub format_day : Time → Text
format_day t =
    digit (t.year / 1000)
    ∷ digit (t.year / 100)
    ∷ digit (t.year / 10)
    ∷ digit t.year
    ∷ digit (t.month / 10)
    ∷ digit t.month
    ∷ digit (t.day / 10)
    ∷ digit t.day
    ∷ []
