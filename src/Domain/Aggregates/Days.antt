-- ===== src/Domain/Aggregates/Days.antt =====
-- `utcDayNumber` of packages/domain/src/aggregates.ts: a date as a count of days since 1970.
pub mod Succession
use mathlib.Core.Path.{subst}
use loremaster.Prelude.{
  ℕ, zero, suc, ◌+◌, ◌-◌, ◌*◌, ◌/◌, ◌%◌, ◌≤◌, ◌<◌, ◌≡◌, refl, sym, ap, ◌∙◌, Bool, true, false, ◌&&◌,
  ◌||◌, not, Option, none, some, List, [], ◌∷◌, Result, ok, err, ◌>>=◌, ◌>>◌, throw_if, leb, ◌==◌,
  if◌then◌else◌, arith, Bool-cases, inl, inr,
}
use loremaster.Prelude.Int.{ℤ, sub_ℕ, suc_ℤ}
use loremaster.Prelude.Js.{Text}
use loremaster.Domain.Aggregates.{
  AggregateError, day_must_use_iso_format, day_must_be_a_calendar_day,
}

-- A date of the Gregorian calendar that JavaScript uses.
pub record CalendarDay : Type 0 where
  pub year : ℕ
  pub month : ℕ
  pub day : ℕ

is_digit : ℕ → Bool
is_digit c = leb b'0' c && leb c b'9'

digit : ℕ → ℕ
digit c = c - b'0'

-- `/^\d{4}-\d{2}-\d{2}$/`, with the three numbers that it shows
unfoldable pub iso_day : Text → Option CalendarDay
unfolding is_digit digit
iso_day (y1 ∷ y2 ∷ y3 ∷ y4 ∷ s ∷ m1 ∷ m2 ∷ t ∷ d1 ∷ d2 ∷ []) =
    if is_digit y1
      && is_digit y2
      && is_digit y3
      && is_digit y4
      && s == b'-'
      && is_digit m1
      && is_digit m2
      && t == b'-'
      && is_digit d1
      && is_digit d2
    then some (record {
      year = digit y1 * 1000 + digit y2 * 100 + digit y3 * 10 + digit y4;
      month = digit m1 * 10 + digit m2;
      day = digit d1 * 10 + digit d2;
    })
    else none
iso_day _ = none

abbrev pub is_leap : ℕ → Bool
is_leap y = y % 4 == 0 && (not (y % 100 == 0) || y % 400 == 0)

abbrev pub days_in_month : ℕ → ℕ → ℕ
days_in_month y m =
    if m == 4 || m == 6 || m == 9 || m == 11
    then 30
    else if not (m == 2)
    then 31
    else if is_leap y
    then 29
    else 28

-- `Date.parse` and the round trip through `toISOString` accept the days that the calendar has.
abbrev pub is_calendar_day : CalendarDay → Bool
is_calendar_day c =
    leb 1 c.month && leb c.month 12 && leb 1 c.day && leb c.day (days_in_month c.year c.month)

-- The days of a common year before each month.
abbrev pub before_month : ℕ → ℕ
before_month m =
    if m == 1
    then 0
    else if m == 2
    then 31
    else if m == 3
    then 59
    else if m == 4
    then 90
    else if m == 5
    then 120
    else if m == 6
    then 151
    else if m == 7
    then 181
    else if m == 8
    then 212
    else if m == 9
    then 243
    else if m == 10
    then 273
    else if m == 11
    then 304
    else 334

-- The days from 0000-01-01 to the first of January of a year.
abbrev pub before_year : ℕ → ℕ
before_year y = y * 365 + (y + 3) / 4 + (y + 399) / 400 - (y + 99) / 100

-- The days from 0000-01-01 to the date.
unfoldable pub day_count : CalendarDay → ℕ
day_count c =
    before_year c.year
    + before_month c.month
    + (if is_leap c.year && leb 3 c.month then 1 else 0)
    + (c.day - 1)

-- 1970-01-01 is 719528 days after 0000-01-01.
number_of_day : Option CalendarDay → Result AggregateError ℤ
number_of_day none = err day_must_use_iso_format
number_of_day (some c) =
    if is_calendar_day c then ok (sub_ℕ (day_count c) 719528) else err day_must_be_a_calendar_day

unfoldable pub utc_day_number : Text → Result AggregateError ℤ
unfolding number_of_day
utc_day_number text = number_of_day (iso_day text)

-- The day after.
abbrev pub next_day : CalendarDay → CalendarDay
next_day c =
    if leb (suc c.day) (days_in_month c.year c.month)
    then record c { day = c.day + 1 }
    else if leb 12 c.month
    then record { year = c.year + 1; month = 1; day = 1 }
    else record { year = c.year; month = c.month + 1; day = 1 }

epoch :
    utc_day_number (b'1' ∷ b'9' ∷ b'7' ∷ b'0' ∷ b'-' ∷ b'0' ∷ b'1' ∷ b'-' ∷ b'0' ∷ b'1' ∷ [])
    ≡ ok (sub_ℕ 0 0)
unfolding utc_day_number iso_day day_count
epoch = refl
