-- ===== src/GridPool/Time.antt =====
-- pool-apps/pool/src/lib/gridpool.rs: `iso8601_millis`. The clock's milliseconds since 1970 are not
-- negative and their seconds fit an `i64`, so that neither the quotients nor the remainders of the
-- source are taken of a negative number.
pub mod Calendar
use gridpool_sv2_pool.Prelude.{
  ℕ, zero, suc, ◌+◌, ◌-◌, ◌*◌, ◌/◌, ◌%◌, ◌<◌, ◌≤◌, ◌≡◌, refl, ◌∙◌, sym, ap, Bool, true, false, not,
  List, [], ◌∷◌, ◌++◌, Text, length, replicate, to_string, arith, ltb, leb, inl, inr, Bool-cases,
  ◌==◌, if◌then◌else◌,
}

-- `days`, `year`, `month` and `day` of the source
pub record CivilDay : Type 0 where
  pub year : ℕ
  pub month : ℕ
  pub day : ℕ

abbrev pub civil_day : (year month day : ℕ) → CivilDay
civil_day year month day = record { day = day; month = month; year = year }

-- The month and the day of a day of a year that starts with March.
unfoldable pub month_of : (doy : ℕ) → ℕ
month_of doy = let mp = (5 * doy + 2) / 153 in if ltb mp 10 then mp + 3 else mp - 9

unfoldable pub day_of : (doy : ℕ) → ℕ
day_of doy = let mp = (5 * doy + 2) / 153 in doy - (153 * mp + 2) / 5 + 1

abbrev pub turned : (month : ℕ) → ℕ
turned month = if leb month 2 then 1 else 0

unfoldable pub of_year : (year doy : ℕ) → CivilDay
unfolding month_of day_of
of_year year doy = let month = month_of doy in civil_day (year + turned month) month (day_of doy)

-- The year, month and day of a number of days since 1970-01-01.
unfoldable pub civil : ℕ → CivilDay
unfolding of_year month_of day_of
civil days =
    let z = days + 719_468 in
    let era = z / 146_097 in
    let doe = z - era * 146_097 in
    let yoe = (doe - doe / 1_460 + doe / 36_524 - doe / 146_096) / 365 in
    let year = yoe + era * 400 in
    let doy = doe - (365 * yoe + yoe / 4 - yoe / 100) in of_year year doy

-- What `iso8601_millis` prints.
pub record Utc : Type 0 where
  pub on : CivilDay
  pub hour : ℕ
  pub minute : ℕ
  pub second : ℕ
  pub millis : ℕ

unfoldable pub utc : (ms : ℕ) → Utc
unfolding civil of_year month_of day_of
utc ms =
    let seconds = ms / 1_000 in
    let sod = seconds % 86_400 in
    record {
      on = civil (seconds / 86_400);
      hour = sod / 3_600;
      minute = (sod % 3_600) / 60;
      second = sod % 60;
      millis = ms % 1_000;
    }

-- `{:0width}`
abbrev padded : (width n : ℕ) → Text
padded width n = let digits = to_string n in replicate (width - length digits) b'0' ++ digits

unfoldable pub iso8601_millis : (ms : ℕ) → Text
unfolding utc to_string civil of_year month_of day_of
iso8601_millis ms =
    let t = utc ms in
    padded 4 t.on.year
    ++ b'-' ∷ padded 2 t.on.month
    ++ b'-' ∷ padded 2 t.on.day
    ++ b'T' ∷ padded 2 t.hour
    ++ b':' ∷ padded 2 t.minute
    ++ b':' ∷ padded 2 t.second
    ++ b'.' ∷ padded 3 t.millis
    ++ b'Z' ∷ []
