-- ===== src/GridPool/Time/Calendar.antt =====
-- The date and time that `iso8601_millis` prints, against a clock that counts milliseconds in the
-- Gregorian calendar.
use gridpool_sv2_pool.Prelude.{
  ℕ, zero, suc, ◌+◌, ◌-◌, ◌*◌, ◌/◌, ◌%◌, ◌<◌, ◌≤◌, ◌≡◌, refl, ◌∙◌, sym, ap, Bool, true, false, not,
  ◌&&◌, ◌||◌, arith, ltb, inl, inr, Bool-cases, ◌==◌, if◌then◌else◌,
}
use gridpool_sv2_pool.GridPool.Time.{
  CivilDay, civil_day, turned, month_of, day_of, of_year, civil, Utc, utc,
}

unfoldable pub is_leap : ℕ → Bool
is_leap y = (y % 4 == 0) && (not (y % 100 == 0) || (y % 400 == 0))

-- Long months are odd up to July and even from August on.
abbrev month_length : (leap : Bool) → ℕ → ℕ
month_length leap m =
    if m == 2 then (if leap then 29 else 28) else (if ltb m 8 then 30 + m % 2 else 31 - m % 2)

abbrev days_in_month : ℕ → ℕ → ℕ
days_in_month y m = month_length (is_leap y) m

-- The day after, in the Gregorian calendar.
abbrev pub next : CivilDay → CivilDay
next t =
    if ltb t.day (days_in_month t.year t.month)
    then civil_day t.year t.month (t.day + 1)
    else (if ltb t.month 12 then civil_day t.year (t.month + 1) 1 else civil_day (t.year + 1) 1 1)

abbrev year_length : ℕ → ℕ
year_length y = if is_leap (y + 1) then 366 else 365

abbrev every : (ℕ → Bool) → ℕ → Bool
every p zero = true
every p (suc n) = let rest = every p n in if p n then rest else false

every_lem : (p : ℕ → Bool) (n i : ℕ) → every p n ≡ true → i < n → p i ≡ true
every_lem p zero i h l = absurd (omega arith)
every_lem p (suc n) i h l = elim (Bool-cases (i == n)) [
  | inl last ↦ let same : i ≡ n = ground arith in ground arith
  | inr earlier ↦ ground (arith, every_lem p n i)
]

-- The step from one day of such a year to the next.
abbrev month_step : (leap : Bool) → (m d m' d' : ℕ) → Bool
month_step leap m d m' d' =
    if ltb d (month_length leap m)
    then (m' == m) && (d' == d + 1)
    else (d' == 1) && (if ltb m 12 then (m' == m + 1) && not (m == 2) else (m' == 1))

abbrev steps_on : (leap : Bool) → (doy : ℕ) → Bool
steps_on leap doy =
    month_step leap (month_of doy) (day_of doy) (month_of (suc doy)) (day_of (suc doy))

steps_on_lem :
    (leap : Bool) (doy : ℕ) → doy + 1 < (if leap then 366 else 365) → steps_on leap doy ≡ true
unfolding month_of day_of
steps_on_lem true doy h = every_lem (steps_on true) 365 doy refl (omega arith)
steps_on_lem false doy h = every_lem (steps_on false) 364 doy refl (omega arith)

next_lem :
    (leap : Bool) (y m d m' d' : ℕ)
    → is_leap (y + 1) ≡ leap
    → month_step leap m d m' d' ≡ true
    → civil_day (y + turned m') m' d' ≡ next (civil_day (y + turned m) m d)
next_lem true y m d m' d' e h = ground arith
next_lem false y m d m' d' e h = ground arith

of_year-suc : (y doy : ℕ) → doy + 1 < year_length y → of_year y (suc doy) ≡ next (of_year y doy)
unfolding of_year
of_year-suc y doy h =
    let leap = is_leap (y + 1) in
    next_lem leap y (month_of doy) (day_of doy) (month_of (suc doy)) (day_of (suc doy)) refl
      (steps_on_lem leap doy h)

of_year-turn : (y doy : ℕ) → doy + 1 ≡ year_length y → of_year (y + 1) 0 ≡ next (of_year y doy)
unfolding of_year month_of day_of
of_year-turn y doy h = ground arith

long : (y : ℕ) → 0 < year_length y
long y = ground arith

-- Days before a year of the cycle of 400 years.
abbrev before : ℕ → ℕ
before y = 365 * y + y / 4 - y / 100

yoe_lem :
    (doe y : ℕ)
    → y < 400
    → doe < 146_097
    → before y ≤ doe
    → doe < before (y + 1) + (y + 1) / 400
    → (doe - doe / 1_460 + doe / 36_524 - doe / 146_096) / 365 ≡ y
yoe_lem doe y a b c d = omega arith

yoe_bounds :
    (doe : ℕ)
    → doe < 146_097
    → let y = (doe - doe / 1_460 + doe / 36_524 - doe / 146_096) / 365 in
      (y < 400) × (before y ≤ doe) × (doe < before (y + 1) + (y + 1) / 400)
yoe_bounds doe h = (omega arith, omega arith, omega arith)

year_length-before :
    (y era : ℕ) → y < 400 → before y + year_length (y + era * 400) ≡ before (y + 1) + (y + 1) / 400
unfolding is_leap
year_length-before y era h = ground arith

civil_lem :
    (n era y doy : ℕ)
    → n + 719_468 ≡ era * 146_097 + before y + doy
    → y < 400
    → doy < year_length (y + era * 400)
    → civil n ≡ of_year (y + era * 400) doy
unfolding civil
civil_lem n era y doy e h l =
    let doe = before y + doy in
    let short = year_length-before y era h in
    let quotient : (n + 719_468) / 146_097 ≡ era = omega arith in
    let rest : n + 719_468 - era * 146_097 ≡ doe = omega arith in
    let year : (doe - doe / 1_460 + doe / 36_524 - doe / 146_096) / 365 ≡ y =
      yoe_lem doe y h (omega arith) (omega arith) (omega arith) in
    let day : doe - (365 * y + y / 4 - y / 100) ≡ doy = omega arith in
    rw (quotient, rest, year, day) refl

-- The year of the cycle and the day of that year that a number of days falls on.
split_days :
    (n : ℕ)
    → (era : ℕ) × (y : ℕ) × (doy : ℕ) × (n + 719_468 ≡ era * 146_097 + before y + doy)
      × (y < 400)
      × (doy < year_length (y + era * 400))
split_days n =
    let era = (n + 719_468) / 146_097 in
    let doe = n + 719_468 - era * 146_097 in
    let y = (doe - doe / 1_460 + doe / 36_524 - doe / 146_096) / 365 in
    let (small, low, high) = yoe_bounds doe (omega arith) in
    let short = year_length-before y era small in
    (era, y, doe - before y, omega arith, small, omega arith)

civil-suc : (n : ℕ) → civil (suc n) ≡ next (civil n)
civil-suc n =
    let (era, y, doy, e, h, l) = split_days n in
    let there = civil_lem n era y doy e h l in
    let year = y + era * 400 in
    let short = year_length-before y era h in
    elim (Bool-cases (ltb (doy + 1) (year_length year))) [
      | inl inside ↦
          civil_lem (suc n) era y (suc doy) (omega arith) h (ground arith)
          ∙ of_year-suc year doy (ground arith)
          ∙ ap next (sym there)
      | inr over ↦
          let last : doy + 1 ≡ year_length year = ground arith in
          let turn = of_year-turn year doy last ∙ ap next (sym there) in
          elim (Bool-cases (y == 399)) [
            | inl end ↦
                let same : y ≡ 399 = ground arith in
                let begins : 0 + (era + 1) * 400 ≡ year + 1 = omega arith in
                civil_lem (suc n) (era + 1) 0 0 (omega arith) (omega arith)
                  (long (0 + (era + 1) * 400))
                ∙ ap (λ k. of_year k 0) begins
                ∙ turn
            | inr before_end ↦
                let begins : y + 1 + era * 400 ≡ year + 1 = omega arith in
                civil_lem (suc n) era (y + 1) 0 (ground arith) (ground arith)
                  (long (y + 1 + era * 400))
                ∙ ap (λ k. of_year k 0) begins
                ∙ turn
          ]
    ]

-- A millisecond later.
abbrev pub tick : Utc → Utc
tick t =
    if ltb t.millis 999
    then record t { millis = t.millis + 1 }
    else (if ltb t.second 59
        then record t { millis = 0; second = t.second + 1 }
        else (if ltb t.minute 59
            then record t { millis = 0; second = 0; minute = t.minute + 1 }
            else (if ltb t.hour 23
                then record t { millis = 0; second = 0; minute = 0; hour = t.hour + 1 }
                else record { millis = 0; second = 0; minute = 0; hour = 0; on = next t.on })))

abbrev at_time : CivilDay → (sod millis : ℕ) → Utc
at_time day sod r = record {
  on = day;
  hour = sod / 3_600;
  minute = (sod % 3_600) / 60;
  second = sod % 60;
  millis = r;
}

tick-at_time :
    (day : CivilDay) (sod : ℕ) → sod < 86_399 → tick (at_time day sod 999) ≡ at_time day (sod + 1) 0
tick-at_time day sod h = elim (Bool-cases (ltb (sod % 60) 59)) [
  | inl second ↦
      let hours : (sod + 1) / 3_600 ≡ sod / 3_600 = ground arith in
      let minutes : ((sod + 1) % 3_600) / 60 ≡ (sod % 3_600) / 60 = ground arith in
      let seconds : (sod + 1) % 60 ≡ sod % 60 + 1 = ground arith in
      rw (hours, minutes, seconds, second) refl
  | inr full ↦
      let seconds : (sod + 1) % 60 ≡ 0 = ground arith in
      elim (Bool-cases (ltb ((sod % 3_600) / 60) 59)) [
        | inl minute ↦
            let hours : (sod + 1) / 3_600 ≡ sod / 3_600 = ground arith in
            let minutes : ((sod + 1) % 3_600) / 60 ≡ (sod % 3_600) / 60 + 1 = ground arith in
            rw (hours, minutes, seconds, full, minute) refl
        | inr last ↦
            let hours : (sod + 1) / 3_600 ≡ sod / 3_600 + 1 = ground arith in
            let minutes : ((sod + 1) % 3_600) / 60 ≡ 0 = ground arith in
            let early : ltb (sod / 3_600) 23 ≡ true = ground arith in
            rw (hours, minutes, seconds, full, last, early) refl
      ]
]

utc-suc : (ms : ℕ) → utc (suc ms) ≡ tick (utc ms)
unfolding utc
utc-suc ms =
    let s = ms / 1_000 in
    elim (Bool-cases (ltb (ms % 1_000) 999)) [
      | inl milli ↦
          let same : suc ms / 1_000 ≡ s = ground arith in
          let more : suc ms % 1_000 ≡ ms % 1_000 + 1 = ground arith in rw (same, more, milli) refl
      | inr full ↦
          let all : ms % 1_000 ≡ 999 = ground arith in
          let later : suc ms / 1_000 ≡ s + 1 = ground arith in
          let none_left : suc ms % 1_000 ≡ 0 = ground arith in
          elim (Bool-cases (ltb (s % 86_400) 86_399)) [
            | inl within ↦
                let day : (s + 1) / 86_400 ≡ s / 86_400 = ground arith in
                let sod : (s + 1) % 86_400 ≡ s % 86_400 + 1 = ground arith in
                rw (later, none_left, all, day, sod)
                  (sym (tick-at_time (civil (s / 86_400)) (s % 86_400) (ground arith)))
            | inr midnight ↦
                let end : s % 86_400 ≡ 86_399 = ground arith in
                let day : (s + 1) / 86_400 ≡ suc (s / 86_400) = ground arith in
                let sod : (s + 1) % 86_400 ≡ 0 = ground arith in
                rw (later, none_left, all, day, sod, end, civil-suc (s / 86_400)) refl
          ]
    ]

-- The printed date and time start at midnight of 1970-01-01, and each further millisecond takes
-- them where a clock of the Gregorian calendar goes, with its leap years and the lengths of its
-- months.
pub utc-tick :
    (utc 0 ≡ record { on = civil_day 1970 1 1; hour = 0; minute = 0; second = 0; millis = 0 })
    × ((ms : ℕ) → utc (suc ms) ≡ tick (utc ms))
unfolding utc civil of_year month_of day_of
utc-tick = (refl, utc-suc)
