-- ===== src/Traffic/Period.antt =====
-- The billing period of traffic.go, and vnStat's days that fall into it. Go's time package is modelled
-- as far as it is used: dates of the proleptic Gregorian calendar, at midnight of one location.
pub mod Laws
pub mod Totals
use proxy_node_assistant.Prelude.{
  Bool, List, Option, Result, [], err, if◌then◌else◌, leb, ltb, none, not, ok, refl, some, suc,
  true, zero, ℕ, ◌%◌, ◌&&◌, ◌*◌, ◌+◌, ◌-◌, ◌==◌, ◌^◌, ◌||◌, ◌∷◌, ◌≡◌,
}
use proxy_node_assistant.Text.{codes, negsuc, pos, ℤ}
use proxy_node_assistant.Traffic.{Instant, TrafficSnapshot}

-- The date of a time.Time at midnight; the month counts from 1.
pub record Date : Type 0 where
  pub day : ℕ
  pub month : ℕ
  pub year : ℕ

-- `time.Date`, for a day that its month has
abbrev pub date : (year_of month_of day_of : ℕ) → Date
date year_of month_of day_of = record { day = day_of; month = month_of; year = year_of }

unfoldable pub is_leap : ℕ → Bool
is_leap y = (y % 4 == 0) && (not (y % 100 == 0) || y % 400 == 0)

unfoldable pub days_in_month : ℕ → ℕ → ℕ
unfolding is_leap
days_in_month y m =
    if m == 4 || m == 6 || m == 9 || m == 11
    then 30
    else if not (m == 2)
    then 31
    else if is_leap y
    then 29
    else 28

abbrev pub next_month : Date → Date
next_month t = if t.month == 12 then date (t.year + 1) 1 t.day else date t.year (t.month + 1) t.day

abbrev pub previous_month : Date → Date
previous_month t =
    if t.month == 1 then date (t.year - 1) 12 t.day else date t.year (t.month - 1) t.day

-- `time.Date` and `AddDate` carry the days past the end of a month into the months after it. `fuel`
-- is the number of the days, of which each round takes off at least 28.
unfoldable pub carry : ℕ → Date → Date
unfolding days_in_month
carry zero t = t
carry (suc fuel) t =
    let over = t.day - days_in_month t.year t.month in
    let rest = carry fuel (record (next_month t) { day = over }) in
    if leb t.day (days_in_month t.year t.month) then t else rest

unfoldable pub normalized : Date → Date
unfolding carry
normalized t = carry t.day t

-- The position of a date among all dates; no month has more than 31 days.
abbrev pub position : Date → ℕ
position t = (t.year * 12 + t.month) * 32 + t.day

-- `Time.Before` at midnight
abbrev pub before : Date → Date → Bool
before a b = ltb (position a) (position b)

-- `day < 1` and `day > last` are clamped; `last` is the day of `time.Date(year, month+1, 0, ...)`.
unfoldable pub clamped_date : ℕ → ℕ → ℕ → Date
unfolding days_in_month
clamped_date y m d =
    let d' = if ltb d 1 then 1 else d in
    date y m (if ltb (days_in_month y m) d' then days_in_month y m else d')

-- The default for a reset day that is not from 1 to 28.
unfoldable pub reset_day_of : ℤ → ℕ
reset_day_of (pos d) = if ltb d 1 || ltb 28 d then 1 else d
reset_day_of (negsuc d) = 1

unfoldable pub period_start : Date → ℕ → Date
unfolding clamped_date normalized
period_start now d =
    let this = clamped_date now.year now.month d in
    let previous = normalized (previous_month now) in
    if before now this then clamped_date previous.year previous.month d else this

unfoldable pub period_end : Date → ℕ → Date
unfolding clamped_date normalized
period_end start d =
    let after = normalized (next_month start) in clamped_date after.year after.month d

-- The period around `now`, of which only the date counts, since both ends are at midnight.
unfoldable pub traffic_period : Date → ℤ → Date × Date
unfolding reset_day_of period_start period_end
traffic_period now reset_day =
    let d = reset_day_of reset_day in (period_start now d, period_end (period_start now d) d)

pub record VnStatDay : Type 0 where
  pub at : Date
  pub rx : ℕ
  pub tx : ℕ

abbrev pub word : ℕ
word = 2 ^ 64

-- The loop over the days of the first interface, with its two counters.
unfoldable pub sum_days : Date → Date → List VnStatDay → ℕ → ℕ → ℕ × ℕ
unfolding normalized
sum_days start next [] rx tx = (rx, tx)
sum_days start next (item ∷ items) rx tx =
    let day = normalized item.at in
    let counts = not (before day start) && before day next in
    sum_days start next items (if counts then (rx + item.rx) % word else rx)
      (if counts then (tx + item.tx) % word else tx)

pub data VnStatError : Type 0 where
  invalid_json no_interface : VnStatError

abbrev pub vnstat_snapshot : Instant → ℕ → ℕ × ℕ → TrafficSnapshot
vnstat_snapshot reset_at quota (rx, tx) = record {
  source = codes "SSH + vnStat";
  used_bytes = (rx + tx) % word;
  quota_bytes = quota;
  rx_bytes = rx;
  tx_bytes = tx;
  reset_at = reset_at;
  estimated = true;
  detail = codes "guest-interface estimate; provider billing can differ";
}

-- The document is what encoding/json reads: for each interface its days. `none` is its error. `instant`
-- is the instant of midnight of a date.
unfoldable pub parse_vnstat_traffic :
    (Date → Instant)
    → Option (List (List VnStatDay))
    → ℕ
    → ℤ
    → Date
    → Result VnStatError TrafficSnapshot
unfolding traffic_period sum_days
parse_vnstat_traffic instant none quota reset_day now = err invalid_json
parse_vnstat_traffic instant (some []) quota reset_day now = err no_interface
parse_vnstat_traffic instant (some (days ∷ interfaces)) quota reset_day now =
    let period = traffic_period now reset_day in
    ok (vnstat_snapshot (instant period.1) quota (sum_days period.0 period.1 days 0 0))

period_tests :
    (traffic_period (date 2024 3 10) (pos 15) ≡ (date 2024 2 15, date 2024 3 15))
    × (traffic_period (date 2024 1 3) (pos 28) ≡ (date 2023 12 28, date 2024 1 28))
    × (traffic_period (date 2024 12 31) (pos 0) ≡ (date 2024 12 1, date 2025 1 1))
    × (normalized (date 2023 2 31) ≡ date 2023 3 3)
unfolding traffic_period
period_tests = (refl, refl, refl, refl)
