-- ===== src/Traffic/Period/Laws.antt =====
-- The billing period holds the present day, and the periods follow one another without a gap.
use proxy_node_assistant.Prelude.{
  if_of_false, sym, ==_iff, Bool, ap, ◌∙◌, ◌*◌, ◌+◌, ◌<◌, ◌==◌, Bool-cases, arith, false,
  if◌then◌else◌, inl, inr, leb, ltb, refl, suc, true, zero, ℕ, ◌≡◌, ◌≤◌,
}
use proxy_node_assistant.Traffic.Period.{
  period_end, period_start, position, Date, before, carry, clamped_date, date, days_in_month,
  is_leap, next_month, normalized, previous_month, reset_day_of, traffic_period,
}
use proxy_node_assistant.Text.{negsuc, pos, ℤ}

pub record IsDate (t : Date) : Type 0 where
  pub year_in : 1 ≤ t.year
  pub month_from : 1 ≤ t.month
  pub month_to : t.month ≤ 12
  pub day_from : 1 ≤ t.day
  pub day_to : t.day ≤ 31

days_in_month_ge : (y m : ℕ) → 28 ≤ days_in_month y m
unfolding days_in_month
days_in_month_ge y m = elim (Bool-cases (is_leap y)) [
  | inl e ↦ rw e (ground arith)
  | inr e ↦ rw e (ground arith)
]

-- A day up to the 28th is in every month.
carry_early : (fuel : ℕ) (t : Date) → t.day ≤ 28 → carry fuel t ≡ t
unfolding carry
carry_early zero t h = refl
carry_early (suc fuel) t h =
    let here : leb t.day (days_in_month t.year t.month) ≡ true =
      ground (arith, days_in_month_ge t.year t.month) in
    rw here refl

normalized_early : (t : Date) → t.day ≤ 28 → normalized t ≡ t
unfolding normalized
normalized_early t h = carry_early t.day t h

clamped_early : (y m d : ℕ) → 1 ≤ d → d ≤ 28 → clamped_date y m d ≡ date y m d
unfolding clamped_date
clamped_early y m d h k =
    let low : ltb d 1 ≡ false = ground arith in
    let high : ltb (days_in_month y m) d ≡ false = ground (arith, days_in_month_ge y m) in
    rw (low, high) refl

reset_day_of_bounds : (r : ℤ) → (1 ≤ reset_day_of r) × (reset_day_of r ≤ 28)
unfolding reset_day_of
reset_day_of_bounds (pos d) = ground arith
reset_day_of_bounds (negsuc d) = (omega arith, omega arith)

previous_month-day : (t : Date) → (previous_month t).day ≡ t.day
previous_month-day t = elim (Bool-cases (t.month == 1)) [ inl e ↦ rw e refl | inr e ↦ rw e refl ]

next_month-day : (t : Date) → (next_month t).day ≡ t.day
next_month-day t = elim (Bool-cases (t.month == 12)) [ inl e ↦ rw e refl | inr e ↦ rw e refl ]

if_only :
    (b : Bool) (x y x' : Date) → (b ≡ true → x ≡ x') → (if b then x else y) ≡ (if b then x' else y)
if_only true x y x' h = h refl
if_only false x y x' h = refl

previous_start :
    (now : Date) (d : ℕ)
    → 1 ≤ d
    → d ≤ 28
    → now.day ≤ 28
    → clamped_date (normalized (previous_month now)).year (normalized (previous_month now)).month d
      ≡ record (previous_month now) { day = d }
previous_start now d h k early =
    let this_early : (previous_month now).day ≤ 28 = omega (arith, previous_month-day now) in
    rw (normalized_early (previous_month now) this_early)
      (clamped_early (previous_month now).year (previous_month now).month d h k)

-- The month before, or this one if its reset day is not past.
period_start_lem :
    (now : Date) (d : ℕ)
    → 1 ≤ d
    → d ≤ 28
    → period_start now d ≡ (
        if before now (date now.year now.month d)
        then record (previous_month now) { day = d }
        else date now.year now.month d)
unfolding period_start
period_start_lem now d h k =
    let previous = normalized (previous_month now) in
    ap
      (λ (this : Date).
        if before now this then clamped_date previous.year previous.month d else this)
      (clamped_early now.year now.month d h k)
    ∙ if_only (before now (date now.year now.month d)) _ _ _
        (λ e. previous_start now d h k (ground arith))

period_end_lem :
    (start : Date) (d : ℕ)
    → 1 ≤ d
    → d ≤ 28
    → start.day ≡ d
    → period_end start d ≡ record (next_month start) { day = d }
unfolding period_end
period_end_lem start d h k e =
    let early : (next_month start).day ≤ 28 = omega (arith, next_month-day start) in
    rw (normalized_early (next_month start) early)
      (clamped_early (next_month start).year (next_month start).month d h k)

-- Months counted through, and the day.
abbrev pub month_index : Date → ℕ
month_index t = t.year * 12 + t.month

pub record Surrounds (now start : Date) (d : ℕ) : Type 0 where
  pub start_day : start.day ≡ d
  pub not_later : position start ≤ position now
  pub earlier : position now < (month_index start + 1) * 32 + d
  pub month_from : 1 ≤ start.month
  pub month_to : start.month ≤ 12

previous_index :
    (t : Date)
    → IsDate t
    → (month_index (previous_month t) + 1 ≡ month_index t)
      × (1 ≤ (previous_month t).month)
      × ((previous_month t).month ≤ 12)
previous_index t v = elim (Bool-cases (t.month == 1)) [
  | inl e ↦ let first = (==_iff t.month 1).0 e in rw e (omega arith, omega arith, omega arith)
  | inr e ↦
      let later : 2 ≤ t.month = ground (arith, v.month_from) in
      rw e (omega arith, omega arith, omega arith)
]

period_start-Surrounds :
    (now : Date) (d : ℕ) → IsDate now → 1 ≤ d → d ≤ 28 → Surrounds now (period_start now d) d
period_start-Surrounds now d v h k =
    rw (period_start_lem now d h k) (elim (Bool-cases (before now (date now.year now.month d))) [
      | inl e ↦
          let (index, from, to) = previous_index now v in
          let past : position now < month_index now * 32 + d = ground arith in
          rw e (record {
            start_day = refl;
            not_later = omega arith;
            earlier = omega arith;
            month_from = from;
            month_to = to;
          })
      | inr e ↦
          let reached : month_index now * 32 + d ≤ position now = ground arith in
          rw e (record {
            start_day = refl;
            not_later = omega arith;
            earlier = omega arith;
            month_from = v.month_from;
            month_to = v.month_to;
          })
    ])

month_index-next :
    (start : Date)
    → 1 ≤ start.month
    → start.month ≤ 12
    → month_index (next_month start) ≡ month_index start + 1
month_index-next start h k = elim (Bool-cases (start.month == 12)) [
  | inl e ↦ let last = (==_iff start.month 12).0 e in rw e (omega arith)
  | inr e ↦ rw e (omega arith)
]

-- The period that was computed for a day and a reset day.
pub record IsPeriod (now : Date) (reset_day : ℤ) (period : Date × Date) : Type 0 where
  pub start_day : period.0.day ≡ reset_day_of reset_day
  pub end_day : period.1.day ≡ reset_day_of reset_day
  pub one_month : month_index period.1 ≡ month_index period.0 + 1
  pub begun : position period.0 ≤ position now
  pub not_over : position now < position period.1
  pub next_begins : (traffic_period period.1 reset_day).0 ≡ period.1

-- A period that is computed on its first day begins on that day.
period_start_self : (t : Date) (d : ℕ) → 1 ≤ d → d ≤ 28 → t.day ≡ d → period_start t d ≡ t
period_start_self t d h k e =
    let same : before t (date t.year t.month d) ≡ false = ground arith in
    period_start_lem t d h k
    ∙ if_of_false {b = before t (date t.year t.month d)} _ _ same
    ∙ (λ i. record t { day = sym e i })

-- For every day of the calendar the period begins on the reset day of a month, not after that day, and
-- ends on the reset day of the next month, after that day. The next period begins where this one ends,
-- so no day is left out or counted twice. A reset day that is not from 1 to 28 counts as 1.
pub traffic_period-IsPeriod :
    (now : Date) (reset_day : ℤ)
    → IsDate now
    → IsPeriod now reset_day (traffic_period now reset_day)
unfolding traffic_period
traffic_period-IsPeriod now reset_day v =
    let (low, high) = reset_day_of_bounds reset_day in
    let start = period_start now (reset_day_of reset_day) in
    let s = period_start-Surrounds now (reset_day_of reset_day) v low high in
    let next = month_index-next start s.month_from s.month_to in
    let end_lem = period_end_lem start (reset_day_of reset_day) low high s.start_day in
    record {
      start_day = s.start_day;
      end_day = ap (λ (t : Date). t.day) end_lem;
      one_month = ap month_index end_lem ∙ next;
      begun = s.not_later;
      not_over = omega (arith, ap position end_lem);
      next_begins =
          period_start_self (period_end start (reset_day_of reset_day)) (reset_day_of reset_day) low
            high (ap (λ (t : Date). t.day) end_lem);
    }
