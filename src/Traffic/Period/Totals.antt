-- ===== src/Traffic/Period/Totals.antt =====
-- The counters of parseVnStatTraffic.
use proxy_node_assistant.Prelude.{
  ap, refl, Bool, List, [], arith, false, if◌then◌else◌, not, ok, some, true, ℕ, ◌%◌, ◌&&◌, ◌+◌,
  ◌∙◌, ◌∷◌, ◌≡◌,
}
use proxy_node_assistant.Traffic.Period.{
  vnstat_snapshot, Date, VnStatDay, before, normalized, parse_vnstat_traffic, sum_days,
  traffic_period, word,
}
use proxy_node_assistant.Text.{ℤ}
use proxy_node_assistant.Traffic.{Instant, TrafficSnapshot}

-- Whether the loop counts a day.
abbrev pub in_period : Date → Date → VnStatDay → Bool
in_period from to item = not (before (normalized item.at) from) && before (normalized item.at) to

-- The sums over the days in the period, without the bound of a 64-bit number.
unfoldable pub total_rx : Date → Date → List VnStatDay → ℕ
total_rx from to [] = 0
total_rx from to (item ∷ items) =
    (if in_period from to item then item.rx else 0) + total_rx from to items

unfoldable pub total_tx : Date → Date → List VnStatDay → ℕ
total_tx from to [] = 0
total_tx from to (item ∷ items) =
    (if in_period from to item then item.tx else 0) + total_tx from to items

add_wrapped : (a b : ℕ) → ((a % word) + b) % word ≡ (a + b) % word
add_wrapped a b = omega arith

counted :
    (b : Bool) (a n : ℕ)
    → (if b then (a % word + n) % word else a % word) ≡ (a + (if b then n else 0)) % word
counted true a n = add_wrapped a n
counted false a n = omega arith

pairs : {a b c d : ℕ} → a ≡ b → c ≡ d → ◌≡◌ {A = ℕ × ℕ} (a, c) (b, d)
pairs p q = λ i. (p i, q i)

regrouped : (a b c : ℕ) → (a + b + c) % word ≡ (a + (b + c)) % word
regrouped a b c = omega arith

sum_days_lem :
    (from to : Date) (items : List VnStatDay) (rx tx : ℕ)
    → sum_days from to items (rx % word) (tx % word)
      ≡ ((rx + total_rx from to items) % word, (tx + total_tx from to items) % word)
unfolding sum_days total_rx total_tx
sum_days_lem from to [] rx tx = pairs (omega arith) (omega arith)
sum_days_lem from to (item ∷ items) rx tx =
    let b = in_period from to item in
    let r = if b then item.rx else 0 in
    let t = if b then item.tx else 0 in
    rw (counted b rx item.rx, counted b tx item.tx)
      (sum_days_lem from to items (rx + r) (tx + t) ∙ pairs (regrouped rx r _) (regrouped tx t _))

both_wrapped : (a b : ℕ) → ((a % word) + (b % word)) % word ≡ (a + b) % word
both_wrapped a b = omega arith

from_zero : (a : ℕ) → (0 + a) % word ≡ a % word
from_zero a = omega arith

sum_days-total :
    (from to : Date) (items : List VnStatDay)
    → sum_days from to items 0 0 ≡ (total_rx from to items % word, total_tx from to items % word)
sum_days-total from to items =
    sum_days_lem from to items 0 0
    ∙ pairs (from_zero (total_rx from to items)) (from_zero (total_tx from to items))

-- A document with an interface is accepted. The two counters are the sums over exactly the days of the
-- first interface that fall into the billing period, and the use is their sum, all modulo 2 ^ 64; so
-- they are exact as long as the whole sum is below that.
pub parse_vnstat_traffic-totals :
    (instant : Date → Instant) (days : List VnStatDay) (more : List (List VnStatDay)) (quota : ℕ)
    (reset_day : ℤ) (now : Date)
    → (s : TrafficSnapshot) × (parse_vnstat_traffic instant (some (days ∷ more)) quota reset_day now
        ≡ ok s)
      × (s.rx_bytes
          ≡ total_rx (traffic_period now reset_day).0 (traffic_period now reset_day).1 days % word)
      × (s.tx_bytes
          ≡ total_tx (traffic_period now reset_day).0 (traffic_period now reset_day).1 days % word)
      × (s.used_bytes
          ≡ (total_rx (traffic_period now reset_day).0 (traffic_period now reset_day).1 days
              + total_tx (traffic_period now reset_day).0 (traffic_period now reset_day).1 days)
            % word)
      × (s.quota_bytes ≡ quota)
      × (s.reset_at ≡ instant (traffic_period now reset_day).1)
unfolding parse_vnstat_traffic total_rx
parse_vnstat_traffic-totals instant days more quota reset_day now =
    let (from, to) = traffic_period now reset_day in
    let sums = sum_days-total from to days in
    (
      vnstat_snapshot (instant to) quota (sum_days from to days 0 0),
      refl,
      ap (λ (p : ℕ × ℕ). p.0) sums,
      ap (λ (p : ℕ × ℕ). p.1) sums,
      ap (λ (p : ℕ × ℕ). (p.0 + p.1) % word) sums
          ∙ both_wrapped (total_rx from to days) (total_tx from to days),
      refl,
      refl,
    )
