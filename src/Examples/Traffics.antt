-- ===== src/Examples/Traffics.antt =====
-- The theorems on traffic.go at concrete inputs.
use proxy_node_assistant.Prelude.{List, [], arith, false, ok, refl, some, ◌%◌, ◌+◌, ◌∷◌, ◌≡◌}
use proxy_node_assistant.Text.{Text, codes, pos, text_eq}
use proxy_node_assistant.Traffic.{
  TrafficProfile, TrafficSnapshot, TrafficStore, find_traffic_profile, has_key,
  normalize_traffic_id, remove_traffic_profile, save_traffic_store, upsert_traffic_profile,
}
use proxy_node_assistant.Traffic.Identifier.{IsTrafficId, normalize_traffic_id-IsTrafficId}
use proxy_node_assistant.Traffic.Period.{
  VnStatDay, date, normalized, parse_vnstat_traffic, position, traffic_period, word,
}
use proxy_node_assistant.Traffic.Period.Laws.{IsDate, IsPeriod, traffic_period-IsPeriod}
use proxy_node_assistant.Traffic.Period.Totals.{parse_vnstat_traffic-totals, total_rx, total_tx}
use proxy_node_assistant.Traffic.Store.{IsDistinctStore}
use proxy_node_assistant.Traffic.Store.Saved.{
  IsStoreOf, deleted, save_traffic_store-IsStoreOf, updated, view,
}

abbrev sample : Text → Text → Text → TrafficProfile
sample provider id label = record {
  id = id;
  provider = provider;
  label = label;
  host = [];
  user = [];
  port = pos 22;
  account_id = [];
  endpoint = [];
  quota_bytes = 0;
  reset_day = pos 1;
  credential_target = [];
  last_checked_utc = 0;
  has_last_snapshot = false;
  last_used_bytes = 0;
  last_rx_bytes = 0;
  last_tx_bytes = 0;
  last_reset_at = 0;
  last_source = [];
  last_estimated = false;
  last_detail = [];
}

abbrev two_profiles : TrafficStore
two_profiles =
    sample (codes "kiwivm") (codes "b") (codes "Zulu")
    ∷ sample (codes "ssh-vnstat") (codes "b") (codes "alpha")
    ∷ []

two_profiles-IsDistinctStore : IsDistinctStore two_profiles
unfolding find_traffic_profile has_key text_eq
two_profiles-IsDistinctStore = (refl, (refl, tt))

abbrev replacement : TrafficProfile
replacement = sample (codes "kiwivm") (codes "b") (codes "Yankee")

save_traffic_store-IsStoreOf_example :
    IsStoreOf (view two_profiles) (save_traffic_store two_profiles)
    × IsStoreOf
        (updated (view two_profiles) replacement)
        (save_traffic_store (upsert_traffic_profile two_profiles replacement))
    × IsStoreOf
        (deleted (view two_profiles) (codes "kiwivm") (codes "b"))
        (save_traffic_store (remove_traffic_profile two_profiles (codes "kiwivm") (codes "b")).0)
save_traffic_store-IsStoreOf_example =
    save_traffic_store-IsStoreOf two_profiles replacement (codes "kiwivm") (codes "b")
      two_profiles-IsDistinctStore

normalize_traffic_id-IsTrafficId_example :
    IsTrafficId (normalize_traffic_id (codes " --Tokyo  Node #1! "))
normalize_traffic_id-IsTrafficId_example =
    normalize_traffic_id-IsTrafficId (codes " --Tokyo  Node #1! ")

march_tenth-IsDate : IsDate (date 2024 3 10)
march_tenth-IsDate = record {
  year_in = omega arith;
  month_from = omega arith;
  month_to = omega arith;
  day_from = omega arith;
  day_to = omega arith;
}

traffic_period-IsPeriod_example :
    IsPeriod (date 2024 3 10) (pos 15) (traffic_period (date 2024 3 10) (pos 15))
traffic_period-IsPeriod_example =
    traffic_period-IsPeriod (date 2024 3 10) (pos 15) march_tenth-IsDate

abbrev sample_days : List VnStatDay
sample_days =
    record { at = date 2024 2 14; rx = 5; tx = 6 }
    ∷ record { at = date 2024 2 15; rx = 7; tx = 8 }
    ∷ []

parse_vnstat_traffic-totals_example :
    (s : TrafficSnapshot) × (parse_vnstat_traffic position
        (some (sample_days ∷ []))
        100
        (pos 15)
        (date 2024 3 10)
      ≡ ok s)
    × (s.rx_bytes
        ≡ total_rx
            (traffic_period (date 2024 3 10) (pos 15)).0
            (traffic_period (date 2024 3 10) (pos 15)).1
            sample_days
          % word)
    × (s.tx_bytes
        ≡ total_tx
            (traffic_period (date 2024 3 10) (pos 15)).0
            (traffic_period (date 2024 3 10) (pos 15)).1
            sample_days
          % word)
    × (s.used_bytes
        ≡ (total_rx
              (traffic_period (date 2024 3 10) (pos 15)).0
              (traffic_period (date 2024 3 10) (pos 15)).1
              sample_days
            + total_tx
                (traffic_period (date 2024 3 10) (pos 15)).0
                (traffic_period (date 2024 3 10) (pos 15)).1
                sample_days)
          % word)
    × (s.quota_bytes ≡ 100)
    × (s.reset_at ≡ position (traffic_period (date 2024 3 10) (pos 15)).1)
parse_vnstat_traffic-totals_example =
    parse_vnstat_traffic-totals position sample_days [] 100 (pos 15) (date 2024 3 10)

totals_test : total_rx (date 2024 2 15) (date 2024 3 15) sample_days ≡ 7
unfolding total_rx normalized
totals_test = refl
