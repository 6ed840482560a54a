-- ===== src/Traffic.antt =====
-- traffic.go: the profiles of servers and providers with their last results, and their store. The
-- store's file is JSON that encoding/json writes and reads, so the store stands for it.
pub mod Store
pub mod Identifier
pub mod Period
use proxy_node_assistant.Prelude.{
  Bool, List, Option, [], between, false, if◌then◌else◌, length, ltb, none, not, refl, some, take,
  true, ℕ, ◌&&◌, ◌++◌, ◌==◌, ◌||◌, ◌∷◌, ◌≡◌,
}
use proxy_node_assistant.Protocol.KeyValue.{store}
use proxy_node_assistant.Protocol.Readiness.{checked}
use proxy_node_assistant.Text.{
  Text, atoi, codes, is_digit, is_space, itoa, sort, text_eq, text_le, to_lower, trim_left,
  trim_right, trim_space, within, ℤ,
}

-- An instant; 0 is the zero time.
abbrev pub Instant : Type 0
Instant = ℕ

pub record TrafficProfile : Type 0 where
  pub id : Text
  pub provider : Text
  pub label : Text
  pub host : Text
  pub user : Text
  pub port : ℤ
  pub account_id : Text
  pub endpoint : Text
  pub quota_bytes : ℕ
  pub reset_day : ℤ
  pub credential_target : Text
  pub last_checked_utc : Instant
  pub has_last_snapshot : Bool
  pub last_used_bytes : ℕ
  pub last_rx_bytes : ℕ
  pub last_tx_bytes : ℕ
  pub last_reset_at : Instant
  pub last_source : Text
  pub last_estimated : Bool
  pub last_detail : Text

-- `TrafficStore`, which has one field.
abbrev pub TrafficStore : Type 0
TrafficStore = List TrafficProfile

pub record TrafficSnapshot : Type 0 where
  pub source : Text
  pub used_bytes : ℕ
  pub quota_bytes : ℕ
  pub rx_bytes : ℕ
  pub tx_bytes : ℕ
  pub reset_at : Instant
  pub estimated : Bool
  pub detail : Text

-- `trafficIDPattern` is `[^a-z0-9._-]+`, so these are the characters that stay.
abbrev pub is_id_char : ℕ → Bool
is_id_char c = between b'a' b'z' c || is_digit c || c == b'.' || c == b'_' || c == b'-'

-- `ReplaceAllString(value, "-")`: one dash for each run; `inside` says that the run began before.
unfoldable pub dashed : Bool → Text → Text
dashed inside [] = []
dashed inside (c ∷ cs) =
    let rest = dashed (not (is_id_char c)) cs in
    if is_id_char c then c ∷ rest else if inside then rest else b'-' ∷ rest

abbrev pub is_edge : ℕ → Bool
is_edge c = c == b'-' || c == b'.' || c == b'_'

-- `value[:64]`; after the replacement every character is one byte.
unfoldable pub normalize_traffic_id : Text → Text
unfolding to_lower trim_space dashed trim_left trim_right
normalize_traffic_id value =
    let trimmed =
      trim_right is_edge (trim_left is_edge (dashed false (to_lower (trim_space value)))) in
    if ltb 64 (length trimmed) then take 64 trimmed else trimmed

unfoldable pub provider_credential_target : Text → Text → Text
unfolding normalize_traffic_id
provider_credential_target provider id =
    codes "ProxyNodeAssistant/traffic/"
    ++ normalize_traffic_id provider
    ++ codes "/"
    ++ normalize_traffic_id id

unfoldable pub has_key : Text → Text → TrafficProfile → Bool
has_key provider id profile = text_eq profile.provider provider && text_eq profile.id id

unfoldable pub upsert_traffic_profile : TrafficStore → TrafficProfile → TrafficStore
upsert_traffic_profile [] profile = profile ∷ []
upsert_traffic_profile (p ∷ store) profile =
    if text_eq p.id profile.id && text_eq p.provider profile.provider
    then profile ∷ store
    else p ∷ upsert_traffic_profile store profile

-- The store, and whether a profile was removed.
unfoldable pub remove_traffic_profile : TrafficStore → Text → Text → TrafficStore × Bool
remove_traffic_profile [] provider id = ([], false)
remove_traffic_profile (p ∷ store) provider id =
    let rest = remove_traffic_profile store provider id in
    if has_key provider id p then (store, true) else (p ∷ rest.0, rest.1)

unfoldable pub find_traffic_profile : TrafficStore → Text → Text → Option TrafficProfile
find_traffic_profile [] provider id = none
find_traffic_profile (p ∷ store) provider id =
    if has_key provider id p then some p else find_traffic_profile store provider id

-- `!(b < a)` on the labels in lower case: the order of sort.SliceStable.
abbrev pub label_le : TrafficProfile → TrafficProfile → Bool
unfolding to_lower text_le
label_le a b = text_le (to_lower a.label) (to_lower b.label)

-- What saveTrafficStore writes.
unfoldable pub save_traffic_store : TrafficStore → TrafficStore
unfolding sort label_le
save_traffic_store store = sort label_le store

unfoldable pub is_provider_profile : TrafficProfile → Bool
unfolding text_eq
is_provider_profile p =
    text_eq p.provider (codes "kiwivm") || text_eq p.provider (codes "solusvm-compatible")

-- The loop of deleteAllProviderProfiles: what it retains, after the credentials in `deleted` are gone.
unfoldable pub retained : TrafficStore → TrafficStore
unfolding is_provider_profile
retained [] = []
retained (p ∷ store) = let rest = retained store in if is_provider_profile p then rest else p ∷ rest

unfoldable pub cache_traffic_snapshot : TrafficProfile → TrafficSnapshot → Instant → TrafficProfile
cache_traffic_snapshot profile snapshot checked = record profile {
  quota_bytes = snapshot.quota_bytes;
  last_checked_utc = checked;
  has_last_snapshot = true;
  last_used_bytes = snapshot.used_bytes;
  last_rx_bytes = snapshot.rx_bytes;
  last_tx_bytes = snapshot.tx_bytes;
  last_reset_at = snapshot.reset_at;
  last_source = snapshot.source;
  last_estimated = snapshot.estimated;
  last_detail = snapshot.detail;
}

unfoldable pub cached_traffic_snapshot : TrafficProfile → Option TrafficSnapshot
cached_traffic_snapshot profile =
    if not profile.has_last_snapshot
    then none
    else some (record {
      source = profile.last_source;
      used_bytes = profile.last_used_bytes;
      quota_bytes = profile.quota_bytes;
      rx_bytes = profile.last_rx_bytes;
      tx_bytes = profile.last_tx_bytes;
      reset_at = profile.last_reset_at;
      estimated = profile.last_estimated;
      detail = profile.last_detail;
    })

-- `none` is `false`.
unfoldable pub parse_reset_day : Text → Option ℕ
unfolding atoi trim_space
parse_reset_day value = within 1 28 (atoi (trim_space value))

unfoldable pub ssh_traffic_profile_id : Text → Text → ℕ → Text
unfolding normalize_traffic_id itoa
ssh_traffic_profile_id host user port =
    normalize_traffic_id (host ++ codes "-" ++ user ++ codes "-" ++ itoa port)

id_test : normalize_traffic_id (codes " Tokyo  Node #1! ") ≡ codes "tokyo-node-1"
unfolding normalize_traffic_id is_space
id_test = refl
