-- ===== src/Recent.antt =====
-- recent_targets.go: the list of servers that were used last, in its file and in the file of the
-- program's former name; hostPartPattern of remote.go.
pub mod Keep
pub mod Complete
pub mod Remember
pub mod Sorted
use proxy_node_assistant.Text.{
  scan_lines, Text, atoi, is_digit, is_some, itoa, join, lines_of, negsuc, pos, sort, split,
  text_eq, to_lower, trim_cr, trim_space, within, ℤ,
}
use proxy_node_assistant.Plan.Identity.{is_user_part}
use proxy_node_assistant.Prelude.{
  Bool, List, Option, Result, [], all, any, between, err, false, if◌then◌else◌, is_empty, leb,
  length, map, none, not, ok, some, suc, zero, ℕ, ◌&&◌, ◌++◌, ◌==◌, ◌||◌, ◌∷◌,
}

-- `last_used` is an instant; only the order of instants matters here.
pub record RecentTarget : Type 0 where
  pub host : Text
  pub user : Text
  pub port : ℤ
  pub last_used : ℕ

-- `time.Parse` and `Time.Format` for time.RFC3339Nano in UTC.
pub record Clock : Type 0 where
  pub parse_time : Text → Option ℕ
  pub format_time : ℕ → Text

pub data RecentError : Type 0 where
  invalid_target out_of_range : RecentError

abbrev pub max_recent_targets : ℕ
max_recent_targets = 20

abbrev pub is_host_char : ℕ → Bool
is_host_char c =
    between b'A' b'Z' c
    || between b'a' b'z' c
    || is_digit c
    || c == b'.'
    || c == b'_'
    || c == b':'
    || c == b'-'

-- `hostPartPattern`: `^[A-Za-z0-9._:-]+$`
unfoldable pub is_host_part : Text → Bool
is_host_part s = not (is_empty s) && all is_host_char s

-- `strconv.Itoa`
abbrev itoa_int : ℤ → Text
unfolding itoa
itoa_int (pos n) = itoa n
itoa_int (negsuc n) = b'-' ∷ itoa (suc n)

unfoldable pub recent_target_key : RecentTarget → Text
unfolding to_lower itoa
recent_target_key target = to_lower target.host ++ 0 ∷ target.user ++ 0 ∷ itoa_int target.port

unfoldable pub valid_recent_target : RecentTarget → Bool
valid_recent_target target =
    is_host_part target.host
    && is_user_part target.user
    && is_some (within 1 65535 (some target.port))

-- The order of `sort.SliceStable`: the later instant first, else the order of before.
unfoldable pub stands_before : RecentTarget → RecentTarget → Bool
stands_before a b = leb b.last_used a.last_used

unfoldable pub trimmed : RecentTarget → RecentTarget
trimmed value = record value { host = trim_space value.host; user = trim_space value.user }

-- `seen` holds the keys of `result`, so it is read off it here.
unfoldable pub is_seen : RecentTarget → List RecentTarget → Bool
is_seen value result = any (λ r. text_eq (recent_target_key r) (recent_target_key value)) result

-- One round of the loop: the new result, and whether it breaks.
unfoldable pub round : RecentTarget → List RecentTarget → List RecentTarget × Bool
round value result =
    if not (valid_recent_target value) || is_seen value result
    then (result, false)
    else (result ++ value ∷ [], length (result ++ value ∷ []) == max_recent_targets)

unfoldable pub collect : List RecentTarget → List RecentTarget → List RecentTarget
unfolding round trimmed
collect [] result = result
collect (value ∷ values) result =
    let next = round (trimmed value) result in
    let rest = collect values next.0 in if next.1 then next.0 else rest

unfoldable pub normalize_recent_targets : List RecentTarget → List RecentTarget
unfolding sort stands_before collect
normalize_recent_targets values = collect (sort stands_before values) []

-- The file that `rememberRecentTarget` and `deleteRecentTarget` keep, and the one of the former name;
-- `none` is a file that does not exist.
pub record History : Type 0 where
  pub current : Option Text
  pub legacy : Option Text

made : Text → Text → Option ℤ → Option ℕ → List RecentTarget
made host user (some n) (some instant) =
    record { host = host; user = user; port = n; last_used = instant } ∷ []
made host user _ _ = []

unfoldable pub without_key : Text → List RecentTarget → List RecentTarget
without_key key [] = []
without_key key (v ∷ vs) =
    let rest = without_key key vs in if text_eq (recent_target_key v) key then rest else v ∷ rest

-- The list that rememberRecentTarget saves at the instant `now`.
unfoldable pub remembered : ℕ → RecentTarget → List RecentTarget → List RecentTarget
remembered now target values =
    record target { last_used = now }
    ∷ without_key (recent_target_key (record target { last_used = now })) values

unfoldable pub drop_at : ℕ → List RecentTarget → List RecentTarget
drop_at n [] = []
drop_at zero (v ∷ vs) = vs
drop_at (suc n) (v ∷ vs) = v ∷ drop_at n vs

unfoldable pub clear_recent_targets : History → History
clear_recent_targets h = record { current = none; legacy = none }

module _ (clock : Clock) where
  -- A line that does not have four fields, a number and a time is skipped.
  target_of : List Text → List RecentTarget
  unfolding atoi made
  target_of (host ∷ user ∷ port ∷ used ∷ []) = made host user (atoi port) (clock.parse_time used)
  target_of _ = []

  targets_of : List Text → List RecentTarget
  unfolding split target_of
  targets_of [] = []
  targets_of (line ∷ lines) = target_of (split b'\t' line) ++ targets_of lines

  unfoldable pub parse_recent_targets : Text → List RecentTarget
  unfolding targets_of target_of made scan_lines
  parse_recent_targets content = normalize_recent_targets (targets_of (scan_lines content))

  unfoldable pub encode_recent_target : RecentTarget → Text
  unfolding join itoa
  encode_recent_target value =
      join b'\t'
        (value.host ∷ value.user ∷ itoa_int value.port ∷ clock.format_time value.last_used ∷ [])

  unfoldable pub encode_recent_targets : List RecentTarget → Text
  unfolding join
  encode_recent_targets values =
      let lines = map encode_recent_target (normalize_recent_targets values) in
      if is_empty lines then [] else join b'\n' lines ++ b'\n' ∷ []

  abbrev parse_file : Option Text → List RecentTarget
  parse_file none = []
  parse_file (some content) = parse_recent_targets content

  unfoldable pub load_recent_targets : History → List RecentTarget
  load_recent_targets h = normalize_recent_targets (parse_file h.current ++ parse_file h.legacy)

  -- A successful write; it removes the file of the former name.
  unfoldable pub save_recent_targets : List RecentTarget → History → History
  save_recent_targets values h = record {
    current = some (encode_recent_targets values);
    legacy = none;
  }

  unfoldable pub remember_recent_target : ℕ → RecentTarget → History → Result RecentError History
  remember_recent_target now target h =
      if not (valid_recent_target target)
      then err invalid_target
      else ok (save_recent_targets (remembered now target (load_recent_targets h)) h)

  abbrev delete_from : List RecentTarget → ℤ → History → Result RecentError History
  delete_from values (negsuc n) h = err out_of_range
  delete_from values (pos n) h =
      if leb (length values) n
      then err out_of_range
      else ok (save_recent_targets (drop_at n values) h)

  unfoldable pub delete_recent_target : ℤ → History → Result RecentError History
  delete_recent_target index h = delete_from (load_recent_targets h) index h
