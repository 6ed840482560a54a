-- ===== src/Recent/Remember.antt =====
-- What rememberRecentTarget of recent_targets.go makes of the list.
use proxy_node_assistant.Text.{
  all-unspaced, text_eq, trim_space_unspaced, Text, insert, is_space, sort,
}
use proxy_node_assistant.Plan.Identity.{is_user_char, is_user_part}
use proxy_node_assistant.Prelude.{
  between, if◌then◌else◌, not, ◌++◌, ◌==◌, ◌||◌, All, Bool-cases, List, [], all, and-eq-true, any,
  arith, false, inl, inr, leb, refl, true, ℕ, ◌∷◌, ◌≡◌,
}
use proxy_node_assistant.Recent.{
  is_seen, recent_target_key, without_key, RecentTarget, collect, is_host_char, is_host_part,
  normalize_recent_targets, remembered, round, stands_before, trimmed, valid_recent_target,
}

-- A character of a host or of a user is no space.
host_char_unspaced : (c : ℕ) → is_host_char c ≡ true → is_space c ≡ false
unfolding is_space
host_char_unspaced c h = ground arith

user_char_unspaced : (c : ℕ) → is_user_char c ≡ true → is_space c ≡ false
unfolding is_space
user_char_unspaced c h = ground arith

first_char_unspaced :
    (c : ℕ) → (between b'A' b'Z' c || between b'a' b'z' c || c == b'_') ≡ true → is_space c ≡ false
unfolding is_space
first_char_unspaced c h = ground arith

user_unspaced : (s : Text) → is_user_part s ≡ true → any is_space s ≡ false
unfolding is_user_part
user_unspaced [] h = cc
user_unspaced (c ∷ cs) h =
    let (here, later) = and-eq-true _ _ h in
    rw (first_char_unspaced c here, all-unspaced is_user_char user_char_unspaced cs later) refl

valid_trimmed : (t : RecentTarget) → valid_recent_target t ≡ true → trimmed t ≡ t
unfolding valid_recent_target trimmed is_host_part
valid_trimmed t h =
    let host_ok : all is_host_char t.host ≡ true = ground arith in
    let user_ok : is_user_part t.user ≡ true = ground arith in
    let host_same =
      trim_space_unspaced t.host (all-unspaced is_host_char host_char_unspaced t.host host_ok) in
    let user_same = trim_space_unspaced t.user (user_unspaced t.user user_ok) in
    λ i. record t { host = host_same i; user = user_same i }

-- The items that `t` stands before in the sorted list.
abbrev Newest : RecentTarget → List RecentTarget → Type 0
Newest t = All (λ v. stands_before t v ≡ true)

round_new : (t : RecentTarget) → valid_recent_target t ≡ true → round t [] ≡ (t ∷ [], false)
unfolding round is_seen
round_new t h = rw h refl

insert-Newest :
    (t : RecentTarget) (vs : List RecentTarget) → Newest t vs → insert stands_before t vs ≡ t ∷ vs
unfolding insert
insert-Newest t [] h = refl
insert-Newest t (v ∷ vs) h = rw h.0 refl

pub insert-All :
    (P : RecentTarget → Type 0) (v : RecentTarget) (vs : List RecentTarget)
    → P v
    → All P vs
    → All P (insert stands_before v vs)
unfolding insert
insert-All P v [] h k = (h, tt)
insert-All P v (w ∷ vs) h k = elim (Bool-cases (stands_before v w)) [
  | inl e ↦ rw e (h, k)
  | inr e ↦ rw e (k.0, insert-All P v vs h k.1)
]

sort-All :
    (P : RecentTarget → Type 0) (vs : List RecentTarget) → All P vs → All P (sort stands_before vs)
unfolding sort
sort-All P [] h = tt
sort-All P (v ∷ vs) h = insert-All P v _ h.0 (sort-All P vs h.1)

round-first :
    (v t : RecentTarget) (result : List RecentTarget)
    → (rest : List RecentTarget) × ((round v (t ∷ result)).0 ≡ t ∷ rest)
unfolding round
round-first v t result = elim (Bool-cases (not (valid_recent_target v) || is_seen v (t ∷ result))) [
  | inl skip ↦ rw skip (result, refl)
  | inr keep_it ↦ rw keep_it (result ++ v ∷ [], refl)
]

without_key-All :
    (P : RecentTarget → Type 0) (key : Text) (vs : List RecentTarget)
    → All P vs
    → All P (without_key key vs)
unfolding without_key
without_key-All P key [] h = tt
without_key-All P key (v ∷ vs) h = elim (Bool-cases (text_eq (recent_target_key v) key)) [
  | inl e ↦ rw e (without_key-All P key vs h.1)
  | inr e ↦ rw e (h.0, without_key-All P key vs h.1)
]

-- Once the result has a first target, it stays the first one.
collect-first :
    (vs : List RecentTarget) (t : RecentTarget) (result : List RecentTarget)
    → (rest : List RecentTarget) × (collect vs (t ∷ result) ≡ t ∷ rest)
unfolding collect
collect-first [] t result = (result, refl)
collect-first (v ∷ vs) t result =
    let (rest, q) = round-first (trimmed v) t result in
    elim (Bool-cases (round (trimmed v) (t ∷ result)).1) [
      | inl stop ↦ rw stop (rest, q)
      | inr more ↦ rw (more, q) (collect-first vs t rest)
    ]

Newest-first :
    (t : RecentTarget) (vs : List RecentTarget)
    → valid_recent_target t ≡ true
    → Newest t vs
    → (rest : List RecentTarget) × (normalize_recent_targets (t ∷ vs) ≡ t ∷ rest)
unfolding normalize_recent_targets sort collect
Newest-first t vs h k =
    rw
      (
        insert-Newest t (sort stands_before vs) (sort-All (λ v. stands_before t v ≡ true) vs k),
        valid_trimmed t h,
      )
      (alone (sort stands_before vs))
  where
    alone :
        (ws : List RecentTarget)
        → (rest : List RecentTarget) × ((if (round t []).1
              then (round t []).0
              else collect ws (round t []).0)
            ≡ t ∷ rest)
    alone ws = rw (round_new t h) (collect-first ws t [])

-- A valid target that is remembered at an instant that is not before those of the list is the first
-- one of the list that is saved.
pub remembered-first :
    (now : ℕ) (target : RecentTarget) (values : List RecentTarget)
    → valid_recent_target target ≡ true
    → All (λ v. leb v.last_used now ≡ true) values
    → (rest : List RecentTarget) × (normalize_recent_targets (remembered now target values)
        ≡ record target { last_used = now } ∷ rest)
unfolding remembered stands_before valid_recent_target
remembered-first now target values h k =
    Newest-first (record target { last_used = now }) _ h (without_key-All _ _ values k)
