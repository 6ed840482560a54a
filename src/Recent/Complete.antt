-- ===== src/Recent/Complete.antt =====
-- What the list of recent_targets.go does not lose.
use proxy_node_assistant.Prelude.{
  subst, All, Bool-cases, List, [], any-append, arith, inl, inr, length, not, refl, sym, true, ◌++◌,
  ◌<◌, ◌||◌, ◌∷◌, ◌≡◌,
}
use proxy_node_assistant.Recent.{
  RecentTarget, collect, is_seen, max_recent_targets, normalize_recent_targets, recent_target_key,
  round, stands_before, trimmed, valid_recent_target,
}
use proxy_node_assistant.Recent.Sorted.{round-cases}
use proxy_node_assistant.Text.{insert, sort, text_eq, text_eq_iff}

insert-All-back :
    (P : RecentTarget → Type 0) (v : RecentTarget) (vs : List RecentTarget)
    → All P (insert stands_before v vs)
    → P v × All P vs
unfolding insert
insert-All-back P v [] h = h
insert-All-back P v (w ∷ vs) h = elim (Bool-cases (stands_before v w)) [
  | inl e ↦ rw e at h
  | inr e ↦
      let later = rw e at h in
      let behind = insert-All-back P v vs later.1 in (behind.0, (later.0, behind.1))
]

sort-All-back :
    (P : RecentTarget → Type 0) (vs : List RecentTarget) → All P (sort stands_before vs) → All P vs
unfolding sort
sort-All-back P [] h = tt
sort-All-back P (v ∷ vs) h =
    let parts = insert-All-back P v _ h in (parts.0, sort-All-back P vs parts.1)

-- What is seen in a result is seen in a longer one.
is_seen-append :
    (w : RecentTarget) (result later : List RecentTarget)
    → is_seen w result ≡ true
    → is_seen w (result ++ later) ≡ true
unfolding is_seen
is_seen-append w result later h =
    rw (any-append (λ r. text_eq (recent_target_key r) (recent_target_key w)) result later, h) refl

is_seen-last : (w : RecentTarget) (result : List RecentTarget) → is_seen w (result ++ w ∷ []) ≡ true
unfolding is_seen
is_seen-last w result =
    rw
      (
        any-append (λ r. text_eq (recent_target_key r) (recent_target_key w)) result (w ∷ []),
        (text_eq_iff (recent_target_key w) (recent_target_key w)).1 refl,
      )
      (ground arith)

round-keeps :
    (w v : RecentTarget) (result : List RecentTarget)
    → is_seen w result ≡ true
    → is_seen w (round v result).0 ≡ true
round-keeps w v result h = elim (round-cases v result) [
  | inl e ↦ rw e h
  | inr e ↦ rw e (is_seen-append w result (v ∷ []) h)
]

collect-keeps :
    (w : RecentTarget) (vs result : List RecentTarget)
    → is_seen w result ≡ true
    → is_seen w (collect vs result) ≡ true
unfolding collect
collect-keeps w [] result h = h
collect-keeps w (v ∷ vs) result h =
    let kept = round-keeps w (trimmed v) result h in
    elim (Bool-cases (round (trimmed v) result).1) [
      | inl full ↦ rw full kept
      | inr more ↦ rw more (collect-keeps w vs _ kept)
    ]

round-takes :
    (v : RecentTarget) (result : List RecentTarget)
    → valid_recent_target v ≡ true
    → is_seen v (round v result).0 ≡ true
unfolding round
round-takes v result h = elim (Bool-cases (is_seen v result)) [
  | inl e ↦ rw (h, e) e
  | inr e ↦ rw (h, e) (is_seen-last v result)
]

-- A round ends the loop with a full result only.
round-full :
    (v : RecentTarget) (result : List RecentTarget)
    → (round v result).1 ≡ true
    → length (round v result).0 ≡ max_recent_targets
unfolding round
round-full v result h = elim (Bool-cases (not (valid_recent_target v) || is_seen v result)) [
  | inl skip ↦ let differ = rw skip at h in cc
  | inr keep_it ↦ rw keep_it (ground (arith, rw keep_it at h))
]

-- The key of the target is in the result, if the target is valid.
abbrev pub IsKept : List RecentTarget → RecentTarget → Type 0
IsKept result v = valid_recent_target (trimmed v) ≡ true → is_seen (trimmed v) result ≡ true

collect-IsKept :
    (vs result : List RecentTarget)
    → length (collect vs result) < max_recent_targets
    → All (IsKept (collect vs result)) vs
unfolding collect
collect-IsKept [] result h = tt
collect-IsKept (v ∷ vs) result h = elim (Bool-cases (round (trimmed v) result).1) [
  | inl full ↦
      let short = rw full at h in
      let is_full = round-full (trimmed v) result full in absurd (omega arith)
  | inr more ↦
      let next = (round (trimmed v) result).0 in
      let same : collect (v ∷ vs) result ≡ collect vs next = rw more refl in
      subst (λ r. All (IsKept r) (v ∷ vs)) (sym same)
        (
          (λ ok_v. collect-keeps (trimmed v) vs next (round-takes (trimmed v) result ok_v)),
          collect-IsKept vs next (rw more at h),
        )
]

-- If a normalized list has fewer than 20 targets, then each valid target of the given list has its key
-- in it, after its host and its user are trimmed.
pub normalize_recent_targets-IsKept :
    (values : List RecentTarget)
    → length (normalize_recent_targets values) < max_recent_targets
    → All (IsKept (normalize_recent_targets values)) values
unfolding normalize_recent_targets
normalize_recent_targets-IsKept values h =
    sort-All-back _ values (collect-IsKept (sort stands_before values) [] h)
