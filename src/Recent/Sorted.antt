-- ===== src/Recent/Sorted.antt =====
-- The order in which normalizeRecentTargets of recent_targets.go leaves the list.
use proxy_node_assistant.Prelude.{
  All, Bool-cases, List, [], append_assoc, arith, false, inl, inr, not, refl, subst, sym, true,
  ◌++◌, ◌||◌, ◌∷◌, ◌≡◌, ◌⊎◌,
}
use proxy_node_assistant.Recent.{
  RecentTarget, collect, is_seen, normalize_recent_targets, round, stands_before, trimmed,
  valid_recent_target,
}
use proxy_node_assistant.Recent.Remember.{insert-All}
use proxy_node_assistant.Text.{insert, sort}

-- Each of the targets was used no earlier than those behind it.
abbrev pub IsNewestFirst : List RecentTarget → Type 0
IsNewestFirst [] = Unit {0}
IsNewestFirst (v ∷ vs) = All (λ w. stands_before v w ≡ true) vs × IsNewestFirst vs

All-first : (P : RecentTarget → Type 0) (xs ys : List RecentTarget) → All P (xs ++ ys) → All P xs
All-first P [] ys h = tt
All-first P (x ∷ xs) ys h = (h.0, All-first P xs ys h.1)

All-without :
    (P : RecentTarget → Type 0) (xs : List RecentTarget) (v : RecentTarget) (ys : List RecentTarget)
    → All P (xs ++ v ∷ ys)
    → All P (xs ++ ys)
All-without P [] v ys h = h.1
All-without P (x ∷ xs) v ys h = (h.0, All-without P xs v ys h.1)

All-replaced :
    (P : RecentTarget → Type 0) (xs : List RecentTarget) (v w : RecentTarget)
    (ys : List RecentTarget)
    → (P v → P w)
    → All P (xs ++ v ∷ ys)
    → All P (xs ++ w ∷ ys)
All-replaced P [] v w ys f h = (f h.0, h.1)
All-replaced P (x ∷ xs) v w ys f h = (h.0, All-replaced P xs v w ys f h.1)

IsNewestFirst-first : (xs ys : List RecentTarget) → IsNewestFirst (xs ++ ys) → IsNewestFirst xs
IsNewestFirst-first [] ys h = tt
IsNewestFirst-first (x ∷ xs) ys h = (All-first _ xs ys h.0, IsNewestFirst-first xs ys h.1)

IsNewestFirst-without :
    (xs : List RecentTarget) (v : RecentTarget) (ys : List RecentTarget)
    → IsNewestFirst (xs ++ v ∷ ys)
    → IsNewestFirst (xs ++ ys)
IsNewestFirst-without [] v ys h = h.1
IsNewestFirst-without (x ∷ xs) v ys h =
    (All-without _ xs v ys h.0, IsNewestFirst-without xs v ys h.1)

IsNewestFirst-trimmed :
    (xs : List RecentTarget) (v : RecentTarget) (ys : List RecentTarget)
    → IsNewestFirst (xs ++ v ∷ ys)
    → IsNewestFirst (xs ++ trimmed v ∷ ys)
unfolding trimmed stands_before
IsNewestFirst-trimmed [] v ys h = h
IsNewestFirst-trimmed (x ∷ xs) v ys h =
    (All-replaced _ xs v (trimmed v) ys (λ e. e) h.0, IsNewestFirst-trimmed xs v ys h.1)

stands_before_total : (a b : RecentTarget) → stands_before a b ≡ false → stands_before b a ≡ true
unfolding stands_before
stands_before_total a b h = ground arith

stands_before_trans :
    (a b c : RecentTarget)
    → stands_before a b ≡ true
    → stands_before b c ≡ true
    → stands_before a c ≡ true
unfolding stands_before
stands_before_trans a b c h k = ground arith

All-behind :
    (a b : RecentTarget) (vs : List RecentTarget)
    → stands_before a b ≡ true
    → All (λ w. stands_before b w ≡ true) vs
    → All (λ w. stands_before a w ≡ true) vs
All-behind a b [] h k = tt
All-behind a b (v ∷ vs) h k = (stands_before_trans a b v h k.0, All-behind a b vs h k.1)

insert-IsNewestFirst :
    (v : RecentTarget) (vs : List RecentTarget)
    → IsNewestFirst vs
    → IsNewestFirst (insert stands_before v vs)
unfolding insert
insert-IsNewestFirst v [] h = (tt, tt)
insert-IsNewestFirst v (w ∷ vs) h = elim (Bool-cases (stands_before v w)) [
  | inl e ↦ rw e ((e, All-behind v w vs e h.0), h)
  | inr e ↦ rw e (
    insert-All (λ x. stands_before w x ≡ true) v vs (stands_before_total v w e) h.0,
    insert-IsNewestFirst v vs h.1,
  )
]

sort-IsNewestFirst : (vs : List RecentTarget) → IsNewestFirst (sort stands_before vs)
unfolding sort
sort-IsNewestFirst [] = tt
sort-IsNewestFirst (v ∷ vs) = insert-IsNewestFirst v _ (sort-IsNewestFirst vs)

-- A round either leaves the result as it is or puts the value at its end.
pub round-cases :
    (v : RecentTarget) (result : List RecentTarget)
    → ((round v result).0 ≡ result) ⊎ ((round v result).0 ≡ result ++ v ∷ [])
unfolding round
round-cases v result = elim (Bool-cases (not (valid_recent_target v) || is_seen v result)) [
  | inl skip ↦ inl (rw skip refl)
  | inr keep_it ↦ inr (rw keep_it refl)
]

round-IsNewestFirst :
    (v : RecentTarget) (result vs : List RecentTarget)
    → IsNewestFirst (result ++ v ∷ vs)
    → IsNewestFirst ((round (trimmed v) result).0 ++ vs)
round-IsNewestFirst v result vs h = elim (round-cases (trimmed v) result) [
  | inl e ↦ rw e (IsNewestFirst-without result v vs h)
  | inr e ↦ rw e (
      subst IsNewestFirst (sym (append_assoc result (trimmed v ∷ []) vs))
        (IsNewestFirst-trimmed result v vs h))
]

collect-IsNewestFirst :
    (vs result : List RecentTarget)
    → IsNewestFirst (result ++ vs)
    → IsNewestFirst (collect vs result)
unfolding collect
collect-IsNewestFirst [] result h = IsNewestFirst-first result [] h
collect-IsNewestFirst (v ∷ vs) result h =
    let kept = round-IsNewestFirst v result vs h in
    elim (Bool-cases (round (trimmed v) result).1) [
      | inl full ↦ rw full (IsNewestFirst-first _ vs kept)
      | inr more ↦ rw more (collect-IsNewestFirst vs _ kept)
    ]

-- A normalized list has the targets that were used last in front: none of them was used earlier than
-- one behind it.
pub normalize_recent_targets-IsNewestFirst :
    (values : List RecentTarget) → IsNewestFirst (normalize_recent_targets values)
unfolding normalize_recent_targets
normalize_recent_targets-IsNewestFirst values =
    collect-IsNewestFirst (sort stands_before values) [] (sort-IsNewestFirst values)
