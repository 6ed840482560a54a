-- ===== src/Recent/Keep.antt =====
-- What the list of recent_targets.go keeps.
use proxy_node_assistant.Prelude.{
  if◌then◌else◌, All, All-append, Bool, Bool-cases, List, [], all, all-append, arith, false, inl,
  inr, length, length-append, not, not-eq-false, or-eq-false, refl, true, ◌++◌, ◌<◌, ◌==◌, ◌||◌,
  ◌∷◌, ◌≡◌, ◌≤◌,
}
use proxy_node_assistant.Recent.{
  RecentTarget, collect, is_seen, max_recent_targets, normalize_recent_targets, recent_target_key,
  round, trimmed, valid_recent_target,
}
use proxy_node_assistant.Text.{text_eq}

-- No two of the targets have the same key.
abbrev pub IsDistinct : List RecentTarget → Type 0
IsDistinct [] = Unit {0}
IsDistinct (v ∷ vs) =
    All (λ w. text_eq (recent_target_key v) (recent_target_key w) ≡ false) vs × IsDistinct vs

pub record IsRecent (vs : List RecentTarget) : Type 0 where
  pub bounded : length vs ≤ max_recent_targets
  pub valid : all valid_recent_target vs ≡ true
  pub distinct : IsDistinct vs

unseen :
    (v r : RecentTarget) (vs : List RecentTarget)
    → is_seen r (v ∷ vs) ≡ false
    → (text_eq (recent_target_key v) (recent_target_key r) ≡ false) × (is_seen r vs ≡ false)
unfolding is_seen
unseen v r vs h = or-eq-false _ _ h

IsDistinct-append :
    (vs : List RecentTarget) (r : RecentTarget)
    → IsDistinct vs
    → is_seen r vs ≡ false
    → IsDistinct (vs ++ r ∷ [])
IsDistinct-append [] r d h = (tt, tt)
IsDistinct-append (v ∷ vs) r (a, d) h =
    let new = unseen v r vs h in
    (All-append _ vs (r ∷ []) a (new.0, tt), IsDistinct-append vs r d new.1)

round-IsRecent :
    (v : RecentTarget) (vs : List RecentTarget)
    → IsRecent vs
    → length vs < max_recent_targets
    → IsRecent (round v vs).0
      × ((round v vs).1 ≡ false → length (round v vs).0 < max_recent_targets)
unfolding round
round-IsRecent v vs i short = go (not (valid_recent_target v) || is_seen v vs) refl
  where
    picked : Bool → List RecentTarget × Bool
    picked skip =
        if skip then (vs, false) else (vs ++ v ∷ [], length (vs ++ v ∷ []) == max_recent_targets)

    go :
        (skip : Bool)
        → (not (valid_recent_target v) || is_seen v vs) ≡ skip
        → IsRecent (picked skip).0
          × ((picked skip).1 ≡ false → length (picked skip).0 < max_recent_targets)
    go true h = (i, λ _. short)
    go false h =
        let new = or-eq-false _ _ h in
        (
          record {
            bounded = omega (arith, length-append vs (v ∷ []));
            valid = rw (all-append valid_recent_target vs (v ∷ [])) (
                let is_valid = not-eq-false {b = valid_recent_target v} new.0 in
                let others = i.valid in ground arith);
            distinct = IsDistinct-append vs v i.distinct new.1;
          },
          λ k. ground (arith, length-append vs (v ∷ [])),
        )

collect-IsRecent :
    (values result : List RecentTarget)
    → IsRecent result
    → length result < max_recent_targets
    → IsRecent (collect values result)
unfolding collect
collect-IsRecent [] result i short = i
collect-IsRecent (value ∷ values) result i short =
    let kept = round-IsRecent (trimmed value) result i short in
    elim (Bool-cases (round (trimmed value) result).1) [
      | inl full ↦ rw full kept.0
      | inr open_ ↦ rw open_ (collect-IsRecent values _ kept.0 (kept.1 open_))
    ]

-- A normalized list holds at most 20 targets, all of them valid, and no two with the same key.
pub normalize_recent_targets-IsRecent :
    (values : List RecentTarget) → IsRecent (normalize_recent_targets values)
unfolding normalize_recent_targets
normalize_recent_targets-IsRecent values =
    collect-IsRecent _ [] (record { bounded = omega arith; valid = refl; distinct = tt })
      (omega arith)
