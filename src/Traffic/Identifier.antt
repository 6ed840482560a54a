-- ===== src/Traffic/Identifier.antt =====
-- The form of the ids that normalizeTrafficID of traffic.go makes.
use proxy_node_assistant.Prelude.{
  Bool, Bool-cases, [], all, and-eq-true, arith, false, if◌then◌else◌, inl, inr, is_empty, length,
  ltb, not, refl, suc, take, true, zero, ℕ, ◌&&◌, ◌∷◌, ◌≡◌, ◌≤◌,
}
use proxy_node_assistant.Text.{Text, to_lower, trim_left, trim_right, trim_space}
use proxy_node_assistant.Traffic.{dashed, is_edge, is_id_char, normalize_traffic_id}

all-if :
    (p : ℕ → Bool) (b : Bool) (s t : Text)
    → all p s ≡ true
    → all p t ≡ true
    → all p (if b then s else t) ≡ true
all-if p true s t h k = h
all-if p false s t h k = k

dashed-all : (inside : Bool) (s : Text) → all is_id_char (dashed inside s) ≡ true
unfolding dashed
dashed-all inside [] = refl
dashed-all inside (c ∷ cs) =
    let later = dashed-all (not (is_id_char c)) cs in
    elim (Bool-cases (is_id_char c)) [
      | inl e ↦ rw e (rw (e, rw e at later) refl)
      | inr e ↦ rw e (
          all-if is_id_char inside (dashed true cs) (b'-' ∷ dashed true cs) (rw e at later)
            (rw e at later))
    ]

trim_left-all : (p q : ℕ → Bool) (s : Text) → all q s ≡ true → all q (trim_left p s) ≡ true
unfolding trim_left
trim_left-all p q [] h = refl
trim_left-all p q (c ∷ cs) h =
    all-if q (p c) (trim_left p cs) (c ∷ cs)
      (trim_left-all p q cs (and-eq-true (q c) (all q cs) h).1) h

trim_right-all : (p q : ℕ → Bool) (s : Text) → all q s ≡ true → all q (trim_right p s) ≡ true
unfolding trim_right
trim_right-all p q [] h = refl
trim_right-all p q (c ∷ cs) h =
    let (here, later) = and-eq-true (q c) (all q cs) h in
    all-if q (is_empty (trim_right p cs) && p c) [] (c ∷ trim_right p cs) refl
      (rw (here, trim_right-all p q cs later) refl)

take-all : (q : ℕ → Bool) (n : ℕ) (s : Text) → all q s ≡ true → all q (take n s) ≡ true
take-all q zero s h = refl
take-all q (suc n) [] h = refl
take-all q (suc n) (c ∷ cs) h =
    let (here, later) = and-eq-true (q c) (all q cs) h in rw (here, take-all q n cs later) refl

length-take : (n : ℕ) (s : Text) → length (take n s) ≤ n
length-take zero s = omega arith
length-take (suc n) [] = omega arith
length-take (suc n) (c ∷ cs) = omega (arith, length-take n cs)

-- The first character, if there is one, is no dash, dot or underscore.
abbrev pub begins_plain : Text → Bool
begins_plain [] = true
begins_plain (c ∷ cs) = not (is_edge c)

trim_left-begins_plain : (s : Text) → begins_plain (trim_left is_edge s) ≡ true
unfolding trim_left
trim_left-begins_plain [] = refl
trim_left-begins_plain (c ∷ cs) = elim (Bool-cases (is_edge c)) [
  | inl e ↦ rw e (trim_left-begins_plain cs)
  | inr e ↦ rw e (rw e refl)
]

trim_right-begins_plain :
    (s : Text) → begins_plain s ≡ true → begins_plain (trim_right is_edge s) ≡ true
unfolding trim_right
trim_right-begins_plain [] h = refl
trim_right-begins_plain (c ∷ cs) h =
    elim (Bool-cases (is_empty (trim_right is_edge cs) && is_edge c)) [
      | inl e ↦ rw e refl
      | inr e ↦ rw e h
    ]

take-begins_plain : (n : ℕ) (s : Text) → begins_plain s ≡ true → begins_plain (take n s) ≡ true
take-begins_plain zero s h = refl
take-begins_plain (suc n) [] h = refl
take-begins_plain (suc n) (c ∷ cs) h = h

pub record IsTrafficId (s : Text) : Type 0 where
  pub bounded : length s ≤ 64
  pub plain : all is_id_char s ≡ true
  pub begins : begins_plain s ≡ true

shortened-IsTrafficId :
    (s : Text)
    → all is_id_char s ≡ true
    → begins_plain s ≡ true
    → IsTrafficId (if ltb 64 (length s) then take 64 s else s)
shortened-IsTrafficId s a b = elim (Bool-cases (ltb 64 (length s))) [
  | inl e ↦ rw e (record {
    bounded = length-take 64 s;
    plain = take-all is_id_char 64 s a;
    begins = take-begins_plain 64 s b;
  })
  | inr e ↦ rw e (record { bounded = ground arith; plain = a; begins = b })
]

-- An id has at most 64 characters, all of them from a-z, 0-9, dot, underscore and dash, and does not
-- begin with one of the last three.
pub normalize_traffic_id-IsTrafficId : (value : Text) → IsTrafficId (normalize_traffic_id value)
unfolding normalize_traffic_id
normalize_traffic_id-IsTrafficId value =
    let text = dashed false (to_lower (trim_space value)) in
    let left = trim_left is_edge text in
    shortened-IsTrafficId (trim_right is_edge left)
      (trim_right-all is_edge is_id_char left
        (trim_left-all is_edge is_id_char text (dashed-all false (to_lower (trim_space value)))))
      (trim_right-begins_plain left (trim_left-begins_plain text))
