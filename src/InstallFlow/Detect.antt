-- ===== src/InstallFlow/Detect.antt =====
-- install_flow.go: what the two probes of an existing node say.
use proxy_node_assistant.Text.{
  negsuc, pos, text_eq_iff, ℤ, trim_prefix, Text, atoi, codes, has_prefix, lines_of, text_eq,
  trim_space, within, within_bounds,
}
use proxy_node_assistant.Prelude.{
  Bool-cases, ap, ◌++◌, arith, subst, Bool, List, Option, Result, [], err, false, if◌then◌else◌,
  inl, inr, is_empty, none, not, ok, ok-injective, refl, some, some-injective, sym, true, ℕ, ◌+◌,
  ◌||◌, ◌∷◌, ◌≡◌, ◌≤◌, ◌⊎◌,
}

pub data DetectError : Type 0 where
  duplicate_markers invalid_port no_marker : DetectError

abbrev pub port_marker : Text
port_marker = codes "TNA_EXISTING_SS2022_PORT="

unfoldable pub is_port_line : Text → Bool
unfolding trim_space has_prefix
is_port_line raw = has_prefix port_marker (trim_space raw)

unfoldable pub marked_port : Text → Option ℕ
unfolding trim_space text_eq atoi
marked_port raw =
    let value = trim_space (trim_prefix port_marker (trim_space raw)) in
    if is_empty value || text_eq value (codes "0") then some 0 else within 1024 65535 (atoi value)

-- The loop of parseExistingSS2022Port, from the two variables on.
unfoldable pub detect_port : Bool → ℕ → List Text → Result DetectError ℕ
unfolding is_port_line marked_port
detect_port found selected [] = if not found then err no_marker else ok selected
detect_port found selected (raw ∷ lines) =
    let unmarked = detect_port found selected lines in
    if not (is_port_line raw)
    then unmarked
    else if found
    then err duplicate_markers
    else elim (marked_port raw) [
      | none ↦ err invalid_port
      | some port ↦ detect_port true port lines
    ]

unfoldable pub parse_existing_ss2022_port : Text → Result DetectError ℕ
unfolding detect_port lines_of
parse_existing_ss2022_port output = detect_port false 0 (lines_of output)

-- The first of the two markers decides; `none` is the error.
unfoldable pub existing_marker : List Text → Option Bool
unfolding trim_space text_eq
existing_marker [] = none
existing_marker (raw ∷ lines) =
    let later = existing_marker lines in
    if text_eq (trim_space raw) (codes "TNA_EXISTING_NODE=1")
    then some true
    else if text_eq (trim_space raw) (codes "TNA_EXISTING_NODE=0")
    then some false
    else later

-- How many lines have the marker of the port.
abbrev pub port_lines : List Text → ℕ
port_lines [] = 0
port_lines (raw ∷ lines) =
    let later = port_lines lines in if is_port_line raw then 1 + later else later

-- The text after the marker of a line.
abbrev pub port_value : Text → Text
port_value raw = trim_space (trim_prefix port_marker (trim_space raw))

-- What the text after the marker says: empty and "0" are no port, else it is a decimal number from 1024
-- to 65535.
abbrev pub IsValue : Text → ℕ → Type 0
IsValue value port =
    (((value ≡ []) ⊎ (value ≡ codes "0")) × (port ≡ 0))
    ⊎ ((atoi value ≡ some (pos port)) × (1024 ≤ port) × (port ≤ 65535))

-- The port was read from the one marked line of `lines`.
abbrev pub IsFrom : List Text → ℕ → Type 0
IsFrom lines port =
    (before : List Text) × (raw : Text) × (after : List Text) × (lines ≡ before ++ raw ∷ after)
    × (port_lines before ≡ 0)
    × (is_port_line raw ≡ true)
    × (port_lines after ≡ 0)
    × IsValue (port_value raw) port

is_empty-eq-true : (t : Text) → is_empty t ≡ true → t ≡ []
is_empty-eq-true [] h = refl
is_empty-eq-true (c ∷ t) h = cc

either_true : (a b : Bool) → (a || b) ≡ true → (a ≡ true) ⊎ (b ≡ true)
either_true true b h = inl refl
either_true false b h = inr h

within-eq-some : (lo hi : ℕ) (o : Option ℤ) {n : ℕ} → within lo hi o ≡ some n → o ≡ some (pos n)
within-eq-some lo hi (some (pos m)) h = ground arith
within-eq-some lo hi (some (negsuc m)) h = cc
within-eq-some lo hi none h = cc

marked_port_lem :
    (raw : Text) {port : ℕ} → marked_port raw ≡ some port → IsValue (port_value raw) port
unfolding marked_port
marked_port_lem raw {port} h =
    elim (Bool-cases (is_empty (port_value raw) || text_eq (port_value raw) (codes "0"))) [
      | inl nothing ↦ inl (
        elim (either_true _ _ nothing) [
          | inl e ↦ inl (is_empty-eq-true _ e)
          | inr e ↦ inr ((text_eq_iff _ _).0 e)
        ],
        sym (some-injective (rw nothing at h)),
      )
      | inr value ↦
          let found = rw value at h in
          let bounds = within_bounds 1024 65535 (atoi (port_value raw)) found in
          inr (within-eq-some 1024 65535 (atoi (port_value raw)) found, bounds.0, bounds.1)
    ]

-- After a port was found no other line may have the marker.
found_lem :
    (selected : ℕ) (lines : List Text) {port : ℕ}
    → detect_port true selected lines ≡ ok port
    → (port_lines lines ≡ 0) × (port ≡ selected)
unfolding detect_port
found_lem selected [] h = (refl, sym (ok-injective h))
found_lem selected (raw ∷ lines) {port} h = elim (Bool-cases (is_port_line raw)) [
  | inl marked ↦ cc (rw marked at h)
  | inr unmarked ↦ rw unmarked (found_lem selected lines (rw unmarked at h))
]

first_lem :
    (raw : Text) (lines : List Text) (o : Option ℕ) {port : ℕ}
    → is_port_line raw ≡ true
    → marked_port raw ≡ o
    → elim o [ none ↦ err invalid_port | some p ↦ detect_port true p lines ] ≡ ok port
    → IsFrom (raw ∷ lines) port
first_lem raw lines none marked e h = cc
first_lem raw lines (some p) marked e h =
    let (none_left, same) = found_lem p lines h in
    (
      [],
      raw,
      lines,
      refl,
      refl,
      marked,
      none_left,
      subst (IsValue (port_value raw)) (sym same) (marked_port_lem raw e),
    )

detect_port_lem :
    (selected : ℕ) (lines : List Text) {port : ℕ}
    → detect_port false selected lines ≡ ok port
    → IsFrom lines port
unfolding detect_port
detect_port_lem selected [] h = cc
detect_port_lem selected (raw ∷ lines) {port} h = elim (Bool-cases (is_port_line raw)) [
  | inl marked ↦ first_lem raw lines (marked_port raw) marked refl (rw marked at h)
  | inr unmarked ↦
      let (before, line, after, split, early, marked, late, value) =
        detect_port_lem selected lines (rw unmarked at h) in
      (raw ∷ before, line, after, ap (λ ls. raw ∷ ls) split, rw unmarked early, marked, late, value)
]

-- A port that is accepted was read from a line with the marker, and no line before or after it has the
-- marker: the text after it is empty or "0", which says that nothing listens, and the port is 0, or it
-- is the decimal number of the port, from 1024 to 65535.
pub parse_existing_ss2022_port_lem :
    (output : Text) {port : ℕ}
    → parse_existing_ss2022_port output ≡ ok port
    → (before : List Text) × (raw : Text) × (after : List Text) × (lines_of output
        ≡ before ++ raw ∷ after)
      × (port_lines before ≡ 0)
      × (is_port_line raw ≡ true)
      × (port_lines after ≡ 0)
      × IsValue (port_value raw) port
unfolding parse_existing_ss2022_port
parse_existing_ss2022_port_lem output h = detect_port_lem 0 (lines_of output) h
