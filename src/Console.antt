-- ===== src/Console.antt =====
-- main.go: `App.prompt`, `App.required` and `App.yes`, on the operator's standard input.
use proxy_node_assistant.Prelude.{
  refl, ◌⊎◌, Bool-cases, ap, arith, inl, inr, Bool, List, Option, [], false, if◌then◌else◌,
  is_empty, length, none, some, ◌<◌, ◌||◌, ◌∷◌, ◌≡◌,
}
use proxy_node_assistant.Text.{Text, codes, text_eq, to_lower, trim_space}

-- The lines of standard input that are not read yet. Past the last one the input is closed. A last
-- line without a line feed is a line, unless it is blank.
abbrev pub Input : Type 0
Input = List Text

-- `none` means that `inputClosed` is set.
unfoldable pub prompt : Input → Option (Text × Input)
unfolding trim_space
prompt [] = none
prompt (line ∷ input) = some (trim_space line, input)

abbrev pub kept {ℓ} : {A : Type ℓ} → Option A → Input → Option (A × Input) → Option (A × Input)
kept (some a) input later = some (a, input)
kept none input later = later

-- A loop that asks with `required` until it accepts an answer: `required` asks again on a blank one,
-- and the loop on one that is refused. `none` is `errInputClosed`.
unfoldable pub required_until {ℓ} : {A : Type ℓ} → (Text → Option A) → Input → Option (A × Input)
unfolding trim_space
required_until accept [] = none
required_until accept (line ∷ input) =
    let value = trim_space line in
    let later = required_until accept input in
    if is_empty value then later else kept (accept value) input later

abbrev affirmed : Bool → Text → Bool
unfolding text_eq
affirmed default_yes value =
    if is_empty value
    then default_yes
    else text_eq value (codes "y") || text_eq value (codes "yes") || text_eq value (codes "是")

-- `yes`; a closed input is a refusal.
unfoldable pub yes_answer : Bool → Option (Text × Input) → Bool
unfolding to_lower trim_space text_eq
yes_answer default_yes none = false
yes_answer default_yes (some (value, input)) = affirmed default_yes (to_lower (trim_space value))

kept-eq-some {ℓ} :
    {A : Type ℓ} (o : Option A) (input : Input) (later : Option (A × Input)) {a : A} {rest : Input}
    → kept o input later ≡ some (a, rest)
    → ((o ≡ none) × (later ≡ some (a, rest))) ⊎ ((o ≡ some a) × (input ≡ rest))
kept-eq-some none input later h = inl (refl, h)
kept-eq-some (some b) input later h = inr (cc, cc)

-- What a loop accepts passed its test, and a line was read for it.
pub required_until-accepts {ℓ} :
    {A : Type ℓ} (accept : Text → Option A) (input : Input) {a : A} {rest : Input}
    → required_until accept input ≡ some (a, rest)
    → (value : Text) × (accept value ≡ some a) × (length rest < length input)
unfolding required_until
required_until-accepts accept [] h = cc
required_until-accepts accept (line ∷ input) h =
    let later = required_until-accepts accept input in
    elim (Bool-cases (is_empty (trim_space line))) [
      | inl blank ↦ let (value, taken, read) = later (rw blank at h) in (value, taken, omega arith)
      | inr given ↦ elim (kept-eq-some (accept (trim_space line)) input _ (rw given at h)) [
        | inl (e, k) ↦ let (value, taken, read) = later k in (value, taken, omega arith)
        | inr (e, k) ↦ (trim_space line, e, omega (arith, ap length k))
      ]
    ]
