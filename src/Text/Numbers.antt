-- ===== src/Text/Numbers.antt =====
-- `strconv.Atoi`, `strconv.ParseUint`, `strconv.ParseBool` and `strconv.Itoa`.
use proxy_node_assistant.Prelude.{
  ℕ, zero, suc, ◌+◌, ◌-◌, ◌*◌, ◌/◌, ◌%◌, ◌^◌, ◌≤◌, ◌≡◌, refl, Bool, true, false, [], ◌∷◌, Option,
  none, some, arith, ◌==◌, leb, between, all, any, if◌then◌else◌,
}
use proxy_node_assistant.Text.Basic.{Text, codes, text_eq}

abbrev pub is_digit : ℕ → Bool
is_digit = between b'0' b'9'

-- `negsuc n` is -(n + 1).
pub data ℤ : Type 0 where
  pos : ℕ → ℤ
  negsuc : ℕ → ℤ

unfoldable pub decimal_from : ℕ → Text → ℕ
decimal_from n [] = n
decimal_from n (c ∷ cs) = decimal_from (n * 10 + (c - b'0')) cs

-- A non-empty run of digits, as a number.
unfoldable pub parse_digits : Text → Option ℕ
unfolding decimal_from
parse_digits [] = none
parse_digits (c ∷ cs) = if all is_digit (c ∷ cs) then some (decimal_from 0 (c ∷ cs)) else none

abbrev positive : Option ℕ → Option ℤ
positive none = none
positive (some n) = if leb (2 ^ 63) n then none else some (pos n)

abbrev negative : Option ℕ → Option ℤ
negative none = none
negative (some zero) = some (pos 0)
negative (some (suc n)) = if leb (2 ^ 63) n then none else some (negsuc n)

-- `strconv.Atoi` on a 64-bit machine; `none` is an error.
unfoldable pub atoi : Text → Option ℤ
unfolding parse_digits
atoi [] = none
atoi (c ∷ cs) =
    if c == b'-'
    then negative (parse_digits cs)
    else if c == b'+'
    then positive (parse_digits cs)
    else positive (parse_digits (c ∷ cs))

-- An accepted number with `lo <= n && n <= hi`.
abbrev pub within : ℕ → ℕ → Option ℤ → Option ℕ
within lo hi (some (pos n)) = if between lo hi n then some n else none
within lo hi _ = none

pub within_bounds :
    (lo hi : ℕ) (o : Option ℤ) {n : ℕ} → within lo hi o ≡ some n → (lo ≤ n) × (n ≤ hi)
within_bounds lo hi (some (pos m)) h = ground arith
within_bounds lo hi (some (negsuc m)) h = cc
within_bounds lo hi none h = cc

abbrev below : ℕ → Option ℕ → Option ℕ
below bound none = none
below bound (some n) = if leb bound n then none else some n

-- `strconv.ParseUint(part, 10, 32)`
unfoldable pub parse_uint32 : Text → Option ℕ
unfolding parse_digits
parse_uint32 s = below (2 ^ 32) (parse_digits s)

-- `strconv.ParseBool`
unfoldable pub parse_bool : Text → Option Bool
unfolding text_eq
parse_bool s =
    if any (text_eq s)
      (codes "1" ∷ codes "t" ∷ codes "T" ∷ codes "TRUE" ∷ codes "true" ∷ codes "True" ∷ [])
    then some true
    else if any (text_eq s)
        (codes "0" ∷ codes "f" ∷ codes "F" ∷ codes "FALSE" ∷ codes "false" ∷ codes "False" ∷ [])
    then some false
    else none

decimal : ℕ → ℕ → Text → Text
decimal zero n acc = acc
decimal (suc fuel) n acc =
    let digit = b'0' + n % 10 in
    let rest = decimal fuel (n / 10) (digit ∷ acc) in if leb 10 n then rest else digit ∷ acc

-- `strconv.Itoa` and `%d` for numbers below 10 ^ 20, which covers the 64-bit ones.
unfoldable pub itoa : ℕ → Text
unfolding decimal
itoa n = decimal 20 n []

-- `%t`
unfoldable pub format_bool : Bool → Text
format_bool b = if b then codes "true" else codes "false"

numbers_test :
    (atoi (codes "-0") ≡ some (pos 0))
    × (atoi (codes "32443") ≡ some (pos 32443))
    × (atoi (codes "1x") ≡ none)
    × (itoa 32443 ≡ codes "32443")
unfolding atoi itoa
numbers_test = (refl, refl, refl, refl)
