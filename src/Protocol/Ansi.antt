-- ===== src/Protocol/Ansi.antt =====
-- stripANSI of parsers.go.
pub mod Laws
use proxy_node_assistant.Prelude.{
  ◌||◌, Bool, [], between, if◌then◌else◌, suc, zero, ℕ, ◌&&◌, ◌+◌, ◌-◌, ◌==◌, ◌∷◌,
}
use proxy_node_assistant.Text.{Text}

abbrev is_parameter : ℕ → Bool
is_parameter c = between b'0' b'9' c || c == b';' || c == b'?'

-- The count of code points up to the end of the sequence, or 0 if the pattern does not match:
-- the pattern's `[ -/]*[@-~]`.
intermediates : ℕ → Text → ℕ
intermediates n [] = 0
intermediates n (c ∷ cs) =
    let rest = intermediates (n + 1) cs in
    if between b' ' b'/' c then rest else if between b'@' b'~' c then n + 1 else 0

-- The pattern's `[0-9;?]*[ -/]*[@-~]`. The classes are disjoint, so nothing is tried twice.
parameters : ℕ → Text → ℕ
unfolding intermediates
parameters n [] = 0
parameters n (c ∷ cs) =
    let rest = parameters (n + 1) cs in if is_parameter c then rest else intermediates n (c ∷ cs)

-- The length of the match of `\x1b\[[0-9;?]*[ -/]*[@-~]` at the start of the text, or 0.
unfoldable pub ansi_match : Text → ℕ
unfolding parameters
ansi_match (c ∷ d ∷ cs) = if c == 0x1b && d == b'[' then parameters 2 cs else 0
ansi_match _ = 0

-- `ReplaceAllString(value, "")`, with the count of code points that are still to be dropped.
unfoldable pub strip_from : ℕ → Text → Text
unfolding ansi_match
strip_from n [] = []
strip_from zero (c ∷ cs) =
    let n = ansi_match (c ∷ cs) in
    let rest = strip_from (n - 1) cs in if n == 0 then c ∷ rest else rest
strip_from (suc n) (c ∷ cs) = strip_from n cs

unfoldable pub strip_ansi : Text → Text
unfolding strip_from
strip_ansi = strip_from 0
