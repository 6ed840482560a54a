-- ===== src/Protocol/KeyValue.antt =====
-- parseKV of parsers.go.
pub mod Laws
pub mod Written
use proxy_node_assistant.Prelude.{
  Bool, List, Option, [], all, between, false, if◌then◌else◌, is_empty, none, some, ℕ, ◌&&◌, ◌==◌,
  ◌||◌, ◌∷◌,
}
use proxy_node_assistant.Text.{
  Fields, Text, codes, cut, has_prefix, is_digit, lines_of, put, to_upper, trim_space,
}

abbrev is_upper : ℕ → Bool
is_upper = between b'A' b'Z'

abbrev is_key_char : ℕ → Bool
is_key_char c = is_upper c || is_digit c || c == b'_'

-- `^[A-Z][A-Z0-9_]*$`
unfoldable pub is_key : Text → Bool
is_key [] = false
is_key (c ∷ cs) = is_upper c && all is_key_char cs

abbrev keyed : Option (Text × Text) → Option (Text × Text)
keyed none = none
keyed (some (key, val)) =
    let name = to_upper (trim_space key) in
    if is_key name then some (name, trim_space val) else none

-- What one round of the loop stores, if it does not `continue`.
unfoldable pub entry_of : Text → Option (Text × Text)
unfolding trim_space has_prefix cut to_upper is_key
entry_of raw =
    let line = trim_space raw in
    if is_empty line || has_prefix (codes "#") line then none else keyed (cut b'=' line)

abbrev pub store : Option (Text × Text) → Fields → Fields
store none m = m
store (some (k, v)) m = put k v m

unfoldable pub parse_lines : List Text → Fields → Fields
unfolding entry_of put
parse_lines [] result = result
parse_lines (raw ∷ rest) result = parse_lines rest (store (entry_of raw) result)

unfoldable pub parse_kv : Text → Fields
unfolding lines_of parse_lines
parse_kv value = parse_lines (lines_of value) []
