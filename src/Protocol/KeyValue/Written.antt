-- ===== src/Protocol/KeyValue/Written.antt =====
-- What parseKV reads from the lines that the program wrote.
use proxy_node_assistant.Protocol.KeyValue.{
  keyed, is_upper, parse_kv, entry_of, is_key, is_key_char,
}
use proxy_node_assistant.Prelude.{
  All, ap, map, ◌∙◌, Option, [], all, and-eq-true, any, any-append, arith, false, none, refl, some,
  true, ℕ, ◌++◌, ◌==◌, ◌∷◌, ◌≡◌,
}
use proxy_node_assistant.Protocol.KeyValue.Laws.{find-parse_kv, last_value, or_earlier, value_for}
use proxy_node_assistant.Text.{
  codes, cut-append, find, has_prefix, lines_of-terminated, terminated, trim_space_unspaced, upper,
  Fields, Text, has_code, is_space, text_eq, to_upper,
}

-- `key=value`
abbrev pub field_line : Text × Text → Text
field_line (key, value) = key ++ (b'=' ∷ value)

-- The value that the last field of a key has.
abbrev pub find_last : Text → Fields → Option Text
unfolding text_eq
find_last k [] = none
find_last k (field ∷ fields) = or_earlier (find_last k fields) (value_for k (some field))

-- A field that can be written: the key is an identifier, and the value has no space.
abbrev pub IsWritable : Text × Text → Type 0
IsWritable (key, value) = (is_key key ≡ true) × (any is_space value ≡ false)

key_char_upper : (c : ℕ) → is_key_char c ≡ true → upper c ≡ c
unfolding upper
key_char_upper c h = ground arith

key_char_unspaced : (c : ℕ) → is_key_char c ≡ true → (is_space c ≡ false) × ((c == b'=') ≡ false)
unfolding is_space
key_char_unspaced c h = ground arith

record IsPlainKey (key : Text) : Type 0 where
  upper : to_upper key ≡ key
  unspaced : any is_space key ≡ false
  uncut : has_code b'=' key ≡ false

key_chars-IsPlainKey : (key : Text) → all is_key_char key ≡ true → IsPlainKey key
unfolding to_upper has_code
key_chars-IsPlainKey [] h = record { upper = refl; unspaced = refl; uncut = refl }
key_chars-IsPlainKey (c ∷ cs) h =
    let (here, later) = and-eq-true (is_key_char c) _ h in
    let rest = key_chars-IsPlainKey cs later in
    let (no_space, no_equals) = key_char_unspaced c here in
    record {
      upper = λ i. key_char_upper c here i ∷ rest.upper i;
      unspaced = rw (no_space) rest.unspaced;
      uncut = rw (no_equals) rest.uncut;
    }

is_key-IsPlainKey : (key : Text) → is_key key ≡ true → IsPlainKey key
unfolding is_key
is_key-IsPlainKey [] h = cc
is_key-IsPlainKey (c ∷ cs) h = key_chars-IsPlainKey (c ∷ cs) (ground arith)

any-append_false :
    (s t : Text) → any is_space s ≡ false → any is_space t ≡ false → any is_space (s ++ t) ≡ false
any-append_false s t h k = rw (any-append is_space s t, h, k)

begins_upper : (c : ℕ) (s : Text) → is_upper c ≡ true → has_prefix (codes "#") (c ∷ s) ≡ false
unfolding has_prefix
begins_upper c s h = ground arith

field_line_unspaced :
    (field : Text × Text) → IsWritable field → any is_space (field_line field) ≡ false
unfolding is_space
field_line_unspaced (key, value) (k, v) =
    any-append_false key (b'=' ∷ value) (is_key-IsPlainKey key k).unspaced (rw v refl)

keyed_lem :
    (key value : Text)
    → is_key key ≡ true
    → any is_space value ≡ false
    → keyed (some (key, value)) ≡ some (key, value)
keyed_lem key value k v =
    let plain = is_key-IsPlainKey key k in
    rw (trim_space_unspaced key plain.unspaced, plain.upper, k, trim_space_unspaced value v) refl

is_key-first : (c : ℕ) (cs : Text) → is_key (c ∷ cs) ≡ true → is_upper c ≡ true
unfolding is_key
is_key-first c cs k = (and-eq-true (is_upper c) _ k).0

not-is_key-empty : is_key [] ≡ true → ⊥
unfolding is_key
not-is_key-empty k = cc

entry_of-field_line :
    (field : Text × Text) → IsWritable field → entry_of (field_line field) ≡ some field
unfolding entry_of
entry_of-field_line ([], value) (k, v) = absurd (not-is_key-empty k)
entry_of-field_line (c ∷ cs, value) (k, v) =
    let same =
      trim_space_unspaced (field_line (c ∷ cs, value))
        (field_line_unspaced (c ∷ cs, value) (k, v)) in
    let uncut = (is_key-IsPlainKey (c ∷ cs) k).uncut in
    rw
      (
        same,
        begins_upper c (cs ++ (b'=' ∷ value)) (is_key-first c cs k),
        cut-append b'=' (c ∷ cs) value uncut,
      )
      (keyed_lem (c ∷ cs) value k v)

-- Fields that were written are read back: for a key, the value of the last field that has it.
last_value-field_lines :
    (k : Text) (fields : Fields)
    → All IsWritable fields
    → last_value k (map field_line fields ++ [] ∷ []) ≡ find_last k fields
unfolding entry_of find_last
last_value-field_lines k [] h = refl
last_value-field_lines k (field ∷ fields) (here, later) =
    rw (last_value-field_lines k fields later, entry_of-field_line field here) refl

field_lines_unspaced :
    (fields : Fields)
    → All IsWritable fields
    → All (λ l. any is_space l ≡ false) (map field_line fields)
field_lines_unspaced [] h = tt
field_lines_unspaced (field ∷ fields) (here, later) =
    (field_line_unspaced field here, field_lines_unspaced fields later)

-- The program writes fields as lines `key=value`. parseKV then finds for each key the value of the last
-- field that has the key.
pub find-written :
    (k : Text) (fields : Fields)
    → All IsWritable fields
    → find k (parse_kv (terminated (map field_line fields))) ≡ find_last k fields
find-written k fields h =
    find-parse_kv k _
    ∙ ap (last_value k)
        (lines_of-terminated (map field_line fields) (field_lines_unspaced fields h))
    ∙ last_value-field_lines k fields h
