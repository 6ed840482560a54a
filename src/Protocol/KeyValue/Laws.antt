-- ===== src/Protocol/KeyValue/Laws.antt =====
-- What parseKV finds: the last line of a key counts.
use proxy_node_assistant.Prelude.{
  Option-cases, inl, inr, List, Option, [], arith, if◌then◌else◌, none, refl, some, sym, true, ◌∙◌,
  ◌∷◌, ◌≡◌,
}
use proxy_node_assistant.Text.{text_eq_iff, Fields, Text, find, find-put, lines_of, text_eq}
use proxy_node_assistant.Protocol.KeyValue.{is_key, entry_of, store, parse_lines, parse_kv}

-- The value that a line gives to the key `k`.
abbrev pub value_for : Text → Option (Text × Text) → Option Text
value_for k none = none
value_for k (some (j, v)) = if text_eq j k then some v else none

abbrev pub or_earlier : Option Text → Option Text → Option Text
or_earlier (some v) earlier = some v
or_earlier none earlier = earlier

-- The value of the last line that has the key `k`.
abbrev pub last_value : Text → List Text → Option Text
last_value k [] = none
last_value k (raw ∷ rest) = or_earlier (last_value k rest) (value_for k (entry_of raw))

pub or_earlier_assoc :
    (a b c : Option Text) → or_earlier (or_earlier a b) c ≡ or_earlier a (or_earlier b c)
or_earlier_assoc (some v) b c = refl
or_earlier_assoc none b c = refl

pub or_earlier-none : (a : Option Text) → or_earlier a none ≡ a
or_earlier-none (some v) = refl
or_earlier-none none = refl

pub find-store :
    (k : Text) (e : Option (Text × Text)) (m : Fields)
    → find k (store e m) ≡ or_earlier (value_for k e) (find k m)
find-store k none m = refl
find-store k (some (j, v)) m = find-put j k v m ∙ ground arith

find-parse_lines :
    (k : Text) (ls : List Text) (m : Fields)
    → find k (parse_lines ls m) ≡ or_earlier (last_value k ls) (find k m)
unfolding parse_lines
find-parse_lines k [] m = refl
find-parse_lines k (raw ∷ rest) m =
    find-parse_lines k rest (store (entry_of raw) m)
    ∙ rw (find-store k (entry_of raw) m) (sym (or_earlier_assoc (last_value k rest) _ _))

-- The map holds for each key the value of the last line that has the key, and nothing else.
pub find-parse_kv : (k value : Text) → find k (parse_kv value) ≡ last_value k (lines_of value)
unfolding parse_kv find
find-parse_kv k value = find-parse_lines k (lines_of value) [] ∙ or_earlier-none _

entry_of-is_key : (raw : Text) {k v : Text} → entry_of raw ≡ some (k, v) → is_key k ≡ true
unfolding entry_of
entry_of-is_key raw h = ground arith

value_for-is_key : (k raw : Text) {v : Text} → value_for k (entry_of raw) ≡ some v → is_key k ≡ true
value_for-is_key k raw h = elim (Option-cases (entry_of raw)) [
  | inl e ↦ cc (rw e at h)
  | inr ((j, w), e) ↦ ground (arith, entry_of-is_key raw {k = j} {v = w} e, text_eq_iff j k)
]

last_value-is_key :
    (k : Text) (ls : List Text) {v : Text} → last_value k ls ≡ some v → is_key k ≡ true
last_value-is_key k [] h = cc
last_value-is_key k (raw ∷ rest) h = elim (Option-cases (last_value k rest)) [
  | inl e ↦ value_for-is_key k raw (rw e at h)
  | inr (w, e) ↦ last_value-is_key k rest e
]

-- Every key of the map is an upper-case identifier: a letter, then letters, digits or underscores.
pub parse_kv-is_key :
    (k value : Text) {v : Text} → find k (parse_kv value) ≡ some v → is_key k ≡ true
parse_kv-is_key k value h = last_value-is_key k (lines_of value) (sym (find-parse_kv k value) ∙ h)
