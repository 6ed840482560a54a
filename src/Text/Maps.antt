-- ===== src/Text/Maps.antt =====
-- `map[string]string`: a list of pairs in which the first pair of a key counts.
use proxy_node_assistant.Prelude.{
  ◌≡◌, refl, List, [], ◌∷◌, Option, none, some, arith, if◌then◌else◌,
}
use proxy_node_assistant.Text.Basic.{Text, text_eq, text_eq_iff, or_else}

abbrev pub Fields : Type 0
Fields = List (Text × Text)

-- `value, ok := m[key]`
unfoldable pub find : Text → Fields → Option Text
unfolding text_eq
find k [] = none
find k ((j, v) ∷ m) = if text_eq j k then some v else find k m

-- `m[key]`, which is the empty string for a missing key.
unfoldable pub get : Text → Fields → Text
unfolding find
get k m = or_else [] (find k m)

-- `m[key] = value`
unfoldable pub put : Text → Text → Fields → Fields
unfolding text_eq
put k v [] = (k, v) ∷ []
put k v ((j, w) ∷ m) = if text_eq j k then (j, v) ∷ m else (j, w) ∷ put k v m

pub find-put :
    (k j v : Text) (m : Fields) → find j (put k v m) ≡ (if text_eq k j then some v else find j m)
unfolding find put
find-put k j v [] = refl
find-put k j v ((i, w) ∷ m) =
    ground (arith, text_eq_iff k j, text_eq_iff i k, text_eq_iff i j, find-put k j v m)
