-- ===== src/Toolkit/Version.antt =====
-- compareToolkitVersions of parsers.go. Its results -1, 0 and 1 are `lt`, `eq` and `gt`.
pub mod Order
use proxy_node_assistant.Prelude.{
  Bool, List, Option, Result, [], all, between, err, if◌then◌else◌, is_empty, length, none, not, ok,
  refl, some, ℕ, ◌&&◌, ◌>>=◌, ◌>>◌, ◌∷◌, ◌≡◌,
}
use proxy_node_assistant.Text.{Text, codes, is_digit, parse_uint32, split, trim_prefix, trim_space}
use Prim.Native.Nat.{compare, Ordering, lt, eq, gt}

pub data VersionError : Type 0 where
  invalid_version : Text → VersionError

abbrev is_number : Text → Bool
is_number part = not (is_empty part) && all is_digit part

-- `toolkitVersionPattern`: `^v?[0-9]+(?:\.[0-9]+){1,3}$`
unfoldable pub matches_version : Text → Bool
unfolding split trim_prefix
matches_version s =
    let parts = split b'.' (trim_prefix (codes "v") s) in
    between 2 4 (length parts) && all is_number parts

abbrev prepend : Option ℕ → Option (List ℕ) → Option (List ℕ)
prepend (some n) (some ns) = some (n ∷ ns)
prepend _ _ = none

-- The loop over the parts; one that is no 32-bit number is an error.
unfoldable pub parse_parts : List Text → Option (List ℕ)
unfolding parse_uint32
parse_parts [] = some []
parse_parts (part ∷ parts) = prepend (parse_uint32 part) (parse_parts parts)

abbrev or_invalid : Text → Option (List ℕ) → Result VersionError (List ℕ)
or_invalid value none = err (invalid_version value)
or_invalid value (some ns) = ok ns

-- The function literal `parse`.
unfoldable pub parse_version : Text → Result VersionError (List ℕ)
unfolding trim_space trim_prefix matches_version split parse_parts
parse_version raw =
    let value = trim_prefix (codes "v") (trim_space raw) in
    if not (matches_version value)
    then err (invalid_version value)
    else or_invalid value (parse_parts (split b'.' value))

abbrev pub then_compare : Ordering → Ordering → Ordering
then_compare lt later = lt
then_compare gt later = gt
then_compare eq later = later

-- The loop up to the longer width, in which a missing part is 0.
unfoldable pub compare_parts : List ℕ → List ℕ → Ordering
compare_parts [] [] = eq
compare_parts [] (r ∷ right) = then_compare (compare 0 r) (compare_parts [] right)
compare_parts (l ∷ left) [] = then_compare (compare l 0) (compare_parts left [])
compare_parts (l ∷ left) (r ∷ right) = then_compare (compare l r) (compare_parts left right)

unfoldable pub compare_toolkit_versions : Text → Text → Result VersionError Ordering
unfolding parse_version compare_parts
compare_toolkit_versions left right = do
  left_parts ← parse_version left
  right_parts ← parse_version right
  ok (compare_parts left_parts right_parts)

version_tests :
    (compare_toolkit_versions (codes "v1.0") (codes "1.0.0") ≡ ok eq)
    × (compare_toolkit_versions (codes "0.9.5") (codes "1.0.0") ≡ ok lt)
    × (compare_toolkit_versions (codes "1") (codes "1.0") ≡ err (invalid_version (codes "1")))
unfolding compare_toolkit_versions
version_tests = (refl, refl, refl)
