-- ===== src/Plan/Identity.antt =====
-- operations.go: validDomain, validEmail, normalizeCoverTemplateChoice; remote.go: userPartPattern.
pub mod Unspaced
use mathlib.Core.Option
use proxy_node_assistant.Prelude.{
  Bool, List, Option, [], all, any, between, false, if◌then◌else◌, length, ltb, none, refl, some,
  true, ℕ, ◌&&◌, ◌==◌, ◌||◌, ◌∷◌, ◌≡◌,
}
use proxy_node_assistant.Text.{
  Text, atoi, byte_length, codes, contains, contains_any, is_digit, itoa, split, text_eq, to_lower,
  trim_space, within,
}

-- `[a-z]` under `(?i)`, which folds two letters outside ASCII.
abbrev is_letter : ℕ → Bool
is_letter c = between b'a' b'z' c || between b'A' b'Z' c || c == 0x17f || c == 0x212a

abbrev is_alnum : ℕ → Bool
is_alnum c = is_letter c || is_digit c

abbrev ends_alnum : Text → Bool
ends_alnum [] = false
ends_alnum (c ∷ []) = is_alnum c
ends_alnum (c ∷ d ∷ cs) = ends_alnum (d ∷ cs)

abbrev begins_alnum : Text → Bool
begins_alnum [] = false
begins_alnum (c ∷ cs) = is_alnum c

-- `[a-z0-9](?:[a-z0-9-]{0,61}[a-z0-9])?`
unfoldable pub is_label : Text → Bool
is_label l =
    between 1 63 (length l)
    && begins_alnum l
    && ends_alnum l
    && all (λ c. is_alnum c || c == b'-') l

-- `[a-z]{2,63}`
unfoldable pub is_top_label : Text → Bool
is_top_label l = between 2 63 (length l) && all is_letter l

-- `(label\.)+top`: at least one label stands before the last one.
unfoldable pub is_domain_labels : List Text → Bool
unfolding is_label is_top_label
is_domain_labels [] = false
is_domain_labels (l ∷ []) = false
is_domain_labels (l ∷ m ∷ []) = is_label l && is_top_label m
is_domain_labels (l ∷ m ∷ n ∷ ls) = is_label l && is_domain_labels (m ∷ n ∷ ls)

unfoldable pub valid_domain : Text → Bool
unfolding byte_length contains_any is_domain_labels split
valid_domain value =
    if ltb 253 (byte_length value) || contains_any (codes " /:@\\") value
    then false
    else is_domain_labels (split b'.' value)

-- `mail.ParseAddress` of net/mail, as the address that it finds; `none` is an error.
abbrev pub MailParser : Type 0
MailParser = Text → Option Text

abbrev is_address : Text → Option Text → Bool
is_address value none = false
is_address value (some address) = text_eq address value && contains (codes "@") value

unfoldable pub valid_email : MailParser → Text → Bool
unfolding text_eq contains
valid_email parse_address value = is_address value (parse_address value)

unfoldable pub normalize_cover_template_choice : Text → Option Text
unfolding to_lower trim_space text_eq atoi itoa
normalize_cover_template_choice value =
    let choice = to_lower (trim_space value) in
    if any (text_eq choice) ([] ∷ codes "r" ∷ codes "random" ∷ [])
    then some (codes "random")
    else if any (text_eq choice) (codes "a" ∷ codes "auto" ∷ codes "stable" ∷ [])
    then some (codes "auto")
    else Option.map itoa (within 1 15 (atoi choice))

abbrev pub is_user_char : ℕ → Bool
is_user_char c =
    between b'A' b'Z' c || between b'a' b'z' c || is_digit c || c == b'_' || c == b'.' || c == b'-'

-- `^[A-Za-z_][A-Za-z0-9_.-]*$`
unfoldable pub is_user_part : Text → Bool
is_user_part [] = false
is_user_part (c ∷ cs) =
    (between b'A' b'Z' c || between b'a' b'z' c || c == b'_') && all is_user_char cs

domain_tests :
    (valid_domain (codes "node.example.com") ≡ true)
    × (valid_domain (codes "-a.example.com") ≡ false)
    × (valid_domain (codes "localhost") ≡ false)
    × (normalize_cover_template_choice (codes " 07 ") ≡ some (codes "7"))
unfolding valid_domain normalize_cover_template_choice
domain_tests = (refl, refl, refl, refl)
