-- ===== src/Text/Lines.antt =====
-- Splitting, cutting and joining.
use proxy_node_assistant.Prelude.{
  is_empty, length, suc, zero, ◌-◌, ℕ, ◌≡◌, refl, Bool, false, ◌&&◌, List, [], ◌∷◌, ◌++◌, Option,
  none, some, ◌==◌, if◌then◌else◌,
}
use proxy_node_assistant.Text.Basic.{has_prefix, Text, codes}

abbrev begins_with : ℕ → Text → Bool
begins_with d [] = false
begins_with d (c ∷ cs) = c == d

-- `strings.ReplaceAll(s, "\r\n", "\n")`: a carriage return goes exactly before a line feed.
unfoldable pub replace_crlf : Text → Text
replace_crlf [] = []
replace_crlf (c ∷ cs) =
    let rest = replace_crlf cs in if c == b'\r' && begins_with b'\n' cs then rest else c ∷ rest

abbrev pub push_front : ℕ → List Text → List Text
push_front c [] = (c ∷ []) ∷ []
push_front c (l ∷ ls) = (c ∷ l) ∷ ls

-- `strings.Split(s, sep)` for a separator of one character.
unfoldable pub split : ℕ → Text → List Text
split sep [] = [] ∷ []
split sep (c ∷ cs) = let rest = split sep cs in if c == sep then [] ∷ rest else push_front c rest

abbrev pub extend : ℕ → Option (Text × Text) → Option (Text × Text)
extend c none = none
extend c (some (a, b)) = some (c ∷ a, b)

-- `strings.Cut(s, sep)` for a separator of one character; `none` is its `false`.
unfoldable pub cut : ℕ → Text → Option (Text × Text)
cut sep [] = none
cut sep (c ∷ cs) = let rest = cut sep cs in if c == sep then some ([], cs) else extend c rest

-- `strings.Join(parts, sep)` for a separator of one character.
unfoldable pub join : ℕ → List Text → Text
join sep [] = []
join sep (l ∷ []) = l
join sep (l ∷ m ∷ ls) = l ++ (sep ∷ join sep (m ∷ ls))

-- `strings.Split(strings.ReplaceAll(s, "\r\n", "\n"), "\n")`
unfoldable pub lines_of : Text → List Text
unfolding replace_crlf split
lines_of s = split b'\n' (replace_crlf s)

-- `strings.TrimSuffix(raw, "\r")`
unfoldable pub trim_cr : Text → Text
trim_cr [] = []
trim_cr (c ∷ []) = if c == b'\r' then [] else c ∷ []
trim_cr (c ∷ d ∷ cs) = c ∷ trim_cr (d ∷ cs)

without_last_empty : List Text → List Text
without_last_empty [] = []
without_last_empty (l ∷ []) = if is_empty l then [] else l ∷ []
without_last_empty (l ∷ m ∷ ls) = l ∷ without_last_empty (m ∷ ls)

trim_each : List Text → List Text
unfolding trim_cr
trim_each [] = []
trim_each (l ∷ ls) = trim_cr l ∷ trim_each ls

-- The lines of a `bufio.Scanner`, which loses one carriage return at the end of each and does not
-- count an empty line after the last line feed.
unfoldable pub scan_lines : Text → List Text
unfolding split trim_cr without_last_empty trim_each
scan_lines s = trim_each (without_last_empty (split b'\n' s))

lines_test : lines_of (codes "a\r\nb\n\nc") ≡ codes "a" ∷ codes "b" ∷ [] ∷ codes "c" ∷ []
unfolding lines_of
lines_test = refl

-- The copy of `s` from the end of a match on, which lies `skip` characters ahead.
replaced : Text → Text → ℕ → Text → Text
unfolding has_prefix
replaced old new skip [] = []
replaced old new (suc skip) (c ∷ cs) = replaced old new skip cs
replaced old new zero (c ∷ cs) =
    let hit = has_prefix old (c ∷ cs) in
    let rest = replaced old new (if hit then length old - 1 else 0) cs in
    (if hit then new else c ∷ []) ++ rest

-- `strings.ReplaceAll(s, old, new)`, with `s` last; `old` is not empty.
unfoldable pub replace_all : Text → Text → Text → Text
unfolding replaced
replace_all old new s = replaced old new 0 s

cut_test : cut b'=' (codes "k=v=w") ≡ some (codes "k", codes "v=w")
unfolding cut
cut_test = refl
