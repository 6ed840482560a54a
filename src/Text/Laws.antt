-- ===== src/Text/Laws.antt =====
-- Laws of cutting and splitting.
use proxy_node_assistant.Prelude.{
  Bool, all, and-eq-true, ==_iff, All, Bool-cases, List, ap, append_assoc, inl, inr, true, ◌||◌,
  ◌∙◌, any, refl, ℕ, ◌≡◌, false, [], ◌∷◌, ◌++◌, some, arith, ◌==◌, or-eq-false,
}
use proxy_node_assistant.Text.Basic.{is_space, trim_left, trim_right, trim_space, Text, has_code}
use proxy_node_assistant.Text.Lines.{split, replace_crlf, join, lines_of, cut}

-- A text is cut at its first separator.
pub cut-append :
    (sep : ℕ) (a b : Text) → has_code sep a ≡ false → cut sep (a ++ sep ∷ b) ≡ some (a, b)
unfolding cut has_code
cut-append sep [] b h = ground arith
cut-append sep (c ∷ a) b h =
    let (here, later) = or-eq-false (c == sep) (has_code sep a) h in
    rw (here, cut-append sep a b later)

trim_left_unspaced : (s : Text) → any is_space s ≡ false → trim_left is_space s ≡ s
unfolding trim_left
trim_left_unspaced [] h = refl
trim_left_unspaced (c ∷ cs) h =
    let here = (or-eq-false (is_space c) (any is_space cs) h).0 in rw here refl

trim_right_unspaced : (s : Text) → any is_space s ≡ false → trim_right is_space s ≡ s
unfolding trim_right
trim_right_unspaced [] h = refl
trim_right_unspaced (c ∷ cs) h =
    let (here, later) = or-eq-false (is_space c) _ h in
    rw (trim_right_unspaced cs later, here) (ground arith)

-- A text without a space is not changed by trimming.
pub trim_space_unspaced : (s : Text) → any is_space s ≡ false → trim_space s ≡ s
unfolding trim_space
trim_space_unspaced s h = rw (trim_left_unspaced s h) (trim_right_unspaced s h)

-- A text is split at its first separator.
pub split-append :
    (sep : ℕ) (a b : Text) → has_code sep a ≡ false → split sep (a ++ sep ∷ b) ≡ a ∷ split sep b
unfolding split has_code
split-append sep [] b h = ground arith
split-append sep (c ∷ a) b h =
    let (here, later) = or-eq-false (c == sep) (has_code sep a) h in
    rw (here, split-append sep a b later)

-- A text without a carriage return is not changed.
pub replace_crlf_id : (s : Text) → has_code b'\r' s ≡ false → replace_crlf s ≡ s
unfolding replace_crlf has_code
replace_crlf_id [] h = refl
replace_crlf_id (c ∷ s) h =
    let (here, later) = or-eq-false (c == b'\r') (has_code b'\r' s) h in
    rw (replace_crlf_id s later, here)

unspaced-has_code :
    (d : ℕ) → is_space d ≡ true → (s : Text) → any is_space s ≡ false → has_code d s ≡ false
unfolding has_code
unspaced-has_code d e [] h = refl
unspaced-has_code d e (c ∷ s) h =
    let (here, later) = or-eq-false (is_space c) (any is_space s) h in
    elim (Bool-cases (c == d)) [
      | inl q ↦ let same = (==_iff c d).0 q in cc
      | inr q ↦ rw (q, unspaced-has_code d e s later) refl
    ]

has_code-append : (d : ℕ) (a b : Text) → has_code d (a ++ b) ≡ (has_code d a || has_code d b)
unfolding has_code
has_code-append d [] b = refl
has_code-append d (c ∷ a) b = rw (has_code-append d a b) (ground arith)

-- A text of lines, each of them ended by a line feed.
abbrev pub terminated : List Text → Text
terminated [] = []
terminated (l ∷ ls) = l ++ (b'\n' ∷ terminated ls)

-- `strings.Join(lines, "\n") + "\n"`
pub join-terminated :
    (l : Text) (ls : List Text) → join b'\n' (l ∷ ls) ++ b'\n' ∷ [] ≡ terminated (l ∷ ls)
unfolding join
join-terminated l [] = refl
join-terminated l (m ∷ ls) =
    append_assoc l (b'\n' ∷ join b'\n' (m ∷ ls)) (b'\n' ∷ [])
    ∙ ap (λ (t : Text). l ++ (b'\n' ∷ t)) (join-terminated m ls)

terminated-has_code :
    (ls : List Text) → All (λ l. any is_space l ≡ false) ls → has_code b'\r' (terminated ls) ≡ false
unfolding has_code is_space
terminated-has_code [] h = refl
terminated-has_code (l ∷ ls) (here, later) = rw (
  has_code-append b'\r' l (b'\n' ∷ terminated ls),
  unspaced-has_code b'\r' refl l here,
  terminated-has_code ls later,
)

split-terminated :
    (ls : List Text)
    → All (λ l. any is_space l ≡ false) ls
    → split b'\n' (terminated ls) ≡ ls ++ [] ∷ []
unfolding split is_space
split-terminated [] h = refl
split-terminated (l ∷ ls) (here, later) =
    split-append b'\n' l (terminated ls) (unspaced-has_code b'\n' refl l here)
    ∙ ap (λ (t : List Text). l ∷ t) (split-terminated ls later)

-- Lines without spaces that were written are read back, and then an empty one.
pub lines_of-terminated :
    (ls : List Text)
    → All (λ l. any is_space l ≡ false) ls
    → lines_of (terminated ls) ≡ ls ++ [] ∷ []
unfolding lines_of
lines_of-terminated ls h =
    rw (replace_crlf_id (terminated ls) (terminated-has_code ls h)) (split-terminated ls h)

-- A text of characters that are no spaces.
pub all-unspaced :
    (p : ℕ → Bool)
    → ((c : ℕ) → p c ≡ true → is_space c ≡ false)
    → (s : Text) → all p s ≡ true
    → any is_space s ≡ false
all-unspaced p q [] h = refl
all-unspaced p q (c ∷ cs) h =
    let (here, later) = and-eq-true (p c) _ h in rw (q c here, all-unspaced p q cs later) refl

-- A text without the separator is one part.
pub split_single : (sep : ℕ) (a : Text) → has_code sep a ≡ false → split sep a ≡ a ∷ []
unfolding split has_code
split_single sep [] h = refl
split_single sep (c ∷ a) h =
    let (here, later) = or-eq-false (c == sep) (has_code sep a) h in
    rw (here, split_single sep a later) refl
