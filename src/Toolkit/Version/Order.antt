-- ===== src/Toolkit/Version/Order.antt =====
-- Versions are ordered as sequences of numbers that go on with zeros.
use proxy_node_assistant.Prelude.{
  >>=-eq-ok, arith, inl, inr, ok, ok-injective, subst, sym, ◌>>=◌, ◌∙◌, ◌⊎◌, List, [], refl, suc,
  zero, ℕ, ◌<◌, ◌∷◌, ◌≡◌,
}
use proxy_node_assistant.Text.{Text}
use Prim.Native.Nat.{compare, Ordering, lt, eq, gt}
use proxy_node_assistant.Toolkit.Version.{
  parse_version, then_compare, compare_parts, compare_toolkit_versions,
}

-- Part `i` of a version.
abbrev pub part : List ℕ → ℕ → ℕ
part [] i = 0
part (n ∷ ns) zero = n
part (n ∷ ns) (suc i) = part ns i

-- The first part in which the versions differ is smaller on the left.
abbrev pub Older : List ℕ → List ℕ → Type 0
Older a b = (i : ℕ) × (part a i < part b i) × ((j : ℕ) → j < i → part a j ≡ part b j)

abbrev pub Same : List ℕ → List ℕ → Type 0
Same a b = (i : ℕ) → part a i ≡ part b i

-- What the result of a comparison says.
abbrev pub Says : List ℕ → List ℕ → Ordering → Type 0
Says a b lt = Older a b
Says a b eq = Same a b
Says a b gt = Older b a

abbrev head : List ℕ → ℕ
head ns = part ns 0

abbrev rest : List ℕ → List ℕ
rest [] = []
rest (n ∷ ns) = ns

part-rest : (a : List ℕ) (i : ℕ) → part (rest a) i ≡ part a (suc i)
part-rest [] i = refl
part-rest (n ∷ ns) i = refl

before_suc :
    (a b : List ℕ) (i : ℕ)
    → head a ≡ head b
    → ((j : ℕ) → j < i → part (rest a) j ≡ part (rest b) j)
    → (j : ℕ) → j < suc i
    → part a j ≡ part b j
before_suc a b i h before zero lt_j = h
before_suc a b i h before (suc j) lt_j =
    sym (part-rest a j) ∙ before j (omega arith) ∙ part-rest b j

Older-later : (a b : List ℕ) → head a ≡ head b → Older (rest a) (rest b) → Older a b
Older-later a b h (i, less, before) =
    (suc i, omega (arith, part-rest a i, part-rest b i), before_suc a b i h before)

Says-later : (a b : List ℕ) (o : Ordering) → head a ≡ head b → Says (rest a) (rest b) o → Says a b o
Says-later a b lt h says = Older-later a b h says
Says-later a b gt h says = Older-later b a (sym h) says
Says-later a b eq h says = same
  where
    same : Same a b
    same zero = h
    same (suc i) = sym (part-rest a i) ∙ says i ∙ part-rest b i

Older-head : (a b : List ℕ) → head a < head b → Older a b
Older-head a b less = (0, less, λ j h. elim h [ ])

compare-cases :
    (m n : ℕ)
    → (compare m n ≡ lt) × (m < n) ⊎ (compare m n ≡ gt) × (n < m) ⊎ (compare m n ≡ eq) × (m ≡ n)
compare-cases m n = ground arith

Says-then :
    (a b : List ℕ) (o : Ordering)
    → Says (rest a) (rest b) o
    → Says a b (then_compare (compare (head a) (head b)) o)
Says-then a b o h = elim (compare-cases (head a) (head b)) [
  | inl (c, less) ↦ subst (λ d. Says a b (then_compare d o)) (sym c) (Older-head a b less)
  | inr (inl (c, more)) ↦ subst (λ d. Says a b (then_compare d o)) (sym c) (Older-head b a more)
  | inr (inr (c, same)) ↦ subst (λ d. Says a b (then_compare d o)) (sym c) (Says-later a b o same h)
]

compare_parts-Says : (a b : List ℕ) → Says a b (compare_parts a b)
unfolding compare_parts
compare_parts-Says [] [] = λ i. refl
compare_parts-Says [] (r ∷ right) = Says-then [] (r ∷ right) _ (compare_parts-Says [] right)
compare_parts-Says (l ∷ left) [] = Says-then (l ∷ left) [] _ (compare_parts-Says left [])
compare_parts-Says (l ∷ left) (r ∷ right) =
    Says-then (l ∷ left) (r ∷ right) _ (compare_parts-Says left right)

-- The left and the right text are versions, and their parts compare as `o` says.
abbrev pub Compares : Text → Text → Ordering → Type 0
Compares left right o =
    (a : List ℕ) × (b : List ℕ) × (parse_version left ≡ ok a)
    × (parse_version right ≡ ok b)
    × Says a b o

-- A comparison that succeeds is by the first part that differs, where a missing part counts as 0:
-- `lt` if it is smaller on the left, `gt` if it is smaller on the right, `eq` if no part differs.
pub compare_toolkit_versions-Compares :
    (left right : Text) {o : Ordering}
    → compare_toolkit_versions left right ≡ ok o
    → Compares left right o
unfolding compare_toolkit_versions
compare_toolkit_versions-Compares left right h =
    let (a, pa, h1) =
      >>=-eq-ok (parse_version left)
        (λ (a : List ℕ). parse_version right >>= λ b. ok (compare_parts a b)) h in
    let (b, pb, h2) = >>=-eq-ok (parse_version right) (λ (b : List ℕ). ok (compare_parts a b)) h1 in
    (a, b, pa, pb, subst (Says a b) (ok-injective h2) (compare_parts-Says a b))
