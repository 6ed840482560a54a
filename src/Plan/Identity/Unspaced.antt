-- ===== src/Plan/Identity/Unspaced.antt =====
-- Accepted domains hold no space.
use proxy_node_assistant.Text.{all-unspaced, Text, is_space, push_front, split}
use proxy_node_assistant.Plan.Identity.{
  is_alnum, is_domain_labels, is_label, is_letter, is_top_label, valid_domain,
}
use proxy_node_assistant.Prelude.{
  ==_iff, All, Bool-cases, List, [], all, and-eq-true, any, arith, false, inl, inr, or-eq-false,
  refl, true, ℕ, ◌==◌, ◌||◌, ◌∷◌, ◌≡◌,
}

label_char_unspaced : (c : ℕ) → (is_alnum c || c == b'-') ≡ true → is_space c ≡ false
unfolding is_space
label_char_unspaced c h = ground arith

letter_unspaced : (c : ℕ) → is_letter c ≡ true → is_space c ≡ false
unfolding is_space
letter_unspaced c h = ground arith

label_unspaced : (l : Text) → is_label l ≡ true → any is_space l ≡ false
unfolding is_label
label_unspaced l h =
    let (front, chars) = and-eq-true _ (all (λ c. is_alnum c || c == b'-') l) h in
    all-unspaced (λ c. is_alnum c || c == b'-') label_char_unspaced l chars

top_label_unspaced : (l : Text) → is_top_label l ≡ true → any is_space l ≡ false
unfolding is_top_label
top_label_unspaced l h =
    let (front, chars) = and-eq-true _ (all is_letter l) h in
    all-unspaced is_letter letter_unspaced l chars

labels_unspaced :
    (ls : List Text) → is_domain_labels ls ≡ true → All (λ l. any is_space l ≡ false) ls
unfolding is_domain_labels
labels_unspaced [] h = tt
labels_unspaced (l ∷ []) h = cc
labels_unspaced (l ∷ m ∷ []) h =
    let (first, last) = and-eq-true (is_label l) (is_top_label m) h in
    (label_unspaced l first, (top_label_unspaced m last, tt))
labels_unspaced (l ∷ m ∷ n ∷ ls) h =
    let (first, later) = and-eq-true (is_label l) _ h in
    (label_unspaced l first, labels_unspaced (m ∷ n ∷ ls) later)

push_front-unspaced :
    (c : ℕ) (ls : List Text)
    → All (λ l. any is_space l ≡ false) (push_front c ls)
    → (is_space c ≡ false) × All (λ l. any is_space l ≡ false) ls
push_front-unspaced c [] h = ((or-eq-false (is_space c) false h.0).0, tt)
push_front-unspaced c (l ∷ ls) h =
    let (here, later) = or-eq-false (is_space c) (any is_space l) h.0 in (here, (later, h.1))

split-unspaced :
    (sep : ℕ) (s : Text)
    → is_space sep ≡ false
    → All (λ l. any is_space l ≡ false) (split sep s)
    → any is_space s ≡ false
unfolding split
split-unspaced sep [] e h = refl
split-unspaced sep (c ∷ cs) e h = elim (Bool-cases (c == sep)) [
  | inl q ↦
      let same = (==_iff c sep).0 q in
      let later = split-unspaced sep cs e (rw q at h).1 in rw (same, e, later) refl
  | inr q ↦
      let (here, later) = push_front-unspaced c (split sep cs) (rw q at h) in
      rw (here, split-unspaced sep cs e later) refl
]

pub valid_domain-unspaced : (s : Text) → valid_domain s ≡ true → any is_space s ≡ false
unfolding valid_domain is_space
valid_domain-unspaced s h =
    split-unspaced b'.' s refl (labels_unspaced (split b'.' s) (ground arith))
