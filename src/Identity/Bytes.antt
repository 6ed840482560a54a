-- ===== src/Identity/Bytes.antt =====
-- The decimal form of a byte of an IPv4 address.
use proxy_node_assistant.Identity.{at_most_255, octet}
use proxy_node_assistant.Prelude.{
  ==_iff, Bool, Bool-cases, Option, [], any, ap, arith, false, inl, inr, is_empty, leb, length,
  none, not, refl, some, suc, true, zero, ℕ, ◌&&◌, ◌<◌, ◌==◌, ◌||◌, ◌∷◌, ◌≡◌, ◌≤◌,
}
use proxy_node_assistant.Text.{Text, has_code, is_space, itoa, parse_digits}

-- Checks of a test on all the bytes.
unfoldable pub passes_below : (ℕ → Bool) → ℕ → Bool
passes_below test zero = true
passes_below test (suc top) = test top && passes_below test top

pub passes_below_lem :
    (test : ℕ → Bool) (m top : ℕ) → passes_below test top ≡ true → m < top → test m ≡ true
unfolding passes_below
passes_below_lem test m zero h lt = absurd (omega arith)
passes_below_lem test m (suc top) h lt = ground (arith, passes_below_lem test m top)

abbrev gives : ℕ → Option ℕ → Bool
gives n none = false
gives n (some m) = m == n

gives_lem : (n : ℕ) (o : Option ℕ) → gives n o ≡ true → o ≡ some n
gives_lem n none h = cc
gives_lem n (some m) h = ap some ((==_iff m n).0 h)

reads_back : ℕ → Bool
unfolding octet itoa
reads_back n = gives n (octet (itoa n))

octet-itoa_table : passes_below reads_back 256 ≡ true
unfolding passes_below reads_back
octet-itoa_table = refl

plain_table :
    passes_below (λ n. not (has_code b'.' (itoa n)) && not (any is_space (itoa n))) 256 ≡ true
unfolding passes_below itoa has_code is_space
plain_table = refl

-- A byte is read back from its decimal form, which has no dot and no space.
pub record IsByteText (n : ℕ) : Type 0 where
  pub read : octet (itoa n) ≡ some n
  pub undotted : has_code b'.' (itoa n) ≡ false
  pub unspaced : any is_space (itoa n) ≡ false

pub byte-IsByteText : (n : ℕ) → n ≤ 255 → IsByteText n
unfolding reads_back
byte-IsByteText n h =
    let found = passes_below_lem reads_back n 256 octet-itoa_table (omega arith) in
    let plain =
      passes_below_lem (λ n. not (has_code b'.' (itoa n)) && not (any is_space (itoa n))) n 256
        plain_table (omega arith) in
    record {
      read = gives_lem n (octet (itoa n)) found;
      undotted = ground arith;
      unspaced = ground arith;
    }

at_most_255-le : (o : Option ℕ) {n : ℕ} → at_most_255 o ≡ some n → n ≤ 255
at_most_255-le none h = cc
at_most_255-le (some m) h = ground arith

pub octet-le : (s : Text) {n : ℕ} → octet s ≡ some n → n ≤ 255
unfolding octet
octet-le [] h = cc
octet-le (c ∷ cs) h =
    elim (Bool-cases (leb (length (c ∷ cs)) 3 && (is_empty cs || not (c == b'0')))) [
      | inl e ↦ at_most_255-le (parse_digits (c ∷ cs)) (rw e at h)
      | inr e ↦ cc (rw e at h)
    ]
