-- ===== src/Handoff/Keys.antt =====
-- The keys that handoffRegeneratedKeys of handoff_normalize.go takes out of an earlier handoff.
use proxy_node_assistant.Handoff.{
  form_aliases, complete_handoff_cdn_link_keys, handoff_regenerated_keys, is_member, keys_of,
}
use proxy_node_assistant.Prelude.{
  false, ◌||◌, Bool, Bool-cases, List, [], any, any-append, arith, if◌then◌else◌, inl, inr, refl,
  some, subst, sym, true, ◌++◌, ◌∷◌, ◌≡◌,
}
use proxy_node_assistant.Text.{Fields, Text, find, text_eq, text_eq_iff}

text_eq_sym : (a b : Text) → text_eq a b ≡ true → text_eq b a ≡ true
text_eq_sym a b h = (text_eq_iff b a).1 (sym ((text_eq_iff a b).0 h))

find-keys_of :
    (link : Text) (fields : Fields) {value : Text}
    → find link fields ≡ some value
    → any (text_eq link) (keys_of fields) ≡ true
unfolding find keys_of
find-keys_of link [] h = cc
find-keys_of link ((k, v) ∷ fields) h = elim (Bool-cases (text_eq k link)) [
  | inl e ↦ rw (text_eq_sym k link e) refl
  | inr e ↦ rw (find-keys_of link fields (rw e at h)) (ground arith)
]

any_of_member :
    (p : Text → Bool) (link : Text) (keys : List Text)
    → any (text_eq link) keys ≡ true
    → p link ≡ true
    → any p keys ≡ true
any_of_member p link [] h k = cc
any_of_member p link (x ∷ keys) h k = elim (Bool-cases (text_eq link x)) [
  | inl e ↦ let here = subst (λ t. p t ≡ true) ((text_eq_iff link x).0 e) k in rw here refl
  | inr e ↦ rw (any_of_member p link keys (rw e at h) k) (ground arith)
]

any-in_front :
    (p : Text → Bool) (keys later : List Text) → any p keys ≡ true → any p (keys ++ later) ≡ true
any-in_front p keys later h = rw (any-append p keys later, h) refl

Bool-or_true : (b : Bool) → (b || true) ≡ true
Bool-or_true true = refl
Bool-or_true false = refl

member-in_front :
    (t : Text) (keys later : List Text)
    → is_member t keys ≡ true
    → is_member t (keys ++ later) ≡ true
unfolding is_member
member-in_front t = any-in_front (text_eq t)

any-in_links :
    (p : Text → Bool) (keys links later : List Text) (found : Bool)
    → found ≡ true
    → any p links ≡ true
    → any p (keys ++ (if found then links else []) ++ later) ≡ true
any-in_links p keys links later false e h = cc
any-in_links p keys links later true e h =
    any-in_front p (keys ++ links) later
      (rw (any-append p keys links, h) (Bool-or_true (any p keys)))

member-in_links :
    (t : Text) (keys links later : List Text) (found : Bool)
    → found ≡ true
    → is_member t links ≡ true
    → is_member t (keys ++ (if found then links else []) ++ later) ≡ true
unfolding is_member
member-in_links t = any-in_links (text_eq t)

-- Once a link of the CDN route is among the new fields, its key and every other key that such a link
-- may have are taken out of the earlier handoff.
pub handoff_regenerated_keys-is_member :
    (fields : Fields) (form_complete : Bool) (key link : Text) {value : Text}
    → is_member key complete_handoff_cdn_link_keys ≡ true
    → is_member link complete_handoff_cdn_link_keys ≡ true
    → find link fields ≡ some value
    → (is_member link (handoff_regenerated_keys fields form_complete) ≡ true)
      × (is_member key (handoff_regenerated_keys fields form_complete) ≡ true)
unfolding handoff_regenerated_keys is_member
handoff_regenerated_keys-is_member fields form_complete key link k l f =
    let here = find-keys_of link fields f in
    let found = any_of_member is_listed link (keys_of fields) here l in
    (
      member-in_front link (keys_of fields ++ links) aliases
          (member-in_front link (keys_of fields) links here),
      member-in_links key (keys_of fields) complete_handoff_cdn_link_keys aliases
          (any is_listed (keys_of fields)) found k,
    )
  where
    is_listed : Text → Bool
    is_listed t = is_member t complete_handoff_cdn_link_keys

    aliases : List Text
    aliases = if form_complete then form_aliases else []

    links : List Text
    links = if any is_listed (keys_of fields) then complete_handoff_cdn_link_keys else []
