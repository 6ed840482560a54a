-- ===== src/Traffic/Store.antt =====
-- The store of traffic.go as a map from a provider and an id to a profile.
pub mod Saved
use proxy_node_assistant.Prelude.{
  Bool, Option, ap, sym, false, ◌∙◌, Bool-cases, [], and-eq-true, arith, if◌then◌else◌, inl, inr,
  none, refl, some, true, ◌&&◌, ◌∷◌, ◌≡◌,
}
use proxy_node_assistant.Traffic.{
  save_traffic_store, label_le, remove_traffic_profile, TrafficProfile, TrafficStore,
  find_traffic_profile, has_key, upsert_traffic_profile,
}
use proxy_node_assistant.Text.{insert, Text, text_eq, text_eq_iff, text_eq_refl}

-- No two profiles have the same provider and id.
abbrev pub IsDistinctStore : TrafficStore → Type 0
IsDistinctStore [] = Unit {0}
IsDistinctStore (p ∷ store) =
    (find_traffic_profile store p.provider p.id ≡ none) × IsDistinctStore store

pub has_key-eq :
    (provider id : Text) (p : TrafficProfile)
    → has_key provider id p ≡ true
    → (p.provider ≡ provider) × (p.id ≡ id)
unfolding text_eq has_key
has_key-eq provider id p h =
    let (a, b) = and-eq-true (text_eq p.provider provider) (text_eq p.id id) h in
    ((text_eq_iff _ _).0 a, (text_eq_iff _ _).0 b)

pub has_key_self : (p : TrafficProfile) → has_key p.provider p.id p ≡ true
unfolding has_key
has_key_self p = rw (text_eq_refl p.provider, text_eq_refl p.id) refl

-- Two profiles that have one key in common have the same key.
pub has_key-shared :
    (provider id : Text) (p q : TrafficProfile)
    → has_key provider id p ≡ true
    → has_key provider id q ≡ true
    → has_key p.provider p.id q ≡ true
has_key-shared provider id p q h k =
    let (a, b) = has_key-eq provider id p h in
    let (c, d) = has_key-eq provider id q k in rw (a, b) k

-- A profile whose key is that of `p` has not a key that `p` has not.
apart_key :
    (provider id : Text) (q p : TrafficProfile)
    → has_key p.provider p.id q ≡ true
    → has_key provider id p ≡ false
    → has_key provider id q ≡ false
unfolding has_key
apart_key provider id q p h k =
    let (a, b) = has_key-eq p.provider p.id q h in
    (λ i. text_eq (a i) provider && text_eq (b i) id) ∙ k

pub not_shared :
    (provider id : Text) (p q : TrafficProfile)
    → has_key provider id p ≡ true
    → has_key p.provider p.id q ≡ false
    → has_key provider id q ≡ false
not_shared provider id p q h k = elim (Bool-cases (has_key provider id q)) [
  | inl e ↦ cc (has_key-shared provider id p q h e)
  | inr e ↦ e
]

pub apart_back :
    (p q : TrafficProfile) → has_key p.provider p.id q ≡ false → has_key q.provider q.id p ≡ false
apart_back p q h = elim (Bool-cases (has_key q.provider q.id p)) [
  | inl e ↦ cc (has_key-shared q.provider q.id p q e (has_key_self q))
  | inr e ↦ e
]

-- The test of `upsert_traffic_profile`.
pub same_key :
    (p q : TrafficProfile)
    → (text_eq p.id q.id && text_eq p.provider q.provider) ≡ has_key q.provider q.id p
unfolding has_key
same_key p q = ground arith

pub find-same :
    (p : TrafficProfile) (store : TrafficStore) (provider id : Text)
    → has_key provider id p ≡ true
    → find_traffic_profile store p.provider p.id ≡ find_traffic_profile store provider id
find-same p store provider id h =
    let (a, b) = has_key-eq provider id p h in λ i. find_traffic_profile store (a i) (b i)

replaced_head :
    (q p : TrafficProfile) (store : TrafficStore) (provider id : Text)
    → has_key p.provider p.id q ≡ true
    → (if has_key provider id p then some p else find_traffic_profile store provider id)
      ≡ (if has_key provider id p then some p else find_traffic_profile (q ∷ store) provider id)
unfolding find_traffic_profile
replaced_head q p store provider id e = elim (Bool-cases (has_key provider id p)) [
  | inl h ↦ rw h refl
  | inr h ↦ rw (h, apart_key provider id q p e h) refl
]

kept_head :
    (q p : TrafficProfile) (store : TrafficStore) (provider id : Text)
    → has_key p.provider p.id q ≡ false
    → (if has_key provider id q
        then some q
        else if has_key provider id p
        then some p
        else find_traffic_profile store provider id)
      ≡ (if has_key provider id p then some p else find_traffic_profile (q ∷ store) provider id)
unfolding find_traffic_profile
kept_head q p store provider id e = elim (Bool-cases (has_key provider id p)) [
  | inl h ↦ rw (h, not_shared provider id p q h e) refl
  | inr h ↦ rw h refl
]

pub find-upsert :
    (store : TrafficStore) (p : TrafficProfile) (provider id : Text)
    → find_traffic_profile (upsert_traffic_profile store p) provider id
      ≡ (if has_key provider id p then some p else find_traffic_profile store provider id)
unfolding find_traffic_profile upsert_traffic_profile
find-upsert [] p provider id = refl
find-upsert (q ∷ store) p provider id = elim (Bool-cases (has_key p.provider p.id q)) [
  | inl e ↦ rw (same_key q p, e) (replaced_head q p store provider id e)
  | inr e ↦
      rw (same_key q p, e, find-upsert store p provider id) (kept_head q p store provider id e)
]

pub same_none : (b : Bool) → ◌≡◌ {A = Option TrafficProfile} none (if b then none else none)
same_none true = refl
same_none false = refl

pub if-eq-none :
    (b : Bool) (p : TrafficProfile) (r : Option TrafficProfile)
    → (if b then some p else r) ≡ none
    → (b ≡ false) × (r ≡ none)
if-eq-none true p r h = cc
if-eq-none false p r h = (refl, h)

has_key-moved :
    (gp gi provider id : Text) (p : TrafficProfile)
    → has_key gp gi p ≡ true
    → has_key provider id p ≡ (text_eq gp provider && text_eq gi id)
unfolding has_key
has_key-moved gp gi provider id p e =
    let (a, b) = has_key-eq gp gi p e in λ i. text_eq (a i) provider && text_eq (b i) id

removed_head :
    (p : TrafficProfile) (store : TrafficStore) (gp gi provider id : Text)
    → has_key gp gi p ≡ true
    → find_traffic_profile store p.provider p.id ≡ none
    → find_traffic_profile store provider id ≡ (
        if text_eq gp provider && text_eq gi id
        then none
        else find_traffic_profile (p ∷ store) provider id)
unfolding find_traffic_profile
removed_head p store gp gi provider id e fresh =
    let moved = has_key-moved gp gi provider id p e in
    elim (Bool-cases (text_eq gp provider && text_eq gi id)) [
      | inl h ↦ rw h (sym (find-same p store provider id (moved ∙ h)) ∙ fresh)
      | inr h ↦ rw (h, moved ∙ h) refl
    ]

other_head :
    (p : TrafficProfile) (store : TrafficStore) (gp gi provider id : Text)
    → has_key gp gi p ≡ false
    → (if has_key provider id p
        then some p
        else if text_eq gp provider && text_eq gi id
        then none
        else find_traffic_profile store provider id)
      ≡ (if text_eq gp provider && text_eq gi id
          then none
          else find_traffic_profile (p ∷ store) provider id)
unfolding find_traffic_profile
other_head p store gp gi provider id e = elim (Bool-cases (text_eq gp provider && text_eq gi id)) [
  | inl h ↦
      let (a, b) = and-eq-true (text_eq gp provider) (text_eq gi id) h in
      let same : has_key gp gi p ≡ has_key provider id p =
        λ i. has_key ((text_eq_iff gp provider).0 a i) ((text_eq_iff gi id).0 b i) p in
      rw (h, sym same ∙ e) refl
  | inr h ↦ rw h refl
]

-- Removing forgets the profile of one key, and nothing else.
pub find-remove :
    (store : TrafficStore) (gp gi provider id : Text)
    → IsDistinctStore store
    → find_traffic_profile (remove_traffic_profile store gp gi).0 provider id ≡ (
        if text_eq gp provider && text_eq gi id
        then none
        else find_traffic_profile store provider id)
unfolding find_traffic_profile remove_traffic_profile
find-remove [] gp gi provider id d = same_none _
find-remove (p ∷ store) gp gi provider id (fresh, d) = elim (Bool-cases (has_key gp gi p)) [
  | inl e ↦ rw e (removed_head p store gp gi provider id e fresh)
  | inr e ↦ rw (e, find-remove store gp gi provider id d) (other_head p store gp gi provider id e)
]
