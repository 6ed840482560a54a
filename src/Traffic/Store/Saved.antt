-- ===== src/Traffic/Store/Saved.antt =====
-- The store of traffic.go after a change and saveTrafficStore.
use proxy_node_assistant.Prelude.{
  Bool-cases, Option, [], ap, false, if◌then◌else◌, inl, inr, none, refl, some, sym, ◌&&◌, ◌∙◌, ◌∷◌,
  ◌≡◌,
}
use proxy_node_assistant.Text.{Text, insert, text_eq}
use proxy_node_assistant.Traffic.{
  TrafficProfile, TrafficStore, find_traffic_profile, has_key, label_le, remove_traffic_profile,
  save_traffic_store, upsert_traffic_profile,
}
use proxy_node_assistant.Traffic.Store.{
  IsDistinctStore, apart_back, find-remove, find-same, find-upsert, if-eq-none, not_shared,
  same_key, same_none,
}

swapped_heads :
    (p q : TrafficProfile) (store : TrafficStore) (provider id : Text)
    → has_key p.provider p.id q ≡ false
    → (if has_key provider id q then some q else find_traffic_profile (p ∷ store) provider id)
      ≡ (if has_key provider id p then some p else find_traffic_profile (q ∷ store) provider id)
unfolding find_traffic_profile
swapped_heads p q store provider id e = elim (Bool-cases (has_key provider id p)) [
  | inl h ↦ rw (h, not_shared provider id p q h e) refl
  | inr h ↦ rw h refl
]

-- Where a profile goes among others does not matter for what is found, if its key is new.
find-insert :
    (p : TrafficProfile) (store : TrafficStore) (provider id : Text)
    → find_traffic_profile store p.provider p.id ≡ none
    → find_traffic_profile (insert label_le p store) provider id
      ≡ find_traffic_profile (p ∷ store) provider id
unfolding find_traffic_profile insert
find-insert p [] provider id fresh = refl
find-insert p (q ∷ store) provider id fresh =
    let (apart, later) = if-eq-none (has_key p.provider p.id q) q _ fresh in
    elim (Bool-cases (label_le p q)) [
      | inl e ↦ rw e refl
      | inr e ↦
          rw (e, find-insert p store provider id later) (swapped_heads p q store provider id apart)
    ]

insert-IsDistinctStore :
    (p : TrafficProfile) (store : TrafficStore)
    → find_traffic_profile store p.provider p.id ≡ none
    → IsDistinctStore store
    → IsDistinctStore (insert label_le p store)
unfolding find_traffic_profile insert
insert-IsDistinctStore p [] fresh d = (refl, tt)
insert-IsDistinctStore p (q ∷ store) fresh (new, d) =
    let (apart, later) = if-eq-none (has_key p.provider p.id q) q _ fresh in
    elim (Bool-cases (label_le p q)) [
      | inl e ↦ rw e (fresh, (new, d))
      | inr e ↦ rw e (
        find-insert p store q.provider q.id later ∙ rw (apart_back p q apart, new) refl,
        insert-IsDistinctStore p store later d,
      )
    ]

-- Sorting by label changes neither what is found nor that the keys are distinct.
save-IsDistinctStore :
    (store : TrafficStore)
    → IsDistinctStore store
    → IsDistinctStore (save_traffic_store store)
      × ((provider id : Text)
          → find_traffic_profile (save_traffic_store store) provider id
            ≡ find_traffic_profile store provider id)
unfolding save_traffic_store find_traffic_profile
save-IsDistinctStore [] d = (tt, λ provider id. refl)
save-IsDistinctStore (p ∷ store) (fresh, d) =
    let (sorted, same) = save-IsDistinctStore store d in
    let new = same p.provider p.id ∙ fresh in
    (
      insert-IsDistinctStore p (save_traffic_store store) new sorted,
      λ provider id.
          find-insert p (save_traffic_store store) provider id new
          ∙ ap (λ (r : Option TrafficProfile). if has_key provider id p then some p else r)
              (same provider id),
    )

upsert-IsDistinctStore :
    (store : TrafficStore) (p : TrafficProfile)
    → IsDistinctStore store
    → IsDistinctStore (upsert_traffic_profile store p)
unfolding find_traffic_profile upsert_traffic_profile
upsert-IsDistinctStore [] p d = (refl, tt)
upsert-IsDistinctStore (q ∷ store) p (fresh, d) = elim (Bool-cases (has_key p.provider p.id q)) [
  | inl e ↦ rw (same_key q p, e) (sym (find-same q store p.provider p.id e) ∙ fresh, d)
  | inr e ↦
      rw (same_key q p, e)
        (
          find-upsert store p q.provider q.id ∙ rw (apart_back p q e, fresh) refl,
          upsert-IsDistinctStore store p d,
        )
]

remove-IsDistinctStore :
    (store : TrafficStore) (gp gi : Text)
    → IsDistinctStore store
    → IsDistinctStore (remove_traffic_profile store gp gi).0
unfolding find_traffic_profile remove_traffic_profile
remove-IsDistinctStore [] gp gi d = tt
remove-IsDistinctStore (p ∷ store) gp gi (fresh, d) = elim (Bool-cases (has_key gp gi p)) [
  | inl e ↦ rw e d
  | inr e ↦ rw e (
    find-remove store gp gi p.provider p.id d ∙ rw fresh (sym (same_none _)),
    remove-IsDistinctStore store gp gi d,
  )
]

-- The store as a map.
abbrev pub View : Type 0
View = Text → Text → Option TrafficProfile

abbrev pub view : TrafficStore → View
view store provider id = find_traffic_profile store provider id

abbrev pub updated : View → TrafficProfile → View
updated v p provider id = if has_key provider id p then some p else v provider id

abbrev pub deleted : View → Text → Text → View
unfolding text_eq
deleted v gp gi provider id = if text_eq gp provider && text_eq gi id then none else v provider id

-- What a saved store is to the map that it should be.
pub record IsStoreOf (v : View) (store : TrafficStore) : Type 0 where
  pub distinct : IsDistinctStore store
  pub same : view store ≡ v

-- A store in which no two profiles have the same provider and id is a map. Putting a profile in and
-- saving updates the map at the profile's key, removing one and saving deletes its key, and saving
-- alone changes nothing; the keys stay distinct.
pub save_traffic_store-IsStoreOf :
    (store : TrafficStore) (p : TrafficProfile) (gp gi : Text)
    → IsDistinctStore store
    → IsStoreOf (view store) (save_traffic_store store)
      × IsStoreOf (updated (view store) p) (save_traffic_store (upsert_traffic_profile store p))
      × IsStoreOf
          (deleted (view store) gp gi)
          (save_traffic_store (remove_traffic_profile store gp gi).0)
unfolding text_eq deleted
save_traffic_store-IsStoreOf store p gp gi d =
    let (d0, s0) = save-IsDistinctStore store d in
    let (d1, s1) =
      save-IsDistinctStore (upsert_traffic_profile store p) (upsert-IsDistinctStore store p d) in
    let (d2, s2) =
      save-IsDistinctStore (remove_traffic_profile store gp gi).0
        (remove-IsDistinctStore store gp gi d) in
    (
      record { distinct = d0; same = λ i provider id. s0 provider id i },
      record {
        distinct = d1;
        same = λ i provider id. (s1 provider id ∙ find-upsert store p provider id) i;
      },
      record {
        distinct = d2;
        same = λ i provider id. (s2 provider id ∙ find-remove store gp gi provider id d) i;
      },
    )
