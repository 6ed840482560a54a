-- ===== src/Toolkit/Policy/Monotone.antt =====
-- The policies never replace a newer toolkit by an older one.
use proxy_node_assistant.Prelude.{
  >>=-eq-ok, Bool-cases, if◌then◌else◌, inl, inr, not, ok, ok-injective, subst, sym, [], arith,
  false, true, ◌<◌, ◌↔◌, ◌≡◌, ◌≢◌, ◌≤◌, ◌⊎◌,
}
use proxy_node_assistant.Text.{Text, text_eq_iff}
use proxy_node_assistant.Toolkit.Policy.{
  ToolkitRelation, classify_toolkit, missing, newer, older, related, same_complete, same_incomplete,
  toolkit_version, toolkit_build_id, toolkit_build_revision,
  same_version_toolkit_only_update_required,
}
use proxy_node_assistant.Toolkit.Version.{compare_toolkit_versions}
use proxy_node_assistant.Toolkit.Version.Order.{part, Compares, compare_toolkit_versions-Compares}
use Prim.Native.Nat.{Ordering, lt, eq, gt}
use proxy_node_assistant.Toolkit.Probe.{ToolkitProbe}

-- A toolkit of the same version that may be replaced: an upload that was cut off and does not come
-- from a later build, or a complete one of an earlier build.
abbrev pub IsReplaceable : ToolkitProbe → Type 0
IsReplaceable p =
    (p.present ≡ true)
    × (p.version ≡ toolkit_version)
    × ((p.complete ≡ false)
          × (p.build_revision ≤ toolkit_build_revision)
          × ((p.build_revision < toolkit_build_revision)
              ⊎ (p.build_id ≡ [])
              ⊎ (p.build_id ≡ toolkit_build_id))
        ⊎ (p.complete ≡ true)
          × ((0 < p.build_revision) × (p.build_revision < toolkit_build_revision)
              ⊎ (p.build_revision ≡ 0) × (p.build_id ≢ toolkit_build_id)))

-- A toolkit-only update is required exactly for a toolkit that may be replaced.
pub same_version_toolkit_only_update_required_iff :
    (p : ToolkitProbe) → (same_version_toolkit_only_update_required p ≡ true) ↔ IsReplaceable p
unfolding same_version_toolkit_only_update_required
same_version_toolkit_only_update_required_iff p =
    ground (arith, text_eq_iff p.version toolkit_version, text_eq_iff p.build_id toolkit_build_id)

-- The relation of an installed toolkit to a version.
abbrev pub Related : ToolkitProbe → Text → ToolkitRelation → Type 0
Related p v missing = p.present ≡ false
Related p v older = (p.present ≡ true) × Compares p.version v lt
Related p v newer = (p.present ≡ true) × Compares p.version v gt
Related p v same_complete = (p.present ≡ true) × (p.complete ≡ true) × Compares p.version v eq
Related p v same_incomplete = (p.present ≡ true) × (p.complete ≡ false) × Compares p.version v eq

related-Related :
    (p : ToolkitProbe) (v : Text) (o : Ordering)
    → p.present ≡ true
    → Compares p.version v o
    → Related p v (related p o)
related-Related p v lt h c = (h, c)
related-Related p v gt h c = (h, c)
related-Related p v eq h c = elim (Bool-cases p.complete) [
  | inl full ↦
      subst (λ b. Related p v (if not b then same_incomplete else same_complete)) (sym full)
        (h, full, c)
  | inr part ↦
      subst (λ b. Related p v (if not b then same_incomplete else same_complete)) (sym part)
        (h, part, c)
]

-- A classification that succeeds is the right one: `missing` for an absent toolkit; else `older`
-- or `newer` by the versions, and by completeness if the versions are the same.
pub classify_toolkit-Related :
    (p : ToolkitProbe) (v : Text) {r : ToolkitRelation}
    → classify_toolkit p v ≡ ok r
    → Related p v r
unfolding classify_toolkit
classify_toolkit-Related p v h = elim (Bool-cases p.present) [
  | inr gone ↦ subst (Related p v) (ok-injective (rw gone at h)) gone
  | inl there ↦
      let (o, compared, e) =
        >>=-eq-ok (compare_toolkit_versions p.version v) (λ o. ok (related p o)) (rw there at h) in
      subst (Related p v) (ok-injective e)
        (related-Related p v o there (compare_toolkit_versions-Compares p.version v compared))
]
