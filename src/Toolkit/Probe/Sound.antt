-- ===== src/Toolkit/Probe/Sound.antt =====
-- What an accepted probe guarantees.
use proxy_node_assistant.Prelude.{
  >>=-eq-ok, Bool, Bool-cases, Option, ap, arith, false, inl, inr, is_empty, none, not,
  ok-injective, refl, subst, sym, wrap-eq-ok, ◌&&◌, [], if◌then◌else◌, ok, some, true, ℕ, ◌≡◌, ◌≤◌,
  ◌⊎◌,
}
use proxy_node_assistant.Text.{
  atoi, text_eq, text_eq_iff, within_bounds, Fields, Text, codes, get, trim_prefix, trim_space,
}
use proxy_node_assistant.Toolkit.Probe.{
  found, ToolkitProbe, absent, rejected, is_build_id, revision_of, completed, with_revision,
  installed, probe_of, parse_toolkit_probe,
}
use proxy_node_assistant.Protocol.Marker.{extract_marker_block_current_or_legacy}
use proxy_node_assistant.Protocol.KeyValue.{parse_kv}
use proxy_node_assistant.Toolkit.Version.{matches_version}

-- Either the server answered that nothing is installed, or every field was read from the block and
-- passed its test.
pub record IsInstalled (kv : Fields) (p : ToolkitProbe) : Type 0 where
  pub is_present : p.present ≡ true
  pub version : p.version ≡ trim_prefix (codes "v") (trim_space (get (codes "TOOLKIT_VERSION") kv))
  pub version_ok : matches_version (trim_space (get (codes "TOOLKIT_VERSION") kv)) ≡ true
  pub build : p.build_id ≡ trim_space (get (codes "TOOLKIT_BUILD_ID") kv)
  pub build_ok : (p.build_id ≡ []) ⊎ (is_build_id p.build_id ≡ true)
  pub revision : revision_of (get (codes "TOOLKIT_BUILD_REVISION") kv) ≡ some p.build_revision
  pub revision_bound : p.build_revision ≤ 1_000_000_000
  pub flag : get (codes "TOOLKIT_COMPLETE") kv ≡ (if p.complete then codes "1" else codes "0")

revision_of-le : (field : Text) {n : ℕ} → revision_of field ≡ some n → n ≤ 1_000_000_000
unfolding revision_of
revision_of-le field {n} h = elim (Bool-cases (is_empty (trim_space field))) [
  | inl e ↦ ground arith
  | inr e ↦ (within_bounds 1 1_000_000_000 (atoi (trim_space field)) (rw e at h)).1
]

-- The fields that were tested before the completeness flag.
module _ (kv : Fields) (version build : Text) (vok : matches_version version ≡ true)
    (bok : (build ≡ []) ⊎ (is_build_id build ≡ true))
    (v : trim_space (get (codes "TOOLKIT_VERSION") kv) ≡ version)
    (b : trim_space (get (codes "TOOLKIT_BUILD_ID") kv) ≡ build) where
  IsInstalled-found :
      (n : ℕ) (c : Bool)
      → revision_of (get (codes "TOOLKIT_BUILD_REVISION") kv) ≡ some n
      → get (codes "TOOLKIT_COMPLETE") kv ≡ (if c then codes "1" else codes "0")
      → IsInstalled kv (found version build n c)
  IsInstalled-found n c r f = record {
    is_present = refl;
    version = ap (trim_prefix (codes "v")) (sym v);
    version_ok = rw v vok;
    build = sym b;
    build_ok = bok;
    revision = r;
    revision_bound = revision_of-le _ r;
    flag = f;
  }

  completed-IsInstalled :
      (n : ℕ) {p : ToolkitProbe}
      → revision_of (get (codes "TOOLKIT_BUILD_REVISION") kv) ≡ some n
      → completed (get (codes "TOOLKIT_COMPLETE") kv) version build n ≡ ok p
      → IsInstalled kv p
  unfolding completed
  completed-IsInstalled n r h =
      elim (Bool-cases (text_eq (get (codes "TOOLKIT_COMPLETE") kv) (codes "0"))) [
        | inl zero_flag ↦
            subst (IsInstalled kv) (ok-injective (rw zero_flag at h))
              (IsInstalled-found n false r ((text_eq_iff _ _).0 zero_flag))
        | inr other ↦ elim (Bool-cases (text_eq (get (codes "TOOLKIT_COMPLETE") kv) (codes "1"))) [
          | inl one_flag ↦
              subst (IsInstalled kv) (ok-injective (rw (other, one_flag) at h))
                (IsInstalled-found n true r ((text_eq_iff _ _).0 one_flag))
          | inr bad ↦ cc (rw (other, bad) at h)
        ]
      ]

  with_revision-IsInstalled :
      (o : Option ℕ) {p : ToolkitProbe}
      → revision_of (get (codes "TOOLKIT_BUILD_REVISION") kv) ≡ o
      → with_revision (get (codes "TOOLKIT_COMPLETE") kv) version build o ≡ ok p
      → IsInstalled kv p
  unfolding with_revision
  with_revision-IsInstalled none r h = cc
  with_revision-IsInstalled (some n) r h = completed-IsInstalled n r h

build_ok_of :
    (build : Text)
    → (not (is_empty build) && not (is_build_id build)) ≡ false
    → (build ≡ []) ⊎ (is_build_id build ≡ true)
build_ok_of build h = ground arith

installed-IsInstalled : (kv : Fields) {p : ToolkitProbe} → installed kv ≡ ok p → IsInstalled kv p
unfolding installed
installed-IsInstalled kv h =
    let version = trim_space (get (codes "TOOLKIT_VERSION") kv) in
    let build = trim_space (get (codes "TOOLKIT_BUILD_ID") kv) in
    elim (Bool-cases (matches_version version)) [
      | inr bad ↦ cc (rw bad at h)
      | inl good ↦ elim (Bool-cases (not (is_empty build) && not (is_build_id build))) [
        | inl bad ↦ cc (rw (good, bad) at h)
        | inr fine ↦
            with_revision-IsInstalled kv version build good (build_ok_of build fine) refl refl _
              refl (rw (good, fine) at h)
      ]
    ]

probe_of-IsInstalled :
    (kv : Fields) {p : ToolkitProbe}
    → probe_of kv ≡ ok p
    → (p ≡ absent) × (get (codes "TOOLKIT_PRESENT") kv ≡ codes "0") ⊎ IsInstalled kv p
unfolding probe_of
probe_of-IsInstalled kv h =
    elim (Bool-cases (text_eq (get (codes "TOOLKIT_PRESENT") kv) (codes "0"))) [
      | inl none_there ↦
          inl (sym (ok-injective (rw none_there at h)), (text_eq_iff _ _).0 none_there)
      | inr other ↦ elim (Bool-cases (text_eq (get (codes "TOOLKIT_PRESENT") kv) (codes "1"))) [
        | inl there ↦ inr (installed-IsInstalled kv (rw (other, there) at h))
        | inr bad ↦ cc (rw (other, bad) at h)
      ]
    ]

-- An accepted probe says that nothing is installed because the block's presence flag is "0", or it
-- holds the block's version, build, revision and completeness, each of which passed its test.
pub parse_toolkit_probe-IsInstalled :
    (stdout : Text) {p : ToolkitProbe}
    → parse_toolkit_probe stdout ≡ ok p
    → (block : Text) × (extract_marker_block_current_or_legacy stdout
          (codes "__PNA_TOOLKIT_PROBE_BEGIN__")
          (codes "__PNA_TOOLKIT_PROBE_END__")
          (codes "__TNA_TOOLKIT_PROBE_BEGIN__")
          (codes "__TNA_TOOLKIT_PROBE_END__")
        ≡ ok block)
      × ((p ≡ absent) × (get (codes "TOOLKIT_PRESENT") (parse_kv block) ≡ codes "0")
          ⊎ IsInstalled (parse_kv block) p)
unfolding parse_toolkit_probe
parse_toolkit_probe-IsInstalled stdout h =
    let (block, found, read) = >>=-eq-ok _ (λ payload. probe_of (parse_kv payload)) h in
    (block, wrap-eq-ok rejected _ found, probe_of-IsInstalled (parse_kv block) read)
