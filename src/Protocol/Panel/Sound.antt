-- ===== src/Protocol/Panel/Sound.antt =====
-- What the panel's metadata that parsers.go accepts satisfies.
use proxy_node_assistant.Protocol.Panel.{
  panel_rejected, PanelMetadata, PathUrl, empty_path, ended, invalid_path, is_relative,
  normalize_panel_path, panel_of, parse_panel_metadata, rooted, safe_path, unsafe_codes,
  unsafe_path, with_port, with_slashes,
}
use proxy_node_assistant.Prelude.{
  Bool, Bool-cases, Option, [], arith, err, false, if◌then◌else◌, inl, inr, is_empty, none, not, ok,
  ok-injective, ok-ne-err, refl, some, subst, sym, true, wrap, ℕ, ◌++◌, ◌||◌, ◌∙◌, ◌∷◌, ◌≡◌, ◌≤◌,
  >>=-eq-ok,
}
use proxy_node_assistant.Protocol.KeyValue.{parse_kv}
use proxy_node_assistant.Protocol.Marker.{extract_marker_block_current_or_legacy}
use proxy_node_assistant.Text.{
  Fields, Text, atoi, codes, contains_any, cut_prefix, get, has_code, has_prefix, has_suffix,
  text_eq, within, within_bounds,
}

-- A path in slashes without a character that could end it, in which net/url reads no scheme, no query
-- and no fragment.
pub record IsPanelPath (parse_url : Text → Option PathUrl) (path : Text) : Type 0 where
  pub begins : has_prefix (codes "/") path ≡ true
  pub ends : has_suffix (codes "/") path ≡ true
  pub safe : contains_any unsafe_codes path ≡ false
  pub relative : is_relative (parse_url path) ≡ true

contains_any-append :
    (chars a b : Text)
    → contains_any chars (a ++ b) ≡ (contains_any chars a || contains_any chars b)
unfolding contains_any
contains_any-append chars [] b = refl
contains_any-append chars (c ∷ a) b = rw (contains_any-append chars a b) (ground arith)

has_suffix-append : (a : Text) → has_suffix (codes "/") (a ++ codes "/") ≡ true
unfolding has_suffix text_eq
has_suffix-append [] = refl
has_suffix-append (c ∷ a) = rw (has_suffix-append a) (ground arith)

has_prefix-append :
    (a b : Text) → has_prefix (codes "/") a ≡ true → has_prefix (codes "/") (a ++ b) ≡ true
unfolding has_prefix cut_prefix
has_prefix-append [] b h = cc
has_prefix-append (c ∷ a) b h = ground arith

slash_prefix : (v : Text) → has_prefix (codes "/") (b'/' ∷ v) ≡ true
unfolding has_prefix cut_prefix
slash_prefix v = refl

slash_safe :
    (v : Text) → contains_any unsafe_codes v ≡ false → contains_any unsafe_codes (b'/' ∷ v) ≡ false
unfolding contains_any has_code
slash_safe v k = k

nothing_unsafe : contains_any unsafe_codes [] ≡ false
unfolding contains_any
nothing_unsafe = refl

rooted_lem :
    (value : Text)
    → contains_any unsafe_codes value ≡ false
    → (has_prefix (codes "/") (rooted value) ≡ true)
      × (contains_any unsafe_codes (rooted value) ≡ false)
rooted_lem value h = elim (Bool-cases (has_prefix (codes "/") value)) [
  | inl e ↦ rw e (e, h)
  | inr e ↦ rw e (slash_prefix value, slash_safe value h)
]

with_slashes_lem :
    (value : Text)
    → contains_any unsafe_codes value ≡ false
    → (has_prefix (codes "/") (with_slashes value) ≡ true)
      × (has_suffix (codes "/") (with_slashes value) ≡ true)
      × (contains_any unsafe_codes (with_slashes value) ≡ false)
with_slashes_lem value h = ended_lem (rooted value) (rooted_lem value h).0 (rooted_lem value h).1
  where
    ended_lem :
        (v : Text)
        → has_prefix (codes "/") v ≡ true
        → contains_any unsafe_codes v ≡ false
        → (has_prefix (codes "/") (ended v) ≡ true)
          × (has_suffix (codes "/") (ended v) ≡ true)
          × (contains_any unsafe_codes (ended v) ≡ false)
    ended_lem v b s = elim (Bool-cases (has_suffix (codes "/") v)) [
      | inl e ↦ rw e (b, e, s)
      | inr e ↦ rw e (
        has_prefix-append v (codes "/") b,
        has_suffix-append v,
        contains_any-append unsafe_codes v (codes "/") ∙ rw s (slash_safe [] nothing_unsafe),
      )
    ]

module _ (parse_url : Text → Option PathUrl) where
  safe_path-IsPanelPath :
      (value : Text) {path : Text}
      → safe_path parse_url value ≡ ok path
      → IsPanelPath parse_url path
  safe_path-IsPanelPath value {path} h =
      let (facts, relative_) =
        passed (is_empty value) (contains_any unsafe_codes value)
          (is_relative (parse_url (with_slashes value))) h in
      let (begins_, ends_, safe_) = with_slashes_lem value facts.0 in
      subst (IsPanelPath parse_url) facts.1
        (record { begins = begins_; ends = ends_; safe = safe_; relative = relative_ })
    where
      passed :
          (a b c : Bool)
          → (if a
              then err empty_path
              else if b
              then err unsafe_path
              else if not c
              then err invalid_path
              else ok (with_slashes value))
            ≡ ok path
          → ((b ≡ false) × (with_slashes value ≡ path)) × (c ≡ true)
      passed true b c k = elim (ok-ne-err (sym k)) [ ]
      passed false true c k = elim (ok-ne-err (sym k)) [ ]
      passed false false false k = elim (ok-ne-err (sym k)) [ ]
      passed false false true k = ((refl, ok-injective k), refl)

  -- Accepted metadata holds a port from 1 to 65535 and a text that begins and ends with a slash, has no
  -- space, tab, line break, ?, # or backslash, and in which net/url reads no scheme, no query and no
  -- fragment.
  pub parse_panel_metadata-IsPanelPath :
      (stdout : Text) {m : PanelMetadata}
      → parse_panel_metadata parse_url stdout ≡ ok m
      → (1 ≤ m.port) × (m.port ≤ 65535) × IsPanelPath parse_url m.path
  unfolding parse_panel_metadata panel_of normalize_panel_path
  parse_panel_metadata-IsPanelPath stdout {m} h =
      let (payload, _, k) =
        >>=-eq-ok
          (wrap panel_rejected (
            extract_marker_block_current_or_legacy stdout (codes "__PNA_PANEL_META_BEGIN__")
              (codes "__PNA_PANEL_META_END__") (codes "__TNA_PANEL_META_BEGIN__")
              (codes "__TNA_PANEL_META_END__")))
          (λ payload. panel_of parse_url (parse_kv payload)) h in
      ported (parse_kv payload)
        (within 1 65535 (atoi (get (codes "PANEL_PORT") (parse_kv payload)))) refl k
    where
      ported :
          (kv : Fields) (o : Option ℕ)
          → within 1 65535 (atoi (get (codes "PANEL_PORT") kv)) ≡ o
          → with_port parse_url kv o ≡ ok m
          → (1 ≤ m.port) × (m.port ≤ 65535) × IsPanelPath parse_url m.path
      ported kv none e k = elim (ok-ne-err (sym k)) [ ]
      ported kv (some port) e k =
          let (path, found, made) =
            >>=-eq-ok (normalize_panel_path parse_url (get (codes "WEB_BASE_PATH") kv))
              (λ path. ok (record {
                port = port;
                path = path;
                source = get (codes "PANEL_METADATA_SOURCE") kv;
              }))
              k in
          let bounds = within_bounds 1 65535 (atoi (get (codes "PANEL_PORT") kv)) e in
          subst
            (λ (r : PanelMetadata). (1 ≤ r.port) × (r.port ≤ 65535) × IsPanelPath parse_url r.path)
            (ok-injective made) (bounds.0, bounds.1, safe_path-IsPanelPath _ found)
