-- ===== src/Protocol/Readiness/Laws.antt =====
-- What an accepted readiness answer guarantees.
use proxy_node_assistant.Prelude.{
  Bool-cases, differs, inl, inr, eq_of_differs, >>=-eq-ok, Option, arith, none, ok-injective, subst,
  wrap-eq-ok, ◌&&◌, Bool, String, any, false, if◌then◌else◌, ok, some, true, ◌≡◌,
}
use proxy_node_assistant.Protocol.Readiness.{
  checked, read_fields, source_of, bool_at, CredentialReadiness, rejected, smuggles, is_source,
  read_bool, readiness_of, parse_credential_readiness,
}
use proxy_node_assistant.Text.{text_eq_iff, Fields, Text, codes, find}
use proxy_node_assistant.Protocol.Marker.{extract_marked_block}
use proxy_node_assistant.Protocol.KeyValue.{parse_kv}

-- The value of a presence marker, if it is exactly "0" or "1".
abbrev pub IsMarker : Fields → String → Bool → Type 0
IsMarker values key b = find (codes key) values ≡ some (if b then codes "1" else codes "0")

-- Each field is a marker of the block that was read, the complete marker is their conjunction, no
-- key could carry a credential, and the source is short and plain.
pub record IsReadiness (values : Fields) (r : CredentialReadiness) : Type 0 where
  pub vps_user : IsMarker values "VPS_LOGIN_USER_PRESENT" r.vps_user_present
  pub vps_password : IsMarker values "VPS_LOGIN_PASSWORD_PRESENT" r.vps_password_present
  pub panel_user : IsMarker values "PANEL_USERNAME_PRESENT" r.panel_user_present
  pub panel_password : IsMarker values "PANEL_PASSWORD_PRESENT" r.panel_password_present
  pub complete : IsMarker values "COMPLETE" r.complete
  pub agrees : r.complete ≡ (
      r.vps_user_present && r.vps_password_present && r.panel_user_present
      && r.panel_password_present)
  pub presence_only : any (λ (e : Text × Text). smuggles e.0) values ≡ false
  pub source : is_source r.source ≡ true

bool_at-eq-ok :
    (key : Text) (o : Option Text) {b : Bool}
    → bool_at key o ≡ ok b
    → o ≡ some (if b then codes "1" else codes "0")
bool_at-eq-ok key none h = cc
bool_at-eq-ok key (some value) {b} h =
    ground (arith, text_eq_iff value (codes "0"), text_eq_iff value (codes "1"))

read_bool-eq-ok :
    (values : Fields) (key : Text) {b : Bool}
    → read_bool values key ≡ ok b
    → find key values ≡ some (if b then codes "1" else codes "0")
unfolding read_bool
read_bool-eq-ok values key h = bool_at-eq-ok key (find key values) h

-- The facts that the five markers and the last checks give.
checked-IsReadiness :
    (values : Fields) (a b c d e : Bool) {r : CredentialReadiness}
    → IsMarker values "VPS_LOGIN_USER_PRESENT" a
    → IsMarker values "VPS_LOGIN_PASSWORD_PRESENT" b
    → IsMarker values "PANEL_USERNAME_PRESENT" c
    → IsMarker values "PANEL_PASSWORD_PRESENT" d
    → IsMarker values "COMPLETE" e
    → any (λ (e : Text × Text). smuggles e.0) values ≡ false
    → checked values a b c d e ≡ ok r
    → IsReadiness values r
unfolding checked
checked-IsReadiness values a b c d e ma mb mc md me presence h =
    elim (Bool-cases (is_source (source_of values))) [
      | inr bad ↦ cc (rw bad at h)
      | inl good ↦ elim (Bool-cases (differs e (a && b && c && d))) [
        | inl bad ↦ cc (rw (good, bad) at h)
        | inr same ↦ subst (IsReadiness values) (ok-injective (rw (good, same) at h)) (record {
          vps_user = ma;
          vps_password = mb;
          panel_user = mc;
          panel_password = md;
          complete = me;
          agrees = eq_of_differs e (a && b && c && d) same;
          presence_only = presence;
          source = good;
        })
      ]
    ]

read_fields-IsReadiness :
    (values : Fields) {r : CredentialReadiness}
    → any (λ (e : Text × Text). smuggles e.0) values ≡ false
    → read_fields values ≡ ok r
    → IsReadiness values r
unfolding read_fields
read_fields-IsReadiness values presence h =
    let (a, ra, h1) = >>=-eq-ok _ _ h in
    let (b, rb, h2) = >>=-eq-ok _ _ h1 in
    let (c, rc, h3) = >>=-eq-ok _ _ h2 in
    let (d, rd, h4) = >>=-eq-ok _ _ h3 in
    let (e, re, h5) = >>=-eq-ok _ _ h4 in
    checked-IsReadiness values a b c d e
      (read_bool-eq-ok values (codes "VPS_LOGIN_USER_PRESENT") ra)
      (read_bool-eq-ok values (codes "VPS_LOGIN_PASSWORD_PRESENT") rb)
      (read_bool-eq-ok values (codes "PANEL_USERNAME_PRESENT") rc)
      (read_bool-eq-ok values (codes "PANEL_PASSWORD_PRESENT") rd)
      (read_bool-eq-ok values (codes "COMPLETE") re) presence h5

readiness_of-IsReadiness :
    (values : Fields) {r : CredentialReadiness} → readiness_of values ≡ ok r → IsReadiness values r
unfolding readiness_of
readiness_of-IsReadiness values h =
    elim (Bool-cases (any (λ (e : Text × Text). smuggles e.0) values)) [
      | inl bad ↦ cc (rw bad at h)
      | inr presence ↦ read_fields-IsReadiness values presence (rw presence at h)
    ]

-- An accepted answer was read between the markers: each of its flags is the "0" or "1" of its own
-- marker, the complete flag is the conjunction of the four others, no key of the block could carry a
-- credential, and the source is a plain word of at most 32 characters.
pub parse_credential_readiness-IsReadiness :
    (stdout : Text) {r : CredentialReadiness}
    → parse_credential_readiness stdout ≡ ok r
    → (payload : Text) × (extract_marked_block stdout
          (codes "__PNA_CREDENTIAL_READINESS_BEGIN__")
          (codes "__PNA_CREDENTIAL_READINESS_END__")
        ≡ ok payload)
      × IsReadiness (parse_kv payload) r
unfolding parse_credential_readiness
parse_credential_readiness-IsReadiness stdout h =
    let (payload, found, read) = >>=-eq-ok _ _ h in
    (payload, wrap-eq-ok rejected _ found, readiness_of-IsReadiness (parse_kv payload) read)
