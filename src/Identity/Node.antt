-- ===== src/Identity/Node.antt =====
-- parseNodeIdentity of node_identity.go, and parseIPRebindPreflight and verifyStableIdentity of
-- ip_rebind.go.
pub mod Sound
use proxy_node_assistant.Prelude.{
  ◌>>=◌, Bool, Result, [], all, between, err, if◌then◌else◌, is_empty, not, ok, wrap, ℕ, ◌&&◌, ◌++◌,
  ◌==◌, ◌||◌, ◌∷◌,
}
use proxy_node_assistant.Deployment.{parse_deployment_mode}
use proxy_node_assistant.Identity.{AddressError, canonical_public_ipv4}
use proxy_node_assistant.Plan.Identity.{valid_domain}
use proxy_node_assistant.Protocol.KeyValue.{parse_kv}
use proxy_node_assistant.Protocol.Marker.{MarkerError, extract_marker_block_current_or_legacy}
use proxy_node_assistant.Text.{Fields, Text, codes, get, has_prefix, is_digit, is_some, text_eq, ℤ}
use proxy_node_assistant.Transaction.{counted, is_hex, then_literal}

pub record NodeIdentity : Type 0 where
  pub server_id : Text
  pub node_id : Text
  pub machine_id_hash : Text
  pub host_key_alg : Text
  pub host_key_sha256 : Text
  pub first_public_ip : Text
  pub current_public_ip : Text

abbrev prefixed_id : Text → Text → Bool
prefixed_id prefix s =
    then_literal (codes "tna-" ++ prefix) (counted 32 is_hex is_empty) s
    || then_literal (codes "pna-" ++ prefix) (counted 32 is_hex is_empty) s

-- `^(?:tna|pna)-srv-[0-9a-f]{32}$`
unfoldable pub is_server_id : Text → Bool
is_server_id s = prefixed_id (codes "srv-") s

-- `^(?:tna|pna)-node-[0-9a-f]{32}$`
unfoldable pub is_node_id : Text → Bool
is_node_id s = prefixed_id (codes "node-") s

abbrev is_base64_char : ℕ → Bool
is_base64_char c =
    between b'A' b'Z' c || between b'a' b'z' c || is_digit c || c == b'+' || c == b'/'

-- `^SHA256:[A-Za-z0-9+/]+$`
unfoldable pub is_sha256_fingerprint : Text → Bool
is_sha256_fingerprint =
    then_literal (codes "SHA256:") (λ rest. not (is_empty rest) && all is_base64_char rest)

-- `^[0-9a-f]{64}$`
unfoldable pub is_sha256_hex : Text → Bool
is_sha256_hex = counted 64 is_hex is_empty

unfoldable pub supported_host_key_alg : Text → Bool
unfolding text_eq has_prefix
supported_host_key_alg alg =
    text_eq alg (codes "ssh-ed25519")
    || text_eq alg (codes "ssh-rsa")
    || has_prefix (codes "ecdsa-sha2-nistp") alg

pub data IdentityError : Type 0 where
  block_refused : MarkerError → IdentityError
  invalid_identity unsupported_algorithm : IdentityError
  invalid_first_ip invalid_current_ip : AddressError → IdentityError

abbrev pub identity_of : Fields → NodeIdentity
unfolding get
identity_of values = record {
  server_id = get (codes "SERVER_ID") values;
  node_id = get (codes "NODE_ID") values;
  machine_id_hash = get (codes "MACHINE_ID_SHA256") values;
  host_key_alg = get (codes "SSH_HOST_KEY_ALGORITHM") values;
  host_key_sha256 = get (codes "SSH_HOST_KEY_SHA256") values;
  first_public_ip = get (codes "FIRST_KNOWN_PUBLIC_IP") values;
  current_public_ip = get (codes "CURRENT_PUBLIC_IP") values;
}

abbrev pub is_set : Text → Text → Fields → Bool
unfolding get text_eq
is_set key value values = text_eq (get key values) value

abbrev well_formed : NodeIdentity → Fields → Bool
unfolding is_server_id is_node_id is_sha256_hex is_sha256_fingerprint is_set
well_formed id values =
    is_server_id id.server_id
    && is_node_id id.node_id
    && is_sha256_hex id.machine_id_hash
    && is_sha256_fingerprint id.host_key_sha256
    && is_set (codes "MACHINE_ID_MATCH") (codes "1") values
    && is_set (codes "SSH_HOST_KEY_MATCH") (codes "1") values

unfoldable pub checked_identity : NodeIdentity → Fields → Result IdentityError NodeIdentity
unfolding canonical_public_ipv4 supported_host_key_alg well_formed
checked_identity id values =
    if not (well_formed id values)
    then err invalid_identity
    else wrap invalid_first_ip (canonical_public_ipv4 id.first_public_ip) >>= λ first.
        wrap invalid_current_ip (canonical_public_ipv4 id.current_public_ip) >>= λ current.
        if not (supported_host_key_alg id.host_key_alg) then err unsupported_algorithm else ok id

-- The block between the current markers, or else between the former ones.
unfoldable pub identity_block : Text → Result MarkerError Text
unfolding extract_marker_block_current_or_legacy
identity_block stdout =
    extract_marker_block_current_or_legacy stdout (codes "__TNA_NODE_IDENTITY_V1_BEGIN__")
      (codes "__TNA_NODE_IDENTITY_V1_END__") (codes "__PNA_NODE_IDENTITY_V1_BEGIN__")
      (codes "__PNA_NODE_IDENTITY_V1_END__")

unfoldable pub parse_node_identity : Text → Result IdentityError NodeIdentity
unfolding identity_block checked_identity parse_kv
parse_node_identity stdout = wrap block_refused (identity_block stdout) >>= λ block.
    checked_identity (identity_of (parse_kv block)) (parse_kv block)

pub record RebindContext : Type 0 where
  pub old_ip : Text
  pub new_ip : Text
  pub old_domain : Text
  pub new_domain : Text
  pub mode : Text
  pub active_mode : Text

pub data PreflightError : Type 0 where
  preflight_block : MarkerError → PreflightError
  contract_broken invalid_domain unsupported_mode : PreflightError
  invalid_address : AddressError → PreflightError

abbrev pub context_of : Fields → RebindContext
unfolding get
context_of values = record {
  old_ip = get (codes "OLD_IP") values;
  new_ip = get (codes "NEW_IP") values;
  old_domain = get (codes "OLD_CONSTRUCTION_DOMAIN") values;
  new_domain = get (codes "NEW_CONSTRUCTION_DOMAIN") values;
  mode = get (codes "DEPLOYMENT_MODE") values;
  active_mode = get (codes "ACTIVE_MODE") values;
}

-- The contract that fails closed: nothing was changed, and it is the same server.
abbrev pub contract : Fields
contract =
    (codes "IP_REBIND_STATUS", codes "IP_REBIND_PREPARED")
    ∷ (codes "SERVER_ID_MATCH", codes "1")
    ∷ (codes "NODE_ID_UNCHANGED", codes "1")
    ∷ (codes "MACHINE_ID_MATCH", codes "1")
    ∷ (codes "REMOTE_PUBLIC_IP_MATCH", codes "1")
    ∷ (codes "SNAPSHOT_CREATED", codes "1")
    ∷ (codes "DNS_MUTATED", codes "0")
    ∷ (codes "CLOUDFLARE_MUTATION", codes "NONE")
    ∷ []

abbrev pub keeps_contract : Fields → Bool
unfolding is_set
keeps_contract values = all (λ (f : Text × Text). is_set f.0 f.1 values) contract

unfoldable pub checked_context : RebindContext → Fields → Result PreflightError RebindContext
unfolding keeps_contract canonical_public_ipv4 valid_domain parse_deployment_mode
checked_context ctx values =
    if not (keeps_contract values)
    then err contract_broken
    else wrap invalid_address (canonical_public_ipv4 ctx.old_ip) >>= λ old.
        wrap invalid_address (canonical_public_ipv4 ctx.new_ip) >>= λ new.
        if not (valid_domain ctx.old_domain) || not (valid_domain ctx.new_domain)
        then err invalid_domain
        else if not (is_some (parse_deployment_mode ctx.mode))
        then err unsupported_mode
        else ok ctx

unfoldable pub preflight_block_of : Text → Result MarkerError Text
unfolding extract_marker_block_current_or_legacy
preflight_block_of stdout =
    extract_marker_block_current_or_legacy stdout (codes "__TNA_IP_REBIND_PREFLIGHT_V1_BEGIN__")
      (codes "__TNA_IP_REBIND_PREFLIGHT_V1_END__") (codes "__PNA_IP_REBIND_PREFLIGHT_V1_BEGIN__")
      (codes "__PNA_IP_REBIND_PREFLIGHT_V1_END__")

unfoldable pub parse_ip_rebind_preflight : Text → Result PreflightError RebindContext
unfolding preflight_block_of checked_context parse_kv
parse_ip_rebind_preflight stdout = wrap preflight_block (preflight_block_of stdout) >>= λ block.
    checked_context (context_of (parse_kv block)) (parse_kv block)

-- The fields of the saved key's metadata that the node is compared with.
pub record ManagedKeyMetadata : Type 0 where
  pub node_id : Text
  pub server_id : Text
  pub machine_id_hash : Text
  pub host_key_sha256 : Text
  pub current_public : Text
  pub port : ℤ

pub data StableError : Type 0 where
  node_or_server_mismatch machine_mismatch host_key_mismatch : StableError

unfoldable pub verify_stable_identity :
    ManagedKeyMetadata → NodeIdentity → Result StableError (Unit {0})
unfolding text_eq
verify_stable_identity expected actual =
    if not (text_eq expected.node_id actual.node_id)
      || not (text_eq expected.server_id actual.server_id)
    then err node_or_server_mismatch
    else if not (text_eq expected.machine_id_hash actual.machine_id_hash)
    then err machine_mismatch
    else if not (text_eq expected.host_key_sha256 actual.host_key_sha256)
    then err host_key_mismatch
    else ok tt
