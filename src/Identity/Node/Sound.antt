-- ===== src/Identity/Node/Sound.antt =====
-- What an accepted identity and an accepted preflight of a rebinding are.
use proxy_node_assistant.Prelude.{
  Bool, ◌&&◌, All, Option, [], all, and-eq-true, arith, false, guard-eq-ok, none, not, not-eq-false,
  ok, ok-injective, or-eq-false, refl, some, subst, true, wrap, wrap-eq-ok, ◌||◌, ◌∷◌, ◌≡◌,
  >>=-eq-ok,
}
use proxy_node_assistant.Deployment.{DeploymentMode, parse_deployment_mode}
use proxy_node_assistant.Identity.{Ipv4, canonical_public_ipv4}
use proxy_node_assistant.Identity.Address.{IsPublicAddress, canonical_public_ipv4_iff}
use proxy_node_assistant.Identity.Node.{
  NodeIdentity, RebindContext, block_refused, checked_context, checked_identity, context_of,
  contract, contract_broken, identity_block, identity_of, invalid_address, invalid_current_ip,
  invalid_domain, invalid_first_ip, invalid_identity, is_node_id, is_server_id, is_set,
  is_sha256_fingerprint, is_sha256_hex, keeps_contract, parse_ip_rebind_preflight,
  parse_node_identity, preflight_block, preflight_block_of, supported_host_key_alg,
  unsupported_algorithm, unsupported_mode, well_formed,
}
use proxy_node_assistant.Plan.Identity.{valid_domain}
use proxy_node_assistant.Protocol.KeyValue.{parse_kv}
use proxy_node_assistant.Text.{Fields, Text, codes, get, is_some, text_eq_iff}

-- The identity was read between the markers, its parts have their form, and the server has found that
-- its machine and its host key are those of the identity.
pub record IsNodeIdentity (stdout : Text) (id : NodeIdentity) : Type 0 where
  pub block : Text
  pub between_markers : identity_block stdout ≡ ok block
  pub from_block : id ≡ identity_of (parse_kv block)
  pub server_form : is_server_id id.server_id ≡ true
  pub node_form : is_node_id id.node_id ≡ true
  pub machine_form : is_sha256_hex id.machine_id_hash ≡ true
  pub host_key_form : is_sha256_fingerprint id.host_key_sha256 ≡ true
  pub machine_matches : get (codes "MACHINE_ID_MATCH") (parse_kv block) ≡ codes "1"
  pub host_key_matches : get (codes "SSH_HOST_KEY_MATCH") (parse_kv block) ≡ codes "1"
  pub first_public : (ip : Ipv4) × IsPublicAddress id.first_public_ip ip
  pub current_public : (ip : Ipv4) × IsPublicAddress id.current_public_ip ip
  pub algorithm : supported_host_key_alg id.host_key_alg ≡ true

is_set_lem : (k v : Text) (values : Fields) → is_set k v values ≡ true → get k values ≡ v
unfolding is_set
is_set_lem k v values h = (text_eq_iff (get k values) v).0 h

public_lem :
    (value : Text) {w : Text}
    → canonical_public_ipv4 value ≡ ok w
    → (ip : Ipv4) × IsPublicAddress value ip
public_lem value {w} h = let (same, ip, p) = (canonical_public_ipv4_iff value w).0 h in (ip, p)

six_true :
    (a b c d e f : Bool)
    → (a && b && c && d && e && f) ≡ true
    → (a ≡ true) × (b ≡ true) × (c ≡ true) × (d ≡ true) × (e ≡ true) × (f ≡ true)
six_true a b c d e f h = ground arith

-- An accepted answer is an identity in this sense: read between the markers, each part in its form,
-- with both matches confirmed, with two public IPv4 addresses and a supported host key.
pub parse_node_identity-IsNodeIdentity :
    (stdout : Text) {id : NodeIdentity}
    → parse_node_identity stdout ≡ ok id
    → IsNodeIdentity stdout id
unfolding parse_node_identity checked_identity well_formed
parse_node_identity-IsNodeIdentity stdout h =
    let (block, e, h1) = >>=-eq-ok (wrap block_refused (identity_block stdout)) _ h in
    let values = parse_kv block in
    let found = identity_of values in
    let (form, h2) = guard-eq-ok (not (well_formed found values)) invalid_identity _ h1 in
    let (server, node, machine, key, same_machine, same_key) =
      six_true (is_server_id found.server_id) (is_node_id found.node_id)
        (is_sha256_hex found.machine_id_hash) (is_sha256_fingerprint found.host_key_sha256)
        (is_set (codes "MACHINE_ID_MATCH") (codes "1") values)
        (is_set (codes "SSH_HOST_KEY_MATCH") (codes "1") values) (not-eq-false form) in
    let (first, f, h3) =
      >>=-eq-ok (wrap invalid_first_ip (canonical_public_ipv4 found.first_public_ip)) _ h2 in
    let (current, c, h4) =
      >>=-eq-ok (wrap invalid_current_ip (canonical_public_ipv4 found.current_public_ip)) _ h3 in
    let (alg, h5) =
      guard-eq-ok (not (supported_host_key_alg found.host_key_alg)) unsupported_algorithm (ok found)
        h4 in
    subst (IsNodeIdentity stdout) (ok-injective h5) (record {
      block = block;
      between_markers = wrap-eq-ok block_refused (identity_block stdout) e;
      from_block = refl;
      server_form = server;
      node_form = node;
      machine_form = machine;
      host_key_form = key;
      machine_matches = is_set_lem (codes "MACHINE_ID_MATCH") (codes "1") values same_machine;
      host_key_matches = is_set_lem (codes "SSH_HOST_KEY_MATCH") (codes "1") values same_key;
      first_public = public_lem found.first_public_ip (wrap-eq-ok invalid_first_ip _ f);
      current_public = public_lem found.current_public_ip (wrap-eq-ok invalid_current_ip _ c);
      algorithm = not-eq-false alg;
    })

pub record IsPrepared (stdout : Text) (ctx : RebindContext) : Type 0 where
  pub block : Text
  pub between_markers : preflight_block_of stdout ≡ ok block
  pub from_block : ctx ≡ context_of (parse_kv block)
  pub promised : All (λ (f : Text × Text). get f.0 (parse_kv block) ≡ f.1) contract
  pub old_public : (ip : Ipv4) × IsPublicAddress ctx.old_ip ip
  pub new_public : (ip : Ipv4) × IsPublicAddress ctx.new_ip ip
  pub old_named : valid_domain ctx.old_domain ≡ true
  pub new_named : valid_domain ctx.new_domain ≡ true
  pub mode_known : (mode : DeploymentMode) × (parse_deployment_mode ctx.mode ≡ some mode)

all_set :
    (fields values : Fields)
    → all (λ (f : Text × Text). is_set f.0 f.1 values) fields ≡ true
    → All (λ (f : Text × Text). get f.0 values ≡ f.1) fields
all_set [] values h = tt
all_set (f ∷ fields) values h =
    let (here, later) = and-eq-true (is_set f.0 f.1 values) _ h in
    (is_set_lem f.0 f.1 values here, all_set fields values later)

is_some_lem : {A : Type 0} (o : Option A) → not (is_some o) ≡ false → (a : A) × (o ≡ some a)
is_some_lem none h = cc
is_some_lem (some a) h = (a, refl)

-- An accepted preflight was read between the markers, keeps every line of the contract that nothing was
-- changed, and names two public addresses, two valid domains and a known deployment mode.
pub parse_ip_rebind_preflight-IsPrepared :
    (stdout : Text) {ctx : RebindContext}
    → parse_ip_rebind_preflight stdout ≡ ok ctx
    → IsPrepared stdout ctx
unfolding parse_ip_rebind_preflight checked_context keeps_contract
parse_ip_rebind_preflight-IsPrepared stdout h =
    let (block, e, h1) = >>=-eq-ok (wrap preflight_block (preflight_block_of stdout)) _ h in
    let values = parse_kv block in
    let found = context_of values in
    let (kept_lines, h2) = guard-eq-ok (not (keeps_contract values)) contract_broken _ h1 in
    let (old, o, h3) = >>=-eq-ok (wrap invalid_address (canonical_public_ipv4 found.old_ip)) _ h2 in
    let (new, n, h4) = >>=-eq-ok (wrap invalid_address (canonical_public_ipv4 found.new_ip)) _ h3 in
    let (named, h5) =
      guard-eq-ok (not (valid_domain found.old_domain) || not (valid_domain found.new_domain))
        invalid_domain _ h4 in
    let (known, h6) =
      guard-eq-ok (not (is_some (parse_deployment_mode found.mode))) unsupported_mode (ok found)
        h5 in
    let (old_name, new_name) = or-eq-false (not (valid_domain found.old_domain)) _ named in
    subst (IsPrepared stdout) (ok-injective h6) (record {
      block = block;
      between_markers = wrap-eq-ok preflight_block (preflight_block_of stdout) e;
      from_block = refl;
      promised = all_set contract values (not-eq-false kept_lines);
      old_public = public_lem found.old_ip (wrap-eq-ok invalid_address _ o);
      new_public = public_lem found.new_ip (wrap-eq-ok invalid_address _ n);
      old_named = not-eq-false old_name;
      new_named = not-eq-false new_name;
      mode_known = is_some_lem (parse_deployment_mode found.mode) known;
    })
