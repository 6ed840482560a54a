-- ===== src/Examples/Identities.antt =====
-- The theorems on node_identity.go and ip_rebind.go, at concrete inputs.
use proxy_node_assistant.Identity.{Ipv4, canonical_public_ipv4}
use proxy_node_assistant.Identity.Address.{IsPublicAddress, canonical_public_ipv4_iff}
use proxy_node_assistant.Identity.Node.{
  NodeIdentity, RebindContext, parse_ip_rebind_preflight, parse_node_identity,
}
use proxy_node_assistant.Identity.Node.Sound.{IsNodeIdentity, parse_node_identity-IsNodeIdentity}
use proxy_node_assistant.Prelude.{[], ok, refl, ◌++◌, ◌↔◌, ◌∷◌, ◌≡◌}
use proxy_node_assistant.Text.{Text, codes, terminated}

abbrev pub a_hash : Text
a_hash = codes "0123456789abcdef0123456789abcdef0123456789abcdef0123456789abcdef"

abbrev pub a_server : Text
a_server = codes "tna-srv-0123456789abcdef0123456789abcdef"

abbrev pub a_node : Text
a_node = codes "tna-node-0123456789abcdef0123456789abcdef"

abbrev pub identity_text : Text → Text
identity_text current = terminated (
    codes "__TNA_NODE_IDENTITY_V1_BEGIN__"
    ∷ (codes "SERVER_ID=" ++ a_server)
    ∷ (codes "NODE_ID=" ++ a_node)
    ∷ (codes "MACHINE_ID_SHA256=" ++ a_hash)
    ∷ codes "MACHINE_ID_MATCH=1"
    ∷ codes "SSH_HOST_KEY_ALGORITHM=ssh-ed25519"
    ∷ codes "SSH_HOST_KEY_SHA256=SHA256:abc+/9"
    ∷ codes "SSH_HOST_KEY_MATCH=1"
    ∷ codes "FIRST_KNOWN_PUBLIC_IP=8.8.4.4"
    ∷ (codes "CURRENT_PUBLIC_IP=" ++ current)
    ∷ codes "__TNA_NODE_IDENTITY_V1_END__"
    ∷ [])

abbrev identity_at : Text → NodeIdentity
identity_at current = record {
  server_id = a_server;
  node_id = a_node;
  machine_id_hash = a_hash;
  host_key_alg = codes "ssh-ed25519";
  host_key_sha256 = codes "SHA256:abc+/9";
  first_public_ip = codes "8.8.4.4";
  current_public_ip = current;
}

identity_read :
    parse_node_identity (identity_text (codes "8.8.8.8")) ≡ ok (identity_at (codes "8.8.8.8"))
unfolding parse_node_identity
identity_read = refl

abbrev pub preflight_text : Text
preflight_text = terminated (
    codes "__TNA_IP_REBIND_PREFLIGHT_V1_BEGIN__"
    ∷ codes "IP_REBIND_STATUS=IP_REBIND_PREPARED"
    ∷ codes "SERVER_ID_MATCH=1"
    ∷ codes "NODE_ID_UNCHANGED=1"
    ∷ codes "MACHINE_ID_MATCH=1"
    ∷ codes "REMOTE_PUBLIC_IP_MATCH=1"
    ∷ codes "SNAPSHOT_CREATED=1"
    ∷ codes "DNS_MUTATED=0"
    ∷ codes "CLOUDFLARE_MUTATION=NONE"
    ∷ codes "OLD_IP=8.8.8.8"
    ∷ codes "NEW_IP=9.9.9.9"
    ∷ codes "OLD_CONSTRUCTION_DOMAIN=node.example.com"
    ∷ codes "NEW_CONSTRUCTION_DOMAIN=node.example.com"
    ∷ codes "DEPLOYMENT_MODE=direct-reality"
    ∷ codes "ACTIVE_MODE=ACTIVE_DIRECT"
    ∷ codes "__TNA_IP_REBIND_PREFLIGHT_V1_END__"
    ∷ [])

abbrev a_context : RebindContext
a_context = record {
  old_ip = codes "8.8.8.8";
  new_ip = codes "9.9.9.9";
  old_domain = codes "node.example.com";
  new_domain = codes "node.example.com";
  mode = codes "direct-reality";
  active_mode = codes "ACTIVE_DIRECT";
}

preflight_read : parse_ip_rebind_preflight preflight_text ≡ ok a_context
unfolding parse_ip_rebind_preflight
preflight_read = refl

canonical_public_ipv4_iff_example :
    (canonical_public_ipv4 (codes "8.8.8.8") ≡ ok (codes "8.8.8.8"))
    ↔ ((codes "8.8.8.8" ≡ codes "8.8.8.8") × (ip : Ipv4) × IsPublicAddress (codes "8.8.8.8") ip)
canonical_public_ipv4_iff_example = canonical_public_ipv4_iff (codes "8.8.8.8") (codes "8.8.8.8")

parse_node_identity-IsNodeIdentity_example :
    IsNodeIdentity (identity_text (codes "8.8.8.8")) (identity_at (codes "8.8.8.8"))
parse_node_identity-IsNodeIdentity_example =
    parse_node_identity-IsNodeIdentity (identity_text (codes "8.8.8.8")) identity_read
