-- ===== src/Examples/Rebindings.antt =====
-- The theorem on rebindPublicIP of ip_rebind.go, at a concrete run.
use proxy_node_assistant.Examples.Identities.{
  a_hash, a_node, a_server, identity_text, preflight_text,
}
use proxy_node_assistant.Console.{Input}
use proxy_node_assistant.Effects.{ProcessResult}
use proxy_node_assistant.Identity.Node.{ManagedKeyMetadata}
use proxy_node_assistant.Prelude.{List, [], false, ok, refl, some, true, ◌∷◌, ◌≡◌}
use proxy_node_assistant.Rebind.{RebindEvent, RebindWorld, rebound}
use proxy_node_assistant.Rebind.Complete.{CompleteRebind, rebind_public_ip-eq-rebound}
use proxy_node_assistant.Rebind.Handler.{rebind_public_ip}
use proxy_node_assistant.Text.{Text, codes, pos}

abbrev said : Text → ProcessResult
said text = record { stdout = text; stderr = []; exit_code = pos 0; failed = false }

abbrev reply_at : List ProcessResult → List RebindEvent → ProcessResult
reply_at [] log = said []
reply_at (r ∷ rs) [] = r
reply_at (r ∷ rs) (e ∷ log) = reply_at rs log

-- One answer for each length of the log.
abbrev moving : RebindWorld
moving = record {
  reply = reply_at (
      said []
      ∷ said []
      ∷ said []
      ∷ said (codes "SSH_KEY_OK")
      ∷ said (identity_text (codes "8.8.8.8"))
      ∷ said []
      ∷ said (codes "COVER_DOMAIN=node.example.com")
      ∷ said preflight_text
      ∷ said []
      ∷ said []
      ∷ said (codes "IP_REBIND_STATUS=IP_REBIND_COMPLETE")
      ∷ said (identity_text (codes "9.9.9.9"))
      ∷ []);
  reachable = λ log. true;
  staged = λ log. true;
  installed = λ log. false;
  toolkit_ready = λ log. true;
  addresses = λ log. some (some (codes "9.9.9.9") ∷ []);
  bound = λ log. true;
}

abbrev a_key : ManagedKeyMetadata
a_key = record {
  node_id = a_node;
  server_id = a_server;
  machine_id_hash = a_hash;
  host_key_sha256 = codes "SHA256:abc+/9";
  current_public = codes "8.8.8.8";
  port = pos 22;
}

-- The new address, then the port and the domain as they are.
abbrev typed_lines : Input
typed_lines = codes "9.9.9.9" ∷ [] ∷ [] ∷ []

abbrev moved_log : List RebindEvent
moved_log = (rebind_public_ip moving a_key typed_lines []).1

moving_run : rebind_public_ip moving a_key typed_lines [] ≡ (ok rebound, moved_log)
unfolding rebind_public_ip
moving_run = refl

rebind_public_ip-eq-rebound_example : CompleteRebind moving a_key typed_lines [] moved_log
rebind_public_ip-eq-rebound_example =
    rebind_public_ip-eq-rebound moving a_key typed_lines [] moving_run
