-- ===== src/Rebind/Handler.antt =====
-- rebindPublicIP of ip_rebind.go, from the choice of the key on. Printed text is left out.
use proxy_node_assistant.Console.{Input, prompt, required_until}
use proxy_node_assistant.Effects.{ProcessResult, lift, perform, pure, raise, succeeded, ◌>>=◌}
use proxy_node_assistant.Identity.{canonical_public_ipv4}
use proxy_node_assistant.Identity.Node.{
  IdentityError, ManagedKeyMetadata, NodeIdentity, RebindContext, parse_ip_rebind_preflight,
  parse_node_identity, verify_stable_identity,
}
use proxy_node_assistant.Plan.Identity.{valid_domain}
use proxy_node_assistant.Prelude.{
  Bool, Option, Result, [], err, false, if◌then◌else◌, is_empty, none, not, ok, some, true, wrap,
  ◌&&◌, ◌++◌, ◌||◌, ◌∷◌,
}
use proxy_node_assistant.Protocol.KeyValue.{parse_kv}
use proxy_node_assistant.Rebind.{
  Endpoints, RebindError, RebindOutcome, RebindWorld, Rebinding, abort_command, answered, capture,
  chosen_port, command_for, commit_failed, commit_local, commit_verb, env_command, env_unread,
  identity_refused, identity_unread, input_is_closed, install_key, is_direct_active, is_key_ok,
  key_rejected, local_uncommitted, look_up, new_domain_invalid, new_ip_invalid, not_parked,
  not_stable, not_staged, old_domain_invalid, old_ip_differs, open_dashboard, parked,
  preflight_differs, preflight_failed, preflight_refused, preflight_verb, prepare_toolkit,
  probe_tcp, rebound, refuse, remote_uncommitted, remove_stage, resolves_exclusively_to,
  same_endpoints, same_ip, saved_ip_invalid, show_identity, stage_key, stopped_before_dns,
  toolkit_failed, try_key, unreachable, wait_verb,
}
use proxy_node_assistant.Text.{Fields, Text, codes, contains, get, text_eq, to_lower, trim_space, ℤ}

module _ (world : RebindWorld) where
  unfoldable pub ensure_key : Rebinding (Unit {0})
  unfolding ◌>>=◌ perform pure is_key_ok lift
  ensure_key = perform try_key world.reply >>= λ r.
      if is_key_ok r
      then pure tt
      else perform install_key world.installed >>= λ done. refuse (not done) key_rejected

  unfoldable pub fetch_node_identity : Rebinding NodeIdentity
  unfolding ◌>>=◌ perform raise succeeded lift parse_node_identity
  fetch_node_identity = perform (capture show_identity) world.reply >>= λ r.
      if not (succeeded r)
      then raise (identity_unread r)
      else lift (wrap identity_refused (parse_node_identity r.stdout))

  -- The node behind the new address is the one that the key belongs to.
  unfoldable pub same_node : ManagedKeyMetadata → Text → Rebinding (Unit {0})
  unfolding ◌>>=◌ fetch_node_identity lift verify_stable_identity text_eq
  same_node entry old_ip = fetch_node_identity >>= λ id.
      lift (wrap not_stable (verify_stable_identity entry id)) >>= λ stable.
      refuse (not (text_eq id.current_public_ip old_ip)) old_ip_differs

  unfoldable pub runtime_public_env : Rebinding Fields
  unfolding ◌>>=◌ perform raise succeeded pure parse_kv
  runtime_public_env = perform (capture env_command) world.reply >>= λ r.
      if not (succeeded r) then raise (env_unread r) else pure (parse_kv r.stdout)

  unfoldable pub matching : Endpoints → RebindContext → Rebinding RebindContext
  unfolding ◌>>=◌ pure lift same_endpoints
  matching e ctx = refuse (not (same_endpoints ctx e)) preflight_differs >>= λ same. pure ctx

  unfoldable pub preflight : Endpoints → Rebinding RebindContext
  unfolding ◌>>=◌ perform raise succeeded lift parse_ip_rebind_preflight matching command_for
  preflight e = perform (capture (command_for preflight_verb e)) world.reply >>= λ r.
      if not (succeeded r)
      then raise (preflight_failed r)
      else lift (wrap preflight_refused (parse_ip_rebind_preflight r.stdout)) >>= matching e

  -- A change of the domain too: it waits for the operator whatever the reply is.
  unfoldable pub park_domain_change : Endpoints → Rebinding RebindOutcome
  unfolding ◌>>=◌ perform pure command_for
  park_domain_change e =
      perform (capture (command_for wait_verb e)) world.reply >>= λ r. pure parked

  unfoldable pub park_cdn : Endpoints → Rebinding RebindOutcome
  unfolding ◌>>=◌ perform pure succeeded contains lift command_for
  park_cdn e = perform (capture (command_for wait_verb e)) world.reply >>= λ r.
      refuse
        (not (succeeded r)
          || not
              (contains (codes "IP_REBIND_STATUS=WAITING_FOR_CLOUDFLARE_MANUAL_ACTION") r.stdout))
        (not_parked r)
      >>= λ waiting. perform open_dashboard (λ log. tt {0}) >>= λ opened. pure parked

  unfoldable pub abort_before_dns : Rebinding Bool
  unfolding ◌>>=◌ perform pure
  abort_before_dns = perform (capture abort_command) world.reply >>= λ r. pure false

  -- The loop that waits for the DNS record; `false` means that the operator gave up.
  unfoldable pub wait_for_dns : Endpoints → Input → Rebinding Bool
  unfolding ◌>>=◌ perform pure abort_before_dns resolves_exclusively_to text_eq to_lower trim_space
  wait_for_dns e [] = perform (look_up e.new_domain) world.addresses >>= λ found.
      if resolves_exclusively_to e.new_ip found then pure true else abort_before_dns
  wait_for_dns e (line ∷ input) =
      let again = wait_for_dns e input in
      perform (look_up e.new_domain) world.addresses >>= λ found.
      if resolves_exclusively_to e.new_ip found
      then pure true
      else if text_eq (to_lower (trim_space line)) (codes "q")
      then abort_before_dns
      else again

  abbrev pub shows_address : Text → Result IdentityError NodeIdentity → Bool
  unfolding text_eq
  shows_address new_ip (ok id) = text_eq id.current_public_ip new_ip
  shows_address new_ip (err e) = false

  unfoldable pub shows_new_ip : Text → ProcessResult → Bool
  unfolding succeeded parse_node_identity shows_address
  shows_new_ip new_ip r = succeeded r && shows_address new_ip (parse_node_identity r.stdout)

  unfoldable pub is_committed : ProcessResult → Bool
  unfolding succeeded contains
  is_committed r = succeeded r && contains (codes "IP_REBIND_STATUS=IP_REBIND_COMPLETE") r.stdout

  unfoldable pub bind_local_key : Rebinding RebindOutcome
  unfolding ◌>>=◌ perform pure lift
  bind_local_key = perform commit_local world.bound >>= λ done.
      refuse (not done) local_uncommitted >>= λ final. pure rebound

  unfoldable pub confirm_moved : Endpoints → Rebinding RebindOutcome
  unfolding ◌>>=◌ perform pure lift shows_new_ip bind_local_key
  confirm_moved e = perform (capture show_identity) world.reply >>= λ shown.
      refuse (not (shows_new_ip e.new_ip shown)) remote_uncommitted >>= λ moved. bind_local_key

  unfoldable pub commit_direct : Endpoints → Rebinding RebindOutcome
  unfolding ◌>>=◌ perform pure lift is_committed confirm_moved command_for
  commit_direct e = perform (capture (command_for commit_verb e)) world.reply >>= λ r.
      refuse (not (is_committed r)) (commit_failed r) >>= λ committed. confirm_moved e

  unfoldable pub finish_direct : Endpoints → Input → Rebinding RebindOutcome
  unfolding ◌>>=◌ perform pure wait_for_dns commit_direct
  finish_direct e input = perform open_dashboard (λ log. tt {0}) >>= λ opened.
      wait_for_dns e input >>= λ resolved.
      if resolved then commit_direct e else pure stopped_before_dns

  unfoldable pub after_preflight : Endpoints → RebindContext → Input → Rebinding RebindOutcome
  unfolding text_eq is_direct_active park_domain_change park_cdn finish_direct
  after_preflight e ctx input =
      if not (text_eq e.new_domain e.old_domain)
      then park_domain_change e
      else if not (is_direct_active ctx)
      then park_cdn e
      else finish_direct e input

  unfoldable pub rebind_endpoints : Endpoints → Input → Rebinding RebindOutcome
  unfolding ◌>>=◌ preflight after_preflight
  rebind_endpoints e input = preflight e >>= λ ctx. after_preflight e ctx input

  -- The operator's answer for the new domain.
  unfoldable pub chosen_domain : Text → Text → Text
  unfolding to_lower trim_space
  chosen_domain old_domain answer =
      let domain = to_lower (trim_space answer) in if is_empty domain then old_domain else domain

  unfoldable pub with_domains : Text → Text → Fields → Input → Rebinding RebindOutcome
  unfolding ◌>>=◌ lift valid_domain to_lower trim_space get prompt chosen_domain rebind_endpoints
  with_domains old_ip new_ip values input =
      let old_domain = to_lower (trim_space (get (codes "COVER_DOMAIN") values)) in
      let answer = answered (prompt input) in
      let new_domain = chosen_domain old_domain answer.0 in
      refuse (not (valid_domain old_domain)) old_domain_invalid >>= λ known.
      refuse (not (valid_domain new_domain)) new_domain_invalid >>= λ chosen.
      rebind_endpoints
        (record {
          old_ip = old_ip;
          new_ip = new_ip;
          old_domain = old_domain;
          new_domain = new_domain;
        })
        answer.1

  unfoldable pub rebind_staged : ManagedKeyMetadata → Text → Text → Input → Rebinding RebindOutcome
  unfolding ◌>>=◌ lift perform ensure_key same_node runtime_public_env with_domains
  rebind_staged entry old_ip new_ip input = ensure_key >>= λ key. same_node entry old_ip >>= λ same.
      perform prepare_toolkit world.toolkit_ready >>= λ ready.
      refuse (not ready) toolkit_failed >>= λ prepared.
      runtime_public_env >>= λ values. with_domains old_ip new_ip values input

  abbrev pub is_rebound : Result RebindError RebindOutcome → Bool
  is_rebound (ok rebound) = true
  is_rebound _ = false

  -- The deferred removal of the staged key, unless the local binding was committed.
  unfoldable pub unless_committed : Rebinding RebindOutcome → Rebinding RebindOutcome
  unless_committed m log =
      let run = m log in (run.0, if is_rebound run.0 then run.1 else run.1 ++ remove_stage ∷ [])

  unfoldable pub rebind_on : ManagedKeyMetadata → Text → Text → ℤ → Input → Rebinding RebindOutcome
  unfolding ◌>>=◌ lift perform unless_committed rebind_staged
  rebind_on entry old_ip new_ip port input =
      perform (probe_tcp new_ip port) world.reachable >>= λ open_port.
      refuse (not open_port) unreachable >>= λ reached.
      perform (stage_key new_ip port) world.staged >>= λ done.
      refuse (not done) not_staged >>= λ staged_key.
      unless_committed (rebind_staged entry old_ip new_ip input)

  unfoldable pub with_new_ip :
      ManagedKeyMetadata → Text → Option (Text × Input) → Rebinding RebindOutcome
  unfolding ◌>>=◌ lift raise canonical_public_ipv4 text_eq prompt chosen_port rebind_on
  with_new_ip entry old_ip none = raise input_is_closed
  with_new_ip entry old_ip (some (typed, input)) =
      lift (wrap new_ip_invalid (canonical_public_ipv4 typed)) >>= λ new_ip.
      let answer = answered (prompt input) in
      refuse (text_eq new_ip old_ip) same_ip >>= λ changed.
      lift (chosen_port entry.port answer.0) >>= λ port. rebind_on entry old_ip new_ip port answer.1

  unfoldable pub rebind_public_ip : ManagedKeyMetadata → Input → Rebinding RebindOutcome
  unfolding ◌>>=◌ lift canonical_public_ipv4 required_until with_new_ip
  rebind_public_ip entry input =
      lift (wrap saved_ip_invalid (canonical_public_ipv4 entry.current_public)) >>= λ old_ip.
      with_new_ip entry old_ip (required_until (λ value. some value) input)
