-- ===== src/Rebind/Staged.antt =====
-- The checks that rebindPublicIP of ip_rebind.go makes of a staged key before it moves a node.
use proxy_node_assistant.Effects.{pure, lift, perform, succeeded, ◌>>=◌}
use proxy_node_assistant.Prelude.{
  Bool, Result, ap, false, if◌then◌else◌, sym, subst, ◌∙◌, List, [], not, ok, refl, true, wrap,
  wrap-eq-ok, ◌++◌, ◌∷◌, ◌≡◌,
}
use proxy_node_assistant.Rebind.{
  RebindError, install_key, is_key_ok, key_rejected, try_key, env_command, env_unread, Endpoints,
  RebindEvent, RebindWorld, answered, capture, identity_refused, identity_unread,
  new_domain_invalid, not_stable, old_domain_invalid, old_ip_differs, prepare_toolkit, rebound,
  refuse, show_identity, toolkit_failed,
}
use proxy_node_assistant.Effects.Order.{
  Follows-snoc, >>=-Extends, Extends, Follows, Follows-trans, Extends-end, if-Extends,
  perform-Extends, pure-Extends, raise-Extends,
}
use proxy_node_assistant.Effects.Rules.{perform-eq-ok, lift-eq-ok, >>=-eq-ok}
use proxy_node_assistant.Protocol.KeyValue.{parse_kv}
use proxy_node_assistant.Console.{Input, prompt}
use proxy_node_assistant.Identity.Node.{
  ManagedKeyMetadata, NodeIdentity, parse_node_identity, verify_stable_identity,
}
use proxy_node_assistant.Plan.Identity.{valid_domain}
use proxy_node_assistant.Rebind.Evidence.{Rebound, rebind_endpoints-eq-rebound}
use proxy_node_assistant.Rebind.Handler.{
  chosen_domain, ensure_key, fetch_node_identity, rebind_endpoints, rebind_staged,
  runtime_public_env, same_node, with_domains,
}
use proxy_node_assistant.Rebind.Rules.{checked-eq-ok, kept-eq-ok, required-eq-ok, wrapped-eq-ok}
use proxy_node_assistant.Text.{Fields, Text, codes, get, text_eq, to_lower, trim_space}

module _ (world : RebindWorld) where
  -- How the staged key was taken by the node: it was let in, or it was installed there first.
  pub data IsKeyTaken (log end : List RebindEvent) : Type 0 where
    let_in : end ≡ log ++ try_key ∷ [] → is_key_ok (world.reply end) ≡ true → IsKeyTaken log end
    was_installed :
        end ≡ (log ++ try_key ∷ []) ++ install_key ∷ []
        → world.installed end ≡ true
        → IsKeyTaken log end

  ensure_key-IsKeyTaken :
      (log : List RebindEvent) {end : List RebindEvent}
      → ensure_key world log ≡ (ok tt, end)
      → IsKeyTaken log end
  unfolding ensure_key ◌>>=◌ perform pure
  ensure_key-IsKeyTaken log {end} h = by_reply (is_key_ok (world.reply log1)) refl h
    where
      log1 : List RebindEvent
      log1 = log ++ try_key ∷ []

      by_reply :
          (taken : Bool)
          → is_key_ok (world.reply log1) ≡ taken
          → (if taken
                then pure tt
                else perform install_key world.installed >>= λ done. refuse (not done) key_rejected)
              log1
            ≡ (ok tt, end)
          → IsKeyTaken log end
      by_reply true taken k =
          let at = ap (λ (p : Result RebindError (Unit {0}) × List RebindEvent). p.1) k in
          let_in (sym at) (subst (λ l. is_key_ok (world.reply l) ≡ true) at taken)
      by_reply false taken k =
          let log2 = log1 ++ install_key ∷ [] in
          let (installed, at) = kept-eq-ok (world.installed log2) key_rejected log2 k in
          was_installed at (subst (λ l. world.installed l ≡ true) (sym at) installed)

  -- The node that answered after `log` is that of the key, and names the old address as its own.
  pub record SameNodeAt (key : ManagedKeyMetadata) (old : Text) (log : List RebindEvent)
      : Type 0 where
    pub identity : NodeIdentity
    pub shown :
        parse_node_identity (world.reply (log ++ capture show_identity ∷ [])).stdout ≡ ok identity
    pub stable : verify_stable_identity key identity ≡ ok tt
    pub was : text_eq identity.current_public_ip old ≡ true

  fetch_node_identity-eq-ok :
      (log : List RebindEvent) {end : List RebindEvent} {id : NodeIdentity}
      → fetch_node_identity world log ≡ (ok id, end)
      → (parse_node_identity (world.reply (log ++ capture show_identity ∷ [])).stdout ≡ ok id)
        × (end ≡ log ++ capture show_identity ∷ [])
  unfolding ◌>>=◌ perform fetch_node_identity
  fetch_node_identity-eq-ok log h =
      let log' = log ++ capture show_identity ∷ [] in
      let reply = world.reply log' in
      let parsed = parse_node_identity reply.stdout in
      let (done, h1) =
        checked-eq-ok (succeeded reply) (identity_unread reply)
          (lift (wrap identity_refused parsed)) log' h in
      let (wrapped, logged) = lift-eq-ok (wrap identity_refused parsed) log' h1 in
      (wrap-eq-ok identity_refused parsed wrapped, logged)

  same_node-eq-ok :
      (key : ManagedKeyMetadata) (old : Text) (log : List RebindEvent) {end : List RebindEvent}
      → same_node world key old log ≡ (ok tt, end)
      → SameNodeAt key old log × (end ≡ log ++ capture show_identity ∷ [])
  unfolding same_node
  same_node-eq-ok key old log h =
      let (id, mid, fetched, h1) =
        >>=-eq-ok (fetch_node_identity world)
          (λ id. lift (wrap not_stable (verify_stable_identity key id)) >>= λ stable.
            refuse (not (text_eq id.current_public_ip old)) old_ip_differs)
          h in
      let (u, stable, h2) =
        wrapped-eq-ok not_stable (verify_stable_identity key id)
          (λ stable. refuse (not (text_eq id.current_public_ip old)) old_ip_differs) mid h1 in
      let (was, at) = kept-eq-ok (text_eq id.current_public_ip old) old_ip_differs mid h2 in
      let (shown, read) = fetch_node_identity-eq-ok log fetched in
      (record { identity = id; shown = shown; stable = stable; was = was }, at ∙ read)

  -- A complete rebinding of the key that is staged when `log` has been done.
  pub record StagedRebound (key : ManagedKeyMetadata) (old new : Text) (log end : List RebindEvent)
      : Type 0 where
    pub known : List RebindEvent
    pub taken : IsKeyTaken log known
    pub node : SameNodeAt key old known
    pub endpoints : Endpoints
    pub leaves : endpoints.old_ip ≡ old
    pub reaches : endpoints.new_ip ≡ new
    pub asked : List RebindEvent
    pub ordered : Follows (known ++ capture show_identity ∷ []) asked
    pub moved : Rebound world endpoints asked end

  runtime_public_env-Extends : Extends (runtime_public_env world)
  unfolding runtime_public_env
  runtime_public_env-Extends = >>=-Extends (perform-Extends (capture env_command) world.reply) (λ r.
      if-Extends (not (succeeded r)) (raise-Extends (env_unread r))
        (pure-Extends (parse_kv r.stdout)))

  with_domains-eq-rebound :
      (old new : Text) (values : Fields) (input : Input) (log : List RebindEvent)
      {end : List RebindEvent}
      → with_domains world old new values input log ≡ (ok rebound, end)
      → (e : Endpoints) × (e.old_ip ≡ old) × (e.new_ip ≡ new) × Rebound world e log end
  unfolding with_domains
  with_domains-eq-rebound old new values input log h =
      let old_domain = to_lower (trim_space (get (codes "COVER_DOMAIN") values)) in
      let answer = answered (prompt input) in
      let new_domain = chosen_domain world old_domain answer.0 in
      let e : Endpoints = record {
        old_ip = old;
        new_ip = new;
        old_domain = old_domain;
        new_domain = new_domain;
      } in
      let (known, h1) =
        required-eq-ok (valid_domain old_domain) old_domain_invalid
          (refuse (not (valid_domain new_domain)) new_domain_invalid >>= λ chosen.
            rebind_endpoints world e answer.1)
          log h in
      let (chosen, h2) =
        required-eq-ok (valid_domain new_domain) new_domain_invalid
          (rebind_endpoints world e answer.1) log h1 in
      (e, refl, refl, rebind_endpoints-eq-rebound world e answer.1 log h2)

  pub rebind_staged-eq-rebound :
      (key : ManagedKeyMetadata) (old new : Text) (input : Input) (log : List RebindEvent)
      {end : List RebindEvent}
      → rebind_staged world key old new input log ≡ (ok rebound, end)
      → StagedRebound key old new log end
  unfolding rebind_staged
  rebind_staged-eq-rebound key old new input log h =
      let last = λ (values : Fields). with_domains world old new values input in
      let toolkit = perform prepare_toolkit world.toolkit_ready >>= λ ready.
      refuse (not ready) toolkit_failed >>= λ prepared. runtime_public_env world >>= last in
      let (u, known, key_ok, h1) =
        >>=-eq-ok (ensure_key world) (λ key_ok. same_node world key old >>= λ same. toolkit) h in
      let (v, mid, same, h2) = >>=-eq-ok (same_node world key old) (λ same. toolkit) h1 in
      let (ready, ready_at, asked, h3) =
        >>=-eq-ok (perform prepare_toolkit world.toolkit_ready)
          (λ ready.
            refuse (not ready) toolkit_failed >>= λ prepared. runtime_public_env world >>= last)
          h2 in
      let (done, h4) =
        required-eq-ok ready toolkit_failed (runtime_public_env world >>= last) ready_at h3 in
      let (values, env_at, read, h5) = >>=-eq-ok (runtime_public_env world) last h4 in
      let (node, checked) = same_node-eq-ok key old known same in
      let (at_ready, same_log) = perform-eq-ok prepare_toolkit world.toolkit_ready mid asked in
      let ready_then =
        Follows-trans (Follows-snoc prepare_toolkit at_ready)
          (Extends-end (runtime_public_env world) runtime_public_env-Extends read) in
      let (e, leaves, reaches, moved) = with_domains-eq-rebound old new values input env_at h5 in
      record {
        known = known;
        taken = ensure_key-IsKeyTaken log key_ok;
        node = node;
        endpoints = e;
        leaves = leaves;
        reaches = reaches;
        asked = env_at;
        ordered = subst (λ l. Follows l env_at) checked ready_then;
        moved = moved;
      }
