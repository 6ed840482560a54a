-- ===== src/Rebind/Complete.antt =====
-- A rebinding by rebindPublicIP of ip_rebind.go that reports success.
use proxy_node_assistant.Prelude.{
  refl, subst, true, List, Option, Result, [], err, false, if◌then◌else◌, none, not, ok, some, ◌++◌,
  ◌∷◌, ◌≡◌,
}
use proxy_node_assistant.Effects.Rules.{lift-eq-ok, >>=-eq-ok}
use proxy_node_assistant.Rebind.Handler.{
  is_rebound, rebind_on, rebind_public_ip, rebind_staged, unless_committed, with_new_ip,
}
use proxy_node_assistant.Console.{Input, prompt, required_until}
use proxy_node_assistant.Effects.{lift, perform, raise, ◌>>=◌}
use proxy_node_assistant.Identity.{canonical_public_ipv4}
use proxy_node_assistant.Identity.Node.{ManagedKeyMetadata}
use proxy_node_assistant.Rebind.{
  RebindError, RebindEvent, RebindOutcome, RebindWorld, Rebinding, answered, chosen_port,
  new_ip_invalid, not_staged, parked, probe_tcp, rebound, refuse, remove_stage, same_ip,
  saved_ip_invalid, stage_key, stopped_before_dns, unreachable,
}
use proxy_node_assistant.Rebind.Rules.{refused-eq-ok, required-eq-ok, wrapped-eq-ok}
use proxy_node_assistant.Rebind.Staged.{StagedRebound, rebind_staged-eq-rebound}
use proxy_node_assistant.Text.{Text, text_eq, ℤ}

module _ (world : RebindWorld) where
  unless_committed-eq-rebound :
      (m : Rebinding RebindOutcome) (log : List RebindEvent) {end : List RebindEvent}
      → unless_committed world m log ≡ (ok rebound, end)
      → m log ≡ (ok rebound, end)
  unfolding unless_committed
  unless_committed-eq-rebound m log {end} h = by_run (m log).0 (m log).1 h
    where
      Run : Type 0
      Run = Result RebindError RebindOutcome × List RebindEvent

      by_run :
          (r : Result RebindError RebindOutcome) (mid : List RebindEvent)
          → ◌≡◌ {A = Run}
              (r, if is_rebound world r then mid else mid ++ remove_stage ∷ [])
              (ok rebound, end)
          → ◌≡◌ {A = Run} (r, mid) (ok rebound, end)
      by_run (ok rebound) mid k = k
      by_run (ok parked) mid k = cc
      by_run (ok stopped_before_dns) mid k = cc
      by_run (err e) mid k = cc

  -- A complete rebinding from `log` on: the new address was probed and the key staged for it, in this
  -- order, and what followed ran on that key.
  pub record OnStagedKey (key : ManagedKeyMetadata) (old new : Text) (port : ℤ)
      (log end : List RebindEvent) : Type 0 where
    pub reached : world.reachable (log ++ probe_tcp new port ∷ []) ≡ true
    pub placed : world.staged ((log ++ probe_tcp new port ∷ []) ++ stage_key new port ∷ []) ≡ true
    pub followed :
        StagedRebound world key old new
          ((log ++ probe_tcp new port ∷ []) ++ stage_key new port ∷ [])
          end

  rebind_on-eq-rebound :
      (key : ManagedKeyMetadata) (old new : Text) (port : ℤ) (input : Input)
      (log : List RebindEvent) {end : List RebindEvent}
      → rebind_on world key old new port input log ≡ (ok rebound, end)
      → OnStagedKey key old new port log end
  unfolding ◌>>=◌ perform rebind_on
  rebind_on-eq-rebound key old new port input log h =
      let log1 = log ++ probe_tcp new port ∷ [] in
      let log2 = log1 ++ stage_key new port ∷ [] in
      let moving = unless_committed world (rebind_staged world key old new input) in
      let (reached, h1) =
        required-eq-ok (world.reachable log1) unreachable
          (perform (stage_key new port) world.staged >>= λ done.
            refuse (not done) not_staged >>= λ staged_key. moving)
          log1 h in
      let (staged, h2) = required-eq-ok (world.staged log2) not_staged moving log2 h1 in
      record {
        reached = reached;
        placed = staged;
        followed =
            rebind_staged-eq-rebound world key old new input log2
              (unless_committed-eq-rebound (rebind_staged world key old new input) log2 h2);
      }

  -- A complete run: the key's saved address and the typed one are public addresses and differ, and the
  -- port is the saved one or that of the next answer.
  pub record CompleteRebind (key : ManagedKeyMetadata) (input : Input) (log end : List RebindEvent)
      : Type 0 where
    pub old_ip : Text
    pub new_ip : Text
    pub typed : Text
    pub later : Input
    pub read : required_until (λ value. some value) input ≡ some (typed, later)
    pub saved : canonical_public_ipv4 key.current_public ≡ ok old_ip
    pub entered : canonical_public_ipv4 typed ≡ ok new_ip
    pub differs : text_eq new_ip old_ip ≡ false
    pub port : ℤ
    pub chosen : chosen_port key.port (answered (prompt later)).0 ≡ ok port
    pub staged : OnStagedKey key old_ip new_ip port log end

  with_new_ip-eq-rebound :
      (key : ManagedKeyMetadata) (old : Text) (input : Input) (answer : Option (Text × Input))
      (log : List RebindEvent) {end : List RebindEvent}
      → required_until (λ value. some value) input ≡ answer
      → canonical_public_ipv4 key.current_public ≡ ok old
      → with_new_ip world key old answer log ≡ (ok rebound, end)
      → CompleteRebind key input log end
  unfolding raise with_new_ip
  with_new_ip-eq-rebound key old input none log read saved h = cc
  with_new_ip-eq-rebound key old input (some (typed, later)) log {end} read saved h =
      let answer = answered (prompt later) in
      let moved = λ (new : Text) (port : ℤ). rebind_on world key old new port answer.1 in
      let (new, entered, h1) =
        wrapped-eq-ok new_ip_invalid (canonical_public_ipv4 typed)
          (λ new. refuse (text_eq new old) same_ip >>= λ changed.
            lift (chosen_port key.port answer.0) >>= moved new)
          log h in
      let (differs, h2) =
        refused-eq-ok (text_eq new old) same_ip (lift (chosen_port key.port answer.0) >>= moved new)
          log h1 in
      let (port, mid, chosen, h3) =
        >>=-eq-ok (lift (chosen_port key.port answer.0)) (moved new) h2 in
      let (port_chosen, at) = lift-eq-ok (chosen_port key.port answer.0) log chosen in
      record {
        old_ip = old;
        new_ip = new;
        typed = typed;
        later = later;
        read = read;
        saved = saved;
        entered = entered;
        differs = differs;
        port = port;
        chosen = port_chosen;
        staged =
            rebind_on-eq-rebound key old new port answer.1 log
              (subst (λ l. moved new port l ≡ (ok rebound, end)) at h3);
      }

  -- A rebinding that reports success has seen all of this, in this order: the saved and the typed
  -- address are public and differ; the new address was reachable at the saved or the typed port; the
  -- key was staged for that address and port; the node let the key in, or the key was installed; the
  -- node that then answered is that of the key, and its own record named the old address; a preflight
  -- of the node named the same four endpoints, with the domain unchanged and the direct route active;
  -- the lookup of the domain right before the commit gave the new address and no other; the remote
  -- commit was confirmed, the node then named the new address, and last the local key was bound.
  pub rebind_public_ip-eq-rebound :
      (key : ManagedKeyMetadata) (input : Input) (log : List RebindEvent) {end : List RebindEvent}
      → rebind_public_ip world key input log ≡ (ok rebound, end)
      → CompleteRebind key input log end
  unfolding rebind_public_ip
  rebind_public_ip-eq-rebound key input log h =
      let typed = required_until (λ value. some value) input in
      let (old, saved, h1) =
        wrapped-eq-ok saved_ip_invalid (canonical_public_ipv4 key.current_public)
          (λ old. with_new_ip world key old typed) log h in
      with_new_ip-eq-rebound key old input typed log refl saved h1
