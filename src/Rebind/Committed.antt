-- ===== src/Rebind/Committed.antt =====
-- What a completed rebinding of ip_rebind.go rests on.
use proxy_node_assistant.Effects.Order.{
  >>=-Extends, Extends, if-Extends, perform-Extends, pure-Extends,
}
use proxy_node_assistant.Rebind.{
  abort_command, commit_failed, local_uncommitted, remote_uncommitted, Rebinding, Endpoints,
  RebindEvent, RebindOutcome, RebindWorld, capture, command_for, commit_local, commit_verb, look_up,
  rebound, resolves_exclusively_to, show_identity,
}
use proxy_node_assistant.Rebind.Rules.{pure-eq-ok, required-eq-ok}
use proxy_node_assistant.Rebind.Handler.{
  bind_local_key, confirm_moved, abort_before_dns, commit_direct, is_committed, shows_new_ip,
  wait_for_dns,
}
use proxy_node_assistant.Text.{codes, text_eq, to_lower, trim_space}
use proxy_node_assistant.Prelude.{
  Bool, false, if◌then◌else◌, refl, List, [], ok, subst, sym, true, ◌++◌, ◌∷◌, ◌≡◌,
}
use proxy_node_assistant.Effects.{◌>>=◌, perform, pure}
use proxy_node_assistant.Console.{Input}

module _ (world : RebindWorld) where
  -- The commands that end a rebinding, done in order after `start`.
  pub record CommittedAfter (e : Endpoints) (start end : List RebindEvent) : Type 0 where
    pub committed :
        is_committed world (world.reply (start ++ capture (command_for commit_verb e) ∷ [])) ≡ true
    pub moved :
        shows_new_ip world e.new_ip (
          world.reply
            ((start ++ capture (command_for commit_verb e) ∷ []) ++ capture show_identity ∷ []))
        ≡ true
    pub finished :
        end
        ≡ ((start ++ capture (command_for commit_verb e) ∷ []) ++ capture show_identity ∷ [])
          ++ commit_local ∷ []
    pub bound : world.bound end ≡ true

  -- The log ends with a lookup that found the new address and no other.
  abbrev pub ResolvedAt : Endpoints → List RebindEvent → Type 0
  ResolvedAt e found_at =
      (earlier : List RebindEvent) × (found_at ≡ earlier ++ look_up e.new_domain ∷ [])
      × (resolves_exclusively_to e.new_ip (world.addresses found_at) ≡ true)

  bind_local_key-eq-ok :
      (log : List RebindEvent) {end : List RebindEvent} {outcome : RebindOutcome}
      → bind_local_key world log ≡ (ok outcome, end)
      → (end ≡ log ++ commit_local ∷ []) × (world.bound end ≡ true)
  unfolding ◌>>=◌ perform bind_local_key
  bind_local_key-eq-ok log h =
      let log' = log ++ commit_local ∷ [] in
      let (bound, h1) = required-eq-ok (world.bound log') local_uncommitted (pure rebound) log' h in
      let logged = (pure-eq-ok rebound h1).1 in
      (sym logged, subst (λ l. world.bound l ≡ true) logged bound)

  pub commit_direct-eq-ok :
      (e : Endpoints) (log : List RebindEvent) {end : List RebindEvent} {outcome : RebindOutcome}
      → commit_direct world e log ≡ (ok outcome, end)
      → CommittedAfter e log end
  unfolding ◌>>=◌ perform commit_direct confirm_moved
  commit_direct-eq-ok e log h =
      let log1 = log ++ capture (command_for commit_verb e) ∷ [] in
      let log2 = log1 ++ capture show_identity ∷ [] in
      let reply = world.reply log1 in
      let (committed, h1) =
        required-eq-ok (is_committed world reply) (commit_failed reply) (confirm_moved world e) log1
          h in
      let (moved, h2) =
        required-eq-ok (shows_new_ip world e.new_ip (world.reply log2)) remote_uncommitted
          (bind_local_key world) log2 h1 in
      let (finished, bound) = bind_local_key-eq-ok log2 h2 in
      record { committed = committed; moved = moved; finished = finished; bound = bound }

  abort_before_dns-ne-true :
      (log : List RebindEvent) {end : List RebindEvent}
      → abort_before_dns world log ≡ (ok true, end)
      → ⊥
  unfolding ◌>>=◌ perform pure abort_before_dns
  abort_before_dns-ne-true log h = cc

  -- What one round of the loop says of a log that ends with the lookup.
  resolved_now :
      (e : Endpoints) (log : List RebindEvent) (found : Bool) (next : Rebinding Bool)
      {ready : List RebindEvent}
      → resolves_exclusively_to e.new_ip (world.addresses (log ++ look_up e.new_domain ∷ []))
        ≡ found
      → (next (log ++ look_up e.new_domain ∷ []) ≡ (ok true, ready) → ResolvedAt e ready)
      → (if found then pure true else next) (log ++ look_up e.new_domain ∷ []) ≡ (ok true, ready)
      → ResolvedAt e ready
  resolved_now e log true next known later h =
      let logged = (pure-eq-ok true h).1 in
      (
        log,
        sym logged,
        subst (λ l. resolves_exclusively_to e.new_ip (world.addresses l) ≡ true) logged known,
      )
  resolved_now e log false next known later h = later h

  -- The operator's answer, when the name does not resolve yet.
  answered_now :
      (e : Endpoints) (log : List RebindEvent) (quits : Bool) (again : Rebinding Bool)
      {ready : List RebindEvent}
      → (again log ≡ (ok true, ready) → ResolvedAt e ready)
      → (if quits then abort_before_dns world else again) log ≡ (ok true, ready)
      → ResolvedAt e ready
  answered_now e log true again later h = elim (abort_before_dns-ne-true log h) [ ]
  answered_now e log false again later h = later h

  pub wait_for_dns-eq-true :
      (e : Endpoints) (input : Input) (log : List RebindEvent) {ready : List RebindEvent}
      → wait_for_dns world e input log ≡ (ok true, ready)
      → ResolvedAt e ready
  unfolding ◌>>=◌ perform wait_for_dns
  wait_for_dns-eq-true e [] log h =
      let log' = log ++ look_up e.new_domain ∷ [] in
      resolved_now e log (resolves_exclusively_to e.new_ip (world.addresses log'))
        (abort_before_dns world) refl (λ k. elim (abort_before_dns-ne-true log' k) [ ]) h
  wait_for_dns-eq-true e (line ∷ input) log h =
      let log' = log ++ look_up e.new_domain ∷ [] in
      let quits = text_eq (to_lower (trim_space line)) (codes "q") in
      resolved_now e log (resolves_exclusively_to e.new_ip (world.addresses log'))
        (if quits then abort_before_dns world else wait_for_dns world e input) refl
        (answered_now e log' quits (wait_for_dns world e input) (wait_for_dns-eq-true e input log'))
        h

  abort_before_dns-Extends : Extends (abort_before_dns world)
  unfolding abort_before_dns
  abort_before_dns-Extends =
      >>=-Extends (perform-Extends (capture abort_command) world.reply) (λ r. pure-Extends false)

  pub wait_for_dns-Extends : (e : Endpoints) (input : Input) → Extends (wait_for_dns world e input)
  unfolding wait_for_dns
  wait_for_dns-Extends e [] =
      >>=-Extends (perform-Extends (look_up e.new_domain) world.addresses) (λ found.
        if-Extends (resolves_exclusively_to e.new_ip found) (pure-Extends true)
          abort_before_dns-Extends)
  wait_for_dns-Extends e (line ∷ input) =
      let again = wait_for_dns-Extends e input in
      >>=-Extends (perform-Extends (look_up e.new_domain) world.addresses) (λ found.
        if-Extends (resolves_exclusively_to e.new_ip found) (pure-Extends true) (
          if-Extends (text_eq (to_lower (trim_space line)) (codes "q")) abort_before_dns-Extends
            again))
