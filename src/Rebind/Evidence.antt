-- ===== src/Rebind/Evidence.antt =====
-- What rebindPublicIP of ip_rebind.go has seen when it reports that a node moved.
use proxy_node_assistant.Effects.Order.{Follows-snoc, Follows, Follows-trans, Extends-end}
use proxy_node_assistant.Prelude.{
  sym, not, refl, ◌||◌, Bool, List, [], ap, false, if◌then◌else◌, ok, subst, true, wrap, ◌++◌, ◌∙◌,
  ◌∷◌, ◌≡◌,
}
use proxy_node_assistant.Rebind.Committed.{
  wait_for_dns-Extends, CommittedAfter, ResolvedAt, commit_direct-eq-ok, wait_for_dns-eq-true,
}
use proxy_node_assistant.Rebind.{
  RebindError, not_parked, parked, wait_verb, Endpoints, RebindEvent, RebindWorld, capture,
  command_for, is_direct_active, open_dashboard, preflight_differs, preflight_failed,
  preflight_refused, preflight_verb, rebound, same_endpoints, stopped_before_dns,
}
use proxy_node_assistant.Rebind.Handler.{
  after_preflight, park_cdn, park_domain_change, rebind_endpoints, commit_direct, finish_direct,
  matching, preflight, wait_for_dns,
}
use proxy_node_assistant.Rebind.Rules.{
  refused-eq-ok, checked-eq-ok, pure-eq-ok, required-eq-ok, wrapped-eq-ok,
}
use proxy_node_assistant.Text.{codes, contains, text_eq}
use proxy_node_assistant.Console.{Input}
use proxy_node_assistant.Effects.{lift, perform, pure, succeeded, ◌>>=◌}
use proxy_node_assistant.Identity.Node.{RebindContext, parse_ip_rebind_preflight}
use proxy_node_assistant.Effects.Rules.{>>=-eq-ok}

module _ (world : RebindWorld) where
  -- The node accepted the preflight of these endpoints: the domain stays and no CDN is in front.
  pub record ReadyFor (e : Endpoints) (log : List RebindEvent) : Type 0 where
    pub context : RebindContext
    pub answer :
        parse_ip_rebind_preflight
          (world.reply (log ++ capture (command_for preflight_verb e) ∷ [])).stdout
        ≡ ok context
    pub agrees : same_endpoints context e ≡ true
    pub same_domain : text_eq e.new_domain e.old_domain ≡ true
    pub direct : is_direct_active context ≡ true

  -- The steps of a complete rebinding from the preflight on.
  pub record Rebound (e : Endpoints) (log end : List RebindEvent) : Type 0 where
    pub ready : ReadyFor e log
    pub before : List RebindEvent
    pub ordered : Follows (log ++ capture (command_for preflight_verb e) ∷ []) before
    pub resolved : ResolvedAt world e before
    pub committed : CommittedAfter world e before end

  matching-eq-ok :
      (e : Endpoints) (ctx : RebindContext) (log : List RebindEvent) {end : List RebindEvent}
      {found : RebindContext}
      → matching world e ctx log ≡ (ok found, end)
      → (same_endpoints ctx e ≡ true) × (ctx ≡ found) × (log ≡ end)
  unfolding matching
  matching-eq-ok e ctx log h =
      let (agrees, h1) = required-eq-ok (same_endpoints ctx e) preflight_differs (pure ctx) log h in
      let (same, logged) = pure-eq-ok ctx h1 in (agrees, same, logged)

  ReadyAt : Endpoints → List RebindEvent → RebindContext → List RebindEvent → Type 0
  ReadyAt e log ctx end =
      (parse_ip_rebind_preflight
          (world.reply (log ++ capture (command_for preflight_verb e) ∷ [])).stdout
        ≡ ok ctx)
      × (same_endpoints ctx e ≡ true)
      × (end ≡ log ++ capture (command_for preflight_verb e) ∷ [])

  preflight-eq-ok :
      (e : Endpoints) (log : List RebindEvent) {end : List RebindEvent} {ctx : RebindContext}
      → preflight world e log ≡ (ok ctx, end)
      → ReadyAt e log ctx end
  unfolding ◌>>=◌ perform preflight ReadyAt
  preflight-eq-ok e log h =
      let log' = log ++ capture (command_for preflight_verb e) ∷ [] in
      let reply = world.reply log' in
      let parsed = parse_ip_rebind_preflight reply.stdout in
      let (done, h1) =
        checked-eq-ok (succeeded reply) (preflight_failed reply)
          (lift (wrap preflight_refused parsed) >>= matching world e) log' h in
      let (ctx, answer, h2) = wrapped-eq-ok preflight_refused parsed (matching world e) log' h1 in
      let (agrees, same, logged) = matching-eq-ok e ctx log' h2 in
      (answer ∙ ap ok same, subst (λ c. same_endpoints c e ≡ true) same agrees, sym logged)

  finish_direct-eq-rebound :
      (e : Endpoints) (input : Input) (log : List RebindEvent) {end : List RebindEvent}
      → finish_direct world e input log ≡ (ok rebound, end)
      → (before : List RebindEvent) × Follows log before
        × ResolvedAt world e before
        × CommittedAfter world e before end
  unfolding ◌>>=◌ perform pure finish_direct
  finish_direct-eq-rebound e input log {end} h =
      let log' = log ++ open_dashboard ∷ [] in
      let (resolved, before, waited, h1) =
        >>=-eq-ok (wait_for_dns world e input)
          (λ r. if r then commit_direct world e else pure stopped_before_dns) h in
      by_answer resolved before waited h1
    where
      by_answer :
          (resolved : Bool) (before : List RebindEvent)
          → wait_for_dns world e input (log ++ open_dashboard ∷ []) ≡ (ok resolved, before)
          → (if resolved then commit_direct world e else pure stopped_before_dns) before
            ≡ (ok rebound, end)
          → (before : List RebindEvent) × Follows log before
            × ResolvedAt world e before
            × CommittedAfter world e before end
      by_answer true before waited k = (
        before,
        Follows-trans (Follows-snoc open_dashboard refl)
            (Extends-end (wait_for_dns world e input) (wait_for_dns-Extends world e input) waited),
        wait_for_dns-eq-true world e input _ waited,
        commit_direct-eq-ok world e before k,
      )
      by_answer false before waited k = cc

  parks-ne-rebound :
      (e : Endpoints) (log : List RebindEvent) {end : List RebindEvent}
      → park_domain_change world e log ≡ (ok rebound, end)
      → ⊥
  unfolding ◌>>=◌ perform pure park_domain_change
  parks-ne-rebound e log h = cc

  opened-ne-rebound :
      (log : List RebindEvent) {end : List RebindEvent}
      → (perform {E = RebindError} open_dashboard (λ log. tt {0}) >>= λ opened. pure parked) log
        ≡ (ok rebound, end)
      → ⊥
  unfolding ◌>>=◌ perform pure
  opened-ne-rebound log h = cc

  park_cdn-ne-rebound :
      (e : Endpoints) (log : List RebindEvent) {end : List RebindEvent}
      → park_cdn world e log ≡ (ok rebound, end)
      → ⊥
  unfolding ◌>>=◌ perform park_cdn
  park_cdn-ne-rebound e log h =
      let log' = log ++ capture (command_for wait_verb e) ∷ [] in
      let reply = world.reply log' in
      let (waiting, h1) =
        refused-eq-ok
          (not (succeeded reply)
            || not (
                contains (codes "IP_REBIND_STATUS=WAITING_FOR_CLOUDFLARE_MANUAL_ACTION")
                  reply.stdout))
          (not_parked reply) (perform open_dashboard (λ log. tt {0}) >>= λ opened. pure parked) log'
          h in
      opened-ne-rebound log' h1

  after_preflight-eq-rebound :
      (e : Endpoints) (ctx : RebindContext) (input : Input) (log : List RebindEvent)
      {end : List RebindEvent}
      → after_preflight world e ctx input log ≡ (ok rebound, end)
      → (text_eq e.new_domain e.old_domain ≡ true)
        × (is_direct_active ctx ≡ true)
        × (finish_direct world e input log ≡ (ok rebound, end))
  unfolding after_preflight
  after_preflight-eq-rebound e ctx input log {end} h =
      by_case (text_eq e.new_domain e.old_domain) (is_direct_active ctx) h
    where
      by_case :
          (same direct : Bool)
          → (if not same
                then park_domain_change world e
                else if not direct
                then park_cdn world e
                else finish_direct world e input)
              log
            ≡ (ok rebound, end)
          → (same ≡ true) × (direct ≡ true) × (finish_direct world e input log ≡ (ok rebound, end))
      by_case false direct k = elim (parks-ne-rebound e log k) [ ]
      by_case true false k = elim (park_cdn-ne-rebound e log k) [ ]
      by_case true true k = (refl, refl, k)

  pub rebind_endpoints-eq-rebound :
      (e : Endpoints) (input : Input) (log : List RebindEvent) {end : List RebindEvent}
      → rebind_endpoints world e input log ≡ (ok rebound, end)
      → Rebound e log end
  unfolding rebind_endpoints ReadyAt
  rebind_endpoints-eq-rebound e input log h =
      let (ctx, mid, accepted, h1) =
        >>=-eq-ok (preflight world e) (λ ctx. after_preflight world e ctx input) h in
      let (answer, agrees, at) = preflight-eq-ok e log accepted in
      let (same, direct, h2) = after_preflight-eq-rebound e ctx input mid h1 in
      let (before, later, resolved, committed) = finish_direct-eq-rebound e input mid h2 in
      record {
        ready = record {
          context = ctx;
          answer = answer;
          agrees = agrees;
          same_domain = same;
          direct = direct;
        };
        before = before;
        ordered = subst (λ l. Follows l before) at later;
        resolved = resolved;
        committed = committed;
      }
