-- ===== src/InstallFlow/Accepted.antt =====
-- Which of the plans that collectInstallPlan of install_flow.go asks for are accepted.
use proxy_node_assistant.InstallFlow.Collect.{
  validated, Setting, answered_plan, collect_install_plan,
}
use proxy_node_assistant.Console.{Input}
use proxy_node_assistant.InstallFlow.Collected.{IsAnswered, answered_plan-IsAnswered}
use proxy_node_assistant.Plan.Identity.{MailParser}
use proxy_node_assistant.Plan.Types.{InstallPlan, PortPlan, RouteMode}
use proxy_node_assistant.Plan.Validate.{Checked, valid, validate_for}
use proxy_node_assistant.Plan.Validate.Sound.{PortRules, validate_for_iff}
use proxy_node_assistant.Prelude.{ap, err, false, ok, refl, ◌↔◌, ◌≡◌, ◌≢◌}
use proxy_node_assistant.Text.{equal_fold}

accepted_iff :
    (r : Checked) (p : InstallPlan) (rest : Input)
    → (validated r p rest ≡ ok (p, rest)) ↔ (r ≡ valid)
accepted_iff (ok done) p rest = (λ h. refl, λ h. refl)
accepted_iff (err e) p rest = (λ h. cc, λ h. cc)

dual_not_keep : {m : RouteMode} → m ≡ RouteMode.dual → m ≢ RouteMode.keep
dual_not_keep h k = cc

module _ (mail : MailParser) (s : Setting) where
  -- The SS2022 port is not that of another listener, and two routes have two hostnames.
  abbrev pub Separate : InstallPlan → Type 0
  Separate p =
      ((p.ports.ss2022_tcp ≢ 24443) × (p.ports.ss2022_tcp ≢ 8443) × (p.ports.ss2022_tcp ≢ 40000))
      × (p.preferences.route_mode ≡ RouteMode.dual
          → equal_fold p.gray.domain p.orange.domain ≡ false)

  ports_lem : (p : InstallPlan) → IsAnswered mail s p → Separate p → PortRules p.ports
  ports_lem p a ((shadow, edge, warp), names) =
      let (low, high, trial, _) = a.port in
      (
        ap (λ (q : PortPlan). q.reality_production) a.fixed,
        ap (λ (q : PortPlan). q.reality_shadow) a.fixed,
        ap (λ (q : PortPlan). q.cdn_edge_origin) a.fixed,
        ap (λ (q : PortPlan). q.warp_loopback) a.fixed,
        low,
        high,
        shadow,
        edge,
        warp,
      )

  valid_iff :
      (p : InstallPlan)
      → IsAnswered mail s p
      → (validate_for mail p s.existing ≡ valid) ↔ Separate p
  valid_iff p a =
      let (rules, sound) = validate_for_iff mail p s.existing in
      let (low, high, trial, _) = a.port in
      (
        λ h.
            let (_, _, (_, _, _, _, _, _, shadow, edge, warp), (_, routes)) = rules h in
            ((shadow, edge, warp), λ dual_mode. (routes (dual_not_keep dual_mode)).2 dual_mode),
        λ apart. sound (
          a.preferences,
          a.credentials,
          ports_lem p a apart,
          (trial, λ k. (a.gray_given k, a.orange_given k, apart.1)),
        ),
      )

  -- When every question was answered, the plan has known modes, valid credentials and a valid
  -- identity for each route that it uses, and its SS2022 port is a free one or the one that an
  -- existing node was found to listen on. Of all the rules of the validation only two are left: the
  -- plan is accepted exactly if that port is none of the other listeners' ports, and two routes have
  -- two hostnames.
  pub collect_install_plan_iff :
      (input : Input) {p : InstallPlan} {rest : Input}
      → answered_plan mail s input ≡ ok (p, rest)
      → IsAnswered mail s p × ((collect_install_plan mail s input ≡ ok (p, rest)) ↔ Separate p)
  unfolding collect_install_plan
  collect_install_plan_iff input {p} {rest} h =
      let a = answered_plan-IsAnswered mail s input h in
      let (there, back) = accepted_iff (validate_for mail p s.existing) p rest in
      let (to, from) = valid_iff p a in
      (a, (λ k. to (there (rw h at k)), λ apart. rw h (back (from apart))))
