-- ===== src/Topology/Choose/Laws.antt =====
-- The loop of the topology menu ends, and what it returns can be used.
use proxy_node_assistant.Topology.{
  loaded, is_dual, is_gray, is_orange, plan_lines, LoadError, TopologyPlan,
  ask_labeled_domain_email, load_existing_topology_plan, same_hostname, topology_plan_body,
}
use proxy_node_assistant.Console.{prompt, Input}
use proxy_node_assistant.Prelude.{
  and-eq-true, arith, false, not, suc, zero, ℕ, ◌||◌, ◌∙◌, [], if◌then◌else◌, refl, ◌&&◌, ◌++◌, ◌∷◌,
  Bool, Bool-cases, Option, Result, err, inl, inr, length, none, ok, some, true, wrap, ◌<◌, ◌≡◌,
  ◌≢◌, ◌⊎◌,
}
use proxy_node_assistant.Text.{codes, trim_space, join, Text, text_eq}
use proxy_node_assistant.Topology.Choose.{
  choose_loop, choose_round, choose_topology_plan, chose_dual, chose_orange, dual_plan, gray_plan,
  orange_plan, Chosen, chose_gray, chose_second, not_loaded, stuck,
}
use proxy_node_assistant.Topology.Loaded.{load_existing_topology_plan-IsUsable, IsUsable}
use proxy_node_assistant.Effects.{ProcessResult}
use proxy_node_assistant.Plan.Identity.{MailParser, valid_domain, valid_email}
use proxy_node_assistant.Topology.Asked.{ask_labeled_domain_email-IsAsked}

both_held :
    (skipped a b : Bool)
    → (skipped ≡ false → (a ≡ true) × (b ≡ true))
    → (not skipped && (not a || not b)) ≡ false
both_held true a b h = refl
both_held false a b h = rw ((h refl).0, (h refl).1) refl

module _ (mail : MailParser) where
  abbrev written : TopologyPlan → Text
  written p = join b'\n' (plan_lines p) ++ b'\n' ∷ []

  IsUsable-body :
      (p : TopologyPlan)
      → IsUsable mail p
      → topology_plan_body mail p ≡ (
          if is_dual p.mode && text_eq p.gray_domain p.orange_domain
          then err same_hostname
          else ok (written p))
  unfolding topology_plan_body
  IsUsable-body p u =
      rw
        (
          u.resolved,
          both_held (is_orange p.mode) (valid_domain p.gray_domain) (valid_email mail p.gray_email)
              u.gray_route,
          both_held (is_gray p.mode) (valid_domain p.orange_domain)
              (valid_email mail p.orange_email) u.orange_route,
        )
        refl

module _ (mail : MailParser) (installed : Bool) (reply : ProcessResult) where
  -- What the loop may return: no lack of fuel, and a plan that can be written, unless a toolkit is
  -- installed, the plan is the one that its record gives, and it names one host twice.
  abbrev pub IsChosen : Chosen → Type 0
  IsChosen (err e) = e ≢ stuck
  IsChosen (ok (p, rest)) =
      ((body : Text) × (topology_plan_body mail p ≡ ok body))
      ⊎ ((installed ≡ true)
          × ((asked : Input) × (load_existing_topology_plan mail reply asked ≡ ok (p, rest)))
          × (topology_plan_body mail p ≡ err same_hostname))

  chose_gray-IsChosen :
      (input : Input) (o : Option (Text × Text × Input))
      → ask_labeled_domain_email mail input ≡ o
      → IsChosen (chose_gray o)
  chose_gray-IsChosen input none e = λ h. cc
  chose_gray-IsChosen input (some (d, m, rest)) e =
      let asked = ask_labeled_domain_email-IsAsked mail input e in
      inl (
        written mail (gray_plan d m),
        IsUsable-body mail (gray_plan d m) (record {
          resolved = refl;
          gray_route = λ used. (asked.domain_valid, asked.email_valid);
          orange_route = λ used. cc;
        }),
      )

  chose_orange-IsChosen :
      (input : Input) (o : Option (Text × Text × Input))
      → ask_labeled_domain_email mail input ≡ o
      → IsChosen (chose_orange o)
  chose_orange-IsChosen input none e = λ h. cc
  chose_orange-IsChosen input (some (d, m, rest)) e =
      let asked = ask_labeled_domain_email-IsAsked mail input e in
      inl (
        written mail (orange_plan d m),
        IsUsable-body mail (orange_plan d m) (record {
          resolved = refl;
          gray_route = λ used. cc;
          orange_route = λ used. (asked.domain_valid, asked.email_valid);
        }),
      )

  kept-IsChosen :
      (input : Input) (r : Result LoadError (TopologyPlan × Input))
      → installed ≡ true
      → load_existing_topology_plan mail reply input ≡ r
      → IsChosen (wrap not_loaded r)
  kept-IsChosen input (err e) present loaded = λ h. cc
  kept-IsChosen input (ok (p, rest)) present loaded =
      let body =
        IsUsable-body mail p (load_existing_topology_plan-IsUsable mail reply input loaded) in
      elim (Bool-cases (is_dual p.mode && text_eq p.gray_domain p.orange_domain)) [
        | inl twice ↦ inr (present, (input, loaded), body ∙ rw twice refl)
        | inr once ↦ inl (written mail p, body ∙ rw once refl)
      ]

  chose_second-IsChosen :
      (d m : Text) (input : Input) (o : Option (Text × Text × Input)) (again : Input → Chosen)
      → ask_labeled_domain_email mail input ≡ o
      → valid_domain d ≡ true
      → valid_email mail m ≡ true
      → ((rest : Input) → length rest < length input → IsChosen (again rest))
      → IsChosen (chose_second d m o again)
  unfolding chose_second
  chose_second-IsChosen d m input none again e v w more = λ h. cc
  chose_second-IsChosen d m input (some (d', m', rest)) again e v w more =
      let asked = ask_labeled_domain_email-IsAsked mail input e in
      let body = IsUsable-body mail (dual_plan d m d' m') (record {
        resolved = refl;
        gray_route = λ used. (v, w);
        orange_route = λ used. (asked.domain_valid, asked.email_valid);
      }) in
      elim (Bool-cases (text_eq d d')) [
        | inl q ↦ rw q (more rest asked.shorter)
        | inr q ↦ rw q (inl (written mail (dual_plan d m d' m'), body ∙ rw q refl))
      ]

  chose_dual-IsChosen :
      (input : Input) (o : Option (Text × Text × Input)) (again : Input → Chosen)
      → ask_labeled_domain_email mail input ≡ o
      → ((rest : Input) → length rest < length input → IsChosen (again rest))
      → IsChosen (chose_dual mail o again)
  unfolding chose_dual
  chose_dual-IsChosen input none again e more = λ h. cc
  chose_dual-IsChosen input (some (d, m, mid)) again e more =
      let asked = ask_labeled_domain_email-IsAsked mail input e in
      chose_second-IsChosen d m mid _ again refl asked.domain_valid asked.email_valid
        (λ rest shorter. more rest (omega arith))

  choose_round-IsChosen :
      (choice : Text) (input : Input) (again : Input → Chosen)
      → ((rest : Input) → length rest < suc (length input) → IsChosen (again rest))
      → IsChosen (choose_round mail installed reply (some (choice, input)) again)
  unfolding choose_round
  choose_round-IsChosen choice input again more =
      elim (Bool-cases (text_eq choice (codes "0") && installed)) [
        | inl q ↦
            let (zero_choice, present) = and-eq-true (text_eq choice (codes "0")) installed q in
            rw q (kept-IsChosen input _ present refl)
        | inr q ↦ rw q (elim (Bool-cases (text_eq choice (codes "1"))) [
          | inl one ↦ rw one (chose_gray-IsChosen input _ refl)
          | inr not_one ↦ rw not_one (elim (Bool-cases (text_eq choice (codes "2"))) [
            | inl two ↦ rw two (chose_orange-IsChosen input _ refl)
            | inr not_two ↦ rw not_two (elim (Bool-cases (text_eq choice (codes "3"))) [
              | inl three ↦
                  rw three (
                    chose_dual-IsChosen input _ again refl
                      (λ rest shorter. more rest (omega arith)))
              | inr other ↦ rw other (more input (omega arith))
            ])
          ])
        ])
      ]

  choose_loop-IsChosen :
      (fuel : ℕ) (input : Input)
      → length input < fuel
      → IsChosen (choose_loop mail fuel installed reply input)
  unfolding choose_loop prompt
  choose_loop-IsChosen zero input h = absurd (omega arith)
  choose_loop-IsChosen (suc fuel) [] h = λ k. cc
  choose_loop-IsChosen (suc fuel) (line ∷ input) h =
      choose_round-IsChosen (trim_space line) input (choose_loop mail fuel installed reply)
        (λ rest shorter. choose_loop-IsChosen fuel rest (omega arith))

  -- The menu ends for every input of the operator: it never runs out of fuel. A plan that it returns
  -- can be written to the server, unless a toolkit is installed, the plan is the one that
  -- loadExistingTopologyPlan makes of its record, and it names one host for both routes.
  pub choose_topology_plan-IsChosen :
      (input : Input) → IsChosen (choose_topology_plan mail installed reply input)
  unfolding choose_topology_plan
  choose_topology_plan-IsChosen input =
      choose_loop-IsChosen (suc (length input)) input (omega arith)
