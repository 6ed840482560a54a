-- ===== src/Topology/Choose.antt =====
-- chooseTopologyPlan of topology.go: the loop of the topology menu.
pub mod Laws
use proxy_node_assistant.Topology.{
  dual, LoadError, TopologyPlan, ask_labeled_domain_email, empty_plan, gray,
  load_existing_topology_plan, orange,
}
use proxy_node_assistant.Console.{Input, prompt}
use proxy_node_assistant.Effects.{ProcessResult}
use proxy_node_assistant.Plan.Identity.{MailParser}
use proxy_node_assistant.Prelude.{
  Bool, Option, Result, err, if◌then◌else◌, length, none, ok, some, suc, wrap, zero, ℕ, ◌&&◌,
}
use proxy_node_assistant.Text.{Text, codes, text_eq}

pub data ChooseError : Type 0 where
  closed_input : ChooseError
  not_loaded : LoadError → ChooseError
  stuck : ChooseError

abbrev pub Chosen : Type 0
Chosen = Result ChooseError (TopologyPlan × Input)

abbrev pub gray_plan : Text → Text → TopologyPlan
gray_plan domain email = record empty_plan { mode = gray; gray_domain = domain; gray_email = email }

abbrev pub orange_plan : Text → Text → TopologyPlan
orange_plan domain email = record empty_plan {
  mode = orange;
  orange_domain = domain;
  orange_email = email;
}

abbrev pub dual_plan : Text → Text → Text → Text → TopologyPlan
dual_plan domain email domain' email' = record {
  mode = dual;
  gray_domain = domain;
  gray_email = email;
  orange_domain = domain';
  orange_email = email';
}

abbrev pub chose_gray : Option (Text × Text × Input) → Chosen
chose_gray none = err closed_input
chose_gray (some (domain, email, input)) = ok (gray_plan domain email, input)

abbrev pub chose_orange : Option (Text × Text × Input) → Chosen
chose_orange none = err closed_input
chose_orange (some (domain, email, input)) = ok (orange_plan domain email, input)

-- The second question of choice 3; `again` continues the loop.
abbrev pub chose_second : Text → Text → Option (Text × Text × Input) → (Input → Chosen) → Chosen
unfolding text_eq
chose_second domain email none again = err closed_input
chose_second domain email (some (domain', email', input)) again =
    let next = again input in
    if text_eq domain domain' then next else ok (dual_plan domain email domain' email', input)

module _ (mail : MailParser) where
  abbrev pub chose_dual : Option (Text × Text × Input) → (Input → Chosen) → Chosen
  unfolding ask_labeled_domain_email
  chose_dual none again = err closed_input
  chose_dual (some (domain, email, input)) again =
      chose_second domain email (ask_labeled_domain_email mail input) again

  -- One round of the loop. `installed` is topologyAlreadyInstalled, `reply` the server's record.
  unfoldable pub choose_round :
      Bool → ProcessResult → Option (Text × Input) → (Input → Chosen) → Chosen
  unfolding text_eq load_existing_topology_plan ask_labeled_domain_email
  choose_round installed reply none again = err closed_input
  choose_round installed reply (some (choice, input)) again =
      if text_eq choice (codes "0") && installed
      then wrap not_loaded (load_existing_topology_plan mail reply input)
      else if text_eq choice (codes "1")
      then chose_gray (ask_labeled_domain_email mail input)
      else if text_eq choice (codes "2")
      then chose_orange (ask_labeled_domain_email mail input)
      else if text_eq choice (codes "3")
      then chose_dual (ask_labeled_domain_email mail input) again
      else again input

  -- The loop on fuel; `stuck` means that the fuel ran out.
  unfoldable pub choose_loop : ℕ → Bool → ProcessResult → Input → Chosen
  unfolding choose_round prompt
  choose_loop zero installed reply input = err stuck
  choose_loop (suc fuel) installed reply input =
      choose_round installed reply (prompt input) (choose_loop fuel installed reply)

  unfoldable pub choose_topology_plan : Bool → ProcessResult → Input → Chosen
  unfolding choose_loop
  choose_topology_plan installed reply input =
      choose_loop (suc (length input)) installed reply input
