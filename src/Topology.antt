-- ===== src/Topology.antt =====
-- topology.go: the topology plan that the operator chooses, its file on the server, and the final
-- convergence. Printed text and the loops that only wait for the operator are left out.
pub mod Choose
pub mod Server
pub mod Asked
pub mod Loaded
pub mod Stored
use proxy_node_assistant.Console.{Input, required_until}
use proxy_node_assistant.Effects.{ProcessResult, succeeded}
use proxy_node_assistant.Plan.Identity.{MailParser, valid_domain, valid_email}
use proxy_node_assistant.Prelude.{
  ◌>>=◌, Bool, List, Option, Result, [], err, false, if◌then◌else◌, is_empty, none, not, ok, some,
  true, ◌&&◌, ◌++◌, ◌||◌, ◌∷◌,
}
use proxy_node_assistant.Protocol.KeyValue.{parse_kv}
use proxy_node_assistant.Text.{Fields, Text, codes, get, join, text_eq, to_lower, trim_space}

pub data TopologyMode : Type 0 where
  keep gray orange dual : TopologyMode

pub record TopologyPlan : Type 0 where
  pub mode : TopologyMode
  pub gray_domain : Text
  pub gray_email : Text
  pub orange_domain : Text
  pub orange_email : Text

abbrev pub empty_plan : TopologyPlan
empty_plan = record {
  mode = keep;
  gray_domain = [];
  gray_email = [];
  orange_domain = [];
  orange_email = [];
}

abbrev pub is_gray : TopologyMode → Bool
is_gray gray = true
is_gray _ = false

abbrev pub is_orange : TopologyMode → Bool
is_orange orange = true
is_orange _ = false

abbrev pub is_dual : TopologyMode → Bool
is_dual dual = true
is_dual _ = false

unfoldable pub base_domain_email : TopologyPlan → Text × Text
base_domain_email p =
    if is_orange p.mode then (p.orange_domain, p.orange_email) else (p.gray_domain, p.gray_email)

unfoldable pub lifecycle : TopologyMode → Text
lifecycle orange = codes "MANAGED_ORANGE"
lifecycle dual = codes "MANAGED_DUAL"
lifecycle _ = codes "MANAGED_GRAY"

-- The map from a mode to its name; a mode that is not in it has the empty one.
abbrev pub mode_name : TopologyMode → Text
mode_name keep = []
mode_name gray = codes "gray"
mode_name orange = codes "orange"
mode_name dual = codes "dual"

abbrev pub mode_key : Text
mode_key = codes "TOPOLOGY_MODE"

abbrev pub gray_domain_key : Text
gray_domain_key = codes "GRAY_DOMAIN"

abbrev pub gray_email_key : Text
gray_email_key = codes "GRAY_EMAIL"

abbrev pub orange_domain_key : Text
orange_domain_key = codes "ORANGE_DOMAIN"

abbrev pub orange_email_key : Text
orange_email_key = codes "ORANGE_EMAIL"

pub data BodyError : Type 0 where
  unresolved gray_incomplete orange_incomplete same_hostname : BodyError

-- The lines of the file, without their line feeds.
abbrev pub plan_lines : TopologyPlan → List Text
plan_lines p =
    codes "TOPOLOGY_STATE_VERSION=1"
    ∷ (mode_key ++ b'=' ∷ mode_name p.mode)
    ∷ (gray_domain_key ++ b'=' ∷ p.gray_domain)
    ∷ (gray_email_key ++ b'=' ∷ p.gray_email)
    ∷ (orange_domain_key ++ b'=' ∷ p.orange_domain)
    ∷ (orange_email_key ++ b'=' ∷ p.orange_email)
    ∷ []

pub data TopologyEvent : Type 0 where
  root_capture_with_input : Text → Text → TopologyEvent

pub data LoadError : Type 0 where
  read_failed : ProcessResult → LoadError
  no_record invalid_gray_domain invalid_orange_domain input_closed : LoadError

pub data PersistError : Type 0 where
  invalid_plan : BodyError → PersistError
  persist_failed reconcile_failed : ProcessResult → PersistError
  mismatch : Text → Text → Text → Text → PersistError

abbrev mode_of : Text → Option TopologyMode
unfolding text_eq
mode_of name =
    if text_eq name (codes "gray")
    then some gray
    else if text_eq name (codes "orange")
    then some orange
    else if text_eq name (codes "dual")
    then some dual
    else none

-- The plan that the server's record holds.
abbrev recorded : TopologyMode → Fields → TopologyPlan
unfolding get
recorded mode values = record {
  mode = mode;
  gray_domain = get gray_domain_key values;
  gray_email = get gray_email_key values;
  orange_domain = get orange_domain_key values;
  orange_email = get orange_email_key values;
}

abbrev beside : Text → Option (Text × Input) → Option (Text × Text × Input)
beside domain none = none
beside domain (some (email, input)) = some (domain, email, input)

module _ (mail : MailParser) where
  unfoldable pub topology_plan_body : TopologyPlan → Result BodyError Text
  unfolding valid_domain valid_email join text_eq
  topology_plan_body p =
      if is_empty (mode_name p.mode)
      then err unresolved
      else if not (is_orange p.mode)
          && (not (valid_domain p.gray_domain) || not (valid_email mail p.gray_email))
      then err gray_incomplete
      else if not (is_gray p.mode)
          && (not (valid_domain p.orange_domain) || not (valid_email mail p.orange_email))
      then err orange_incomplete
      else if is_dual p.mode && text_eq p.gray_domain p.orange_domain
      then err same_hostname
      else ok (join b'\n' (plan_lines p) ++ b'\n' ∷ [])

  accept_domain : Text → Option Text
  unfolding valid_domain to_lower trim_space
  accept_domain value =
      let domain = to_lower (trim_space value) in if valid_domain domain then some domain else none

  accept_email : Text → Option Text
  unfolding valid_email trim_space
  accept_email value =
      let email = trim_space value in if valid_email mail email then some email else none

  abbrev ask_email : Option (Text × Input) → Option (Text × Text × Input)
  unfolding required_until accept_email
  ask_email none = none
  ask_email (some (domain, input)) = beside domain (required_until accept_email input)

  unfoldable pub ask_labeled_domain_email : Input → Option (Text × Text × Input)
  unfolding required_until accept_domain accept_email
  ask_labeled_domain_email input = ask_email (required_until accept_domain input)

  abbrev with_gray :
      TopologyPlan → Option (Text × Text × Input) → Result LoadError (TopologyPlan × Input)
  with_gray p none = err input_closed
  with_gray p (some (domain, email, input)) =
      ok (record p { gray_domain = domain; gray_email = email }, input)

  abbrev with_orange :
      TopologyPlan → Option (Text × Text × Input) → Result LoadError (TopologyPlan × Input)
  with_orange p none = err input_closed
  with_orange p (some (domain, email, input)) =
      ok (record p { orange_domain = domain; orange_email = email }, input)

  unfoldable pub reconfirm_gray : TopologyPlan → Input → Result LoadError (TopologyPlan × Input)
  unfolding valid_email ask_labeled_domain_email
  reconfirm_gray p input =
      if not (is_orange p.mode) && not (valid_email mail p.gray_email)
      then with_gray p (ask_labeled_domain_email input)
      else ok (p, input)

  unfoldable pub reconfirm_orange : TopologyPlan → Input → Result LoadError (TopologyPlan × Input)
  unfolding valid_email ask_labeled_domain_email
  reconfirm_orange p input =
      if not (is_gray p.mode) && not (valid_email mail p.orange_email)
      then with_orange p (ask_labeled_domain_email input)
      else ok (p, input)

  abbrev checked : TopologyPlan → Input → Result LoadError (TopologyPlan × Input)
  unfolding valid_domain reconfirm_gray reconfirm_orange
  checked p input =
      if not (is_orange p.mode) && not (valid_domain p.gray_domain)
      then err invalid_gray_domain
      else if not (is_gray p.mode) && not (valid_domain p.orange_domain)
      then err invalid_orange_domain
      else reconfirm_gray p input >>= λ (q : TopologyPlan × Input). reconfirm_orange q.0 q.1

  abbrev loaded : Fields → Input → Option TopologyMode → Result LoadError (TopologyPlan × Input)
  unfolding get valid_domain reconfirm_gray reconfirm_orange
  loaded values input none = err no_record
  loaded values input (some mode) = checked (recorded mode values) input

  -- What loadExistingTopologyPlan makes of the reply that holds the server's record.
  unfoldable pub load_existing_topology_plan :
      ProcessResult → Input → Result LoadError (TopologyPlan × Input)
  unfolding succeeded parse_kv get mode_of loaded
  load_existing_topology_plan reply input =
      let values = parse_kv reply.stdout in
      if not (succeeded reply)
      then err (read_failed reply)
      else loaded values input (mode_of (get mode_key values))
