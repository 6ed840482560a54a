-- ===== src/InstallFlow.antt =====
-- install_flow.go: the questions before an installation. What is asked is not modelled, only what is
-- made of the answers; each loop asks again on an answer that it does not take.
pub mod Accepted
pub mod Answers
pub mod Collect
pub mod Collected
pub mod Credentials
pub mod Detect
pub mod Ports
pub mod Secrets
use proxy_node_assistant.Console.{Input, required_until}
use proxy_node_assistant.Plan.Identity.{
  MailParser, normalize_cover_template_choice, valid_domain, valid_email,
}
use proxy_node_assistant.Plan.Types.{
  CredentialMode, PerformanceMode, RouteIdentity, RouteMode, WarpMode, auto, custom,
  default_ss2022_tcp_port, ensure_on, high, legacy_ss2022_trial_port, low, preserve, random,
  standard,
}
use proxy_node_assistant.Plan.Validate.{PlanError}
use proxy_node_assistant.Prelude.{
  Bool, List, Option, Result, [], any, between, err, if◌then◌else◌, is_empty, none, not, ok, some,
  ℕ, ◌&&◌, ◌==◌, ◌||◌, ◌∷◌, ◌>>=◌,
}
use proxy_node_assistant.Text.{Text, atoi, codes, text_eq, to_lower, trim_space, within}

pub data CollectError : Type 0 where
  input_is_closed bad_secret secrets_differ bad_panel_account : CollectError
  plan_refused : PlanError → CollectError

-- An answer, and the input that is left.
abbrev pub Asked : Type 0 → Type 0
Asked A = Result CollectError (A × Input)

abbrev pub taken : {A : Type 0} → Option A → Input → Asked A → Asked A
taken none input later = later
taken (some a) input later = ok (a, input)

-- A loop around `prompt` that ends with the first answer that is accepted.
unfoldable pub choose_until : {A : Type 0} → (Text → Option A) → Input → Asked A
unfolding trim_space
choose_until accept [] = err input_is_closed
choose_until accept (line ∷ input) =
    let later = choose_until accept input in
    taken (accept (trim_space (trim_space line))) input later

unfoldable pub route_answer : Bool → Text → Option RouteMode
unfolding text_eq
route_answer existing answer =
    if text_eq answer (codes "0")
    then (if existing then some RouteMode.keep else none)
    else if text_eq answer (codes "1")
    then some RouteMode.gray
    else if text_eq answer (codes "2")
    then some RouteMode.orange
    else if text_eq answer (codes "3")
    then some RouteMode.dual
    else none

unfoldable pub cover_answer : Bool → Text → Option Text
unfolding text_eq normalize_cover_template_choice
cover_answer existing answer =
    if text_eq answer (codes "0") && existing
    then some (codes "preserve")
    else if is_empty answer
    then none
    else normalize_cover_template_choice answer

unfoldable pub performance_answer : Bool → Text → Option PerformanceMode
unfolding text_eq
performance_answer existing answer =
    if text_eq answer (codes "0")
    then (if existing then some PerformanceMode.preserve else none)
    else if text_eq answer (codes "1")
    then some PerformanceMode.auto
    else if text_eq answer (codes "2")
    then some PerformanceMode.low
    else if text_eq answer (codes "3")
    then some PerformanceMode.standard
    else if text_eq answer (codes "4")
    then some PerformanceMode.high
    else none

unfoldable pub warp_answer : Text → Option WarpMode
unfolding text_eq
warp_answer answer =
    if text_eq answer (codes "0")
    then some WarpMode.preserve
    else if text_eq answer (codes "1")
    then some WarpMode.ensure_on
    else none

-- `complete` is the readiness of the credentials on an existing node.
unfoldable pub credential_answer : Bool → Bool → Text → Option CredentialMode
unfolding text_eq to_lower
credential_answer existing complete typed =
    let answer = to_lower typed in
    if is_empty answer && (existing && complete)
    then some CredentialMode.preserve
    else if text_eq answer (codes "0")
    then (if existing then some CredentialMode.preserve else none)
    else if any (text_eq answer) (codes "1" ∷ codes "r" ∷ codes "random" ∷ [])
    then some CredentialMode.random
    else if any (text_eq answer) (codes "2" ∷ codes "c" ∷ codes "custom" ∷ [])
    then some CredentialMode.custom
    else none

abbrev detected_port : Option ℕ → ℕ
detected_port none = default_ss2022_tcp_port
detected_port (some port) = if between 1024 65535 port then port else default_ss2022_tcp_port

-- A listener that an existing node has already is not moved silently.
unfoldable pub default_port : Bool → Option ℕ → ℕ
default_port existing detected =
    if existing then detected_port detected else default_ss2022_tcp_port

abbrev pub fixed_listeners : List ℕ
fixed_listeners = 443 ∷ 24443 ∷ 8443 ∷ 40000 ∷ []

abbrev pub free_port : Bool → Option ℕ → Option ℕ
free_port existing none = none
free_port existing (some port) =
    if not (any (λ (occupied : ℕ). port == occupied) fixed_listeners)
      && (existing || not (port == legacy_ss2022_trial_port))
    then some port
    else none

unfoldable pub port_answer : Bool → Option ℕ → Text → Option ℕ
unfolding default_port atoi
port_answer existing detected answer =
    if is_empty answer
    then some (default_port existing detected)
    else free_port existing (within 1024 65535 (atoi answer))

module _ (mail : MailParser) where
  unfoldable pub domain_answer : Text → Option Text
  unfolding valid_domain to_lower trim_space
  domain_answer value =
      let domain = to_lower (trim_space value) in if valid_domain domain then some domain else none

  unfoldable pub email_answer : Text → Option Text
  unfolding valid_email trim_space
  email_answer value =
      let email = trim_space value in if valid_email mail email then some email else none

  abbrev asked : {A : Type 0} → Option (A × Input) → Asked A
  asked none = err input_is_closed
  asked (some answer) = ok answer

  unfoldable pub ask_route_identity : Input → Asked RouteIdentity
  unfolding required_until domain_answer email_answer
  ask_route_identity input = asked (required_until domain_answer input) >>= λ (domain, later).
      asked (required_until email_answer later) >>= λ (email, rest).
      ok (record { domain = domain; email = email }, rest)
