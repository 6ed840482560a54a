-- ===== src/InstallFlow/Secrets.antt =====
-- What chooseCredentialPlan of install_flow.go makes of the answers.
use proxy_node_assistant.Prelude.{
  false, ok-ne-err, sym, Bool, Option, [], ap, guard-eq-ok, none, not, not-eq-false, ok,
  ok-injective, some, subst, true, ◌∷◌, ◌≡◌, >>=-eq-ok,
}
use proxy_node_assistant.InstallFlow.{
  Asked, bad_panel_account, bad_secret, choose_until, credential_answer, secrets_differ,
}
use proxy_node_assistant.Console.{Input, required_until}
use proxy_node_assistant.InstallFlow.Answers.{choose_until-accepts, credential_answer_lem}
use proxy_node_assistant.InstallFlow.Credentials.{
  account_answer, choose_credential_plan, exact_line, panel_login, prompt_matching_secret,
  repeated_secret, vps_secret,
}
use proxy_node_assistant.Plan.Types.{CredentialMode, CredentialPlan}
use proxy_node_assistant.Plan.Validate.{valid_credential_secret, valid_panel_account}
use proxy_node_assistant.Plan.Validate.Sound.{CredentialRules}
use proxy_node_assistant.Text.{Text, text_eq, trim_space}

pub answer-eq :
    {A : Type 0} {a b : A} {rest end : Input}
    → ◌≡◌ {A = Asked A} (ok (a, rest)) (ok (b, end))
    → a ≡ b
answer-eq h = ap (λ p. p.0) (ok-injective h)

repeated_secret_lem :
    (first : Text) (input : Input) {p : Text} {rest : Input}
    → repeated_secret first input ≡ ok (p, rest)
    → first ≡ p
unfolding repeated_secret
repeated_secret_lem first [] h = cc
repeated_secret_lem first (line ∷ input) h =
    let (same, h1) = guard-eq-ok (not (text_eq first (exact_line line))) secrets_differ _ h in
    answer-eq h1

prompt_matching_secret_lem :
    (input : Input) {p : Text} {rest : Input}
    → prompt_matching_secret input ≡ ok (p, rest)
    → valid_credential_secret p ≡ true
unfolding prompt_matching_secret
prompt_matching_secret_lem [] h = cc
prompt_matching_secret_lem (line ∷ input) h =
    let (good, h1) = guard-eq-ok (not (valid_credential_secret (exact_line line))) bad_secret _ h in
    subst (λ p. valid_credential_secret p ≡ true) (repeated_secret_lem (exact_line line) input h1)
      (not-eq-false good)

vps_secret_lem :
    (mode : CredentialMode) (input : Input) {p : Text} {rest : Input}
    → vps_secret mode input ≡ ok (p, rest)
    → mode ≡ CredentialMode.custom
    → valid_credential_secret p ≡ true
unfolding vps_secret
vps_secret_lem CredentialMode.custom input h e = prompt_matching_secret_lem input h
vps_secret_lem CredentialMode.preserve input h e = cc
vps_secret_lem CredentialMode.random input h e = cc
vps_secret_lem (CredentialMode.unknown t) input h e = cc

account_answer_lem :
    (o : Option (Text × Input)) {account : Text} {rest : Input}
    → account_answer o ≡ ok (account, rest)
    → valid_panel_account account ≡ true
unfolding account_answer
account_answer_lem none h = elim (ok-ne-err (sym h)) [ ]
account_answer_lem (some (typed, input)) h =
    let (good, h1) =
      guard-eq-ok (not (valid_panel_account (trim_space typed))) bad_panel_account _ h in
    subst (λ a. valid_panel_account a ≡ true) (answer-eq h1) (not-eq-false good)

panel_login_lem :
    (mode : CredentialMode) (input : Input) {login : Text × Text} {rest : Input}
    → panel_login mode input ≡ ok (login, rest)
    → mode ≡ CredentialMode.custom
    → (valid_panel_account login.0 ≡ true) × (valid_credential_secret login.1 ≡ true)
unfolding panel_login
panel_login_lem CredentialMode.custom input h e =
    let ((account, later), typed, h1) =
      >>=-eq-ok (account_answer (required_until (λ value. some value) input)) _ h in
    let ((password, after), secret, h2) = >>=-eq-ok (prompt_matching_secret later) _ h1 in
    subst
      (λ (l : Text × Text). (valid_panel_account l.0 ≡ true) × (valid_credential_secret l.1 ≡ true))
      (answer-eq h2)
      (
        account_answer_lem (required_until (λ value. some value) input) typed,
        prompt_matching_secret_lem later secret,
      )
panel_login_lem CredentialMode.preserve input h e = cc
panel_login_lem CredentialMode.random input h e = cc
panel_login_lem (CredentialMode.unknown t) input h e = cc

not_both : {b : Bool} → b ≡ true → b ≡ false → ⊥
not_both h k = cc

pub choose_credential_plan-CredentialRules :
    (existing complete : Bool) (input : Input) {p : CredentialPlan} {rest : Input}
    → choose_credential_plan existing complete input ≡ ok (p, rest)
    → CredentialRules p existing
unfolding choose_credential_plan
choose_credential_plan-CredentialRules existing complete input {p} h =
    let ask = choose_until (credential_answer existing complete) in
    let ((vps, input1), e1, h1) = >>=-eq-ok (ask input) _ h in
    let ((vps_password, input2), e2, h2) = >>=-eq-ok (vps_secret vps input1) _ h1 in
    let ((panel, input3), e3, h3) = >>=-eq-ok (ask input2) _ h2 in
    let ((login, input4), e4, h4) = >>=-eq-ok (panel_login panel input3) _ h3 in
    let (v, vps_typed) = choose_until-accepts (credential_answer existing complete) input e1 in
    let (w, panel_typed) = choose_until-accepts (credential_answer existing complete) input2 e3 in
    let (vps_known, vps_kept) = credential_answer_lem existing complete v vps_typed in
    let (panel_known, panel_kept) = credential_answer_lem existing complete w panel_typed in
    subst (λ (c : CredentialPlan). CredentialRules c existing) (answer-eq h4)
      (
        vps_known,
        panel_known,
        λ fresh. (λ e. not_both (vps_kept e) fresh, λ e. not_both (panel_kept e) fresh),
        vps_secret_lem vps input1 e2,
        panel_login_lem panel input3 e4,
      )
