-- ===== src/InstallFlow/Credentials.antt =====
-- install_flow.go: promptMatchingSecret and chooseCredentialPlan, and main.go's secretPromptExact.
use proxy_node_assistant.Console.{Input, required_until}
use proxy_node_assistant.InstallFlow.{
  Asked, bad_panel_account, bad_secret, choose_until, credential_answer, input_is_closed,
  secrets_differ,
}
use proxy_node_assistant.Plan.Types.{CredentialMode, CredentialPlan}
use proxy_node_assistant.Plan.Validate.{is_custom, valid_credential_secret, valid_panel_account}
use proxy_node_assistant.Prelude.{
  Bool, Option, [], err, if◌then◌else◌, is_empty, none, not, ok, some, ◌&&◌, ◌==◌, ◌∷◌, ◌>>=◌,
}
use proxy_node_assistant.Text.{Text, text_eq, trim_space}

-- `secretPromptExact` on a line: without its line feed, and a carriage return before it. As for the
-- other questions, a blank last line without a line feed counts as the end of the input.
unfoldable pub exact_line : Text → Text
exact_line [] = []
exact_line (c ∷ cs) = if is_empty cs && c == b'\r' then [] else c ∷ exact_line cs

unfoldable pub repeated_secret : Text → Input → Asked Text
unfolding exact_line text_eq
repeated_secret first [] = err input_is_closed
repeated_secret first (line ∷ input) =
    if not (text_eq first (exact_line line)) then err secrets_differ else ok (first, input)

unfoldable pub prompt_matching_secret : Input → Asked Text
unfolding exact_line valid_credential_secret repeated_secret
prompt_matching_secret [] = err input_is_closed
prompt_matching_secret (line ∷ input) =
    if not (valid_credential_secret (exact_line line))
    then err bad_secret
    else repeated_secret (exact_line line) input

unfoldable pub vps_secret : CredentialMode → Input → Asked Text
unfolding prompt_matching_secret
vps_secret mode input = if is_custom mode then prompt_matching_secret input else ok ([], input)

unfoldable pub account_answer : Option (Text × Input) → Asked Text
unfolding trim_space valid_panel_account
account_answer none = err input_is_closed
account_answer (some (typed, input)) =
    let account = trim_space typed in
    if not (valid_panel_account account) then err bad_panel_account else ok (account, input)

unfoldable pub panel_login : CredentialMode → Input → Asked (Text × Text)
unfolding prompt_matching_secret required_until account_answer
panel_login mode input =
    if is_custom mode
    then (account_answer (required_until (λ value. some value) input) >>= λ (account, later).
        prompt_matching_secret later >>= λ (password, rest). ok ((account, password), rest))
    else ok (([], []), input)

unfoldable pub choose_credential_plan : Bool → Bool → Input → Asked CredentialPlan
unfolding choose_until credential_answer vps_secret panel_login
choose_credential_plan existing complete input =
    choose_until (credential_answer existing complete) input >>= λ (vps, input1).
    vps_secret vps input1 >>= λ (vps_password, input2).
    choose_until (credential_answer existing complete) input2 >>= λ (panel, input3).
    panel_login panel input3 >>= λ (login, input4). ok (
      record {
        vps_mode = vps;
        vps_password = vps_password;
        panel_mode = panel;
        panel_account = login.0;
        panel_password = login.1;
      },
      input4,
    )
