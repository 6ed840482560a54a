-- ===== src/Transaction.antt =====
-- install_transaction.go: the remote install transaction that menu [1] recovers, begins, rolls back
-- and commits; shQuote and the toolkit roots of remote.go.
pub mod Evidence
pub mod Safety
use proxy_node_assistant.Dns.{accepted}
use proxy_node_assistant.Effects.{◌>>=◌, Exec, ProcessResult, lift, perform, pure, raise, succeeded}
use proxy_node_assistant.Prelude.{
  Bool, List, Result, [], any, between, err, false, if◌then◌else◌, is_empty, not, ok, suc, zero, ℕ,
  ◌&&◌, ◌++◌, ◌==◌, ◌||◌, ◌∷◌,
}
use proxy_node_assistant.Protocol.KeyValue.{parse_kv}
use proxy_node_assistant.Protocol.Marker.{MarkerError, extract_marker_block_current_or_legacy}
use proxy_node_assistant.Text.{Fields, Text, codes, contains, get, is_digit, text_eq}

-- `App.rootCapture` with its command, and the question `App.yes` asks.
pub data Event : Type 0 where
  root_capture : Text → Event
  ask : Event

pub data TransactionError : Type 0 where
  status_failed begin_failed rollback_failed commit_failed : ProcessResult → TransactionError
  protocol_rejected : MarkerError → TransactionError
  incomplete_status not_rolled_back invalid_id : TransactionError
  unsupported_state other_transaction : Text → TransactionError
  mismatch : Text → Text → TransactionError

pub data BaselineError : Type 0 where
  capture_failed : ProcessResult → BaselineError
  no_evidence : BaselineError

abbrev quoted : Text → Text
quoted [] = []
quoted (c ∷ cs) = (if c == b'\'' then codes "'\"'\"'" else c ∷ []) ++ quoted cs

-- `shQuote`
unfoldable pub sh_quote : Text → Text
sh_quote value = codes "'" ++ quoted value ++ codes "'"

abbrev pub remote_root : Text
remote_root = codes "/opt/proxy-node-assistant-current"

abbrev pub legacy_text_remote_root : Text
legacy_text_remote_root = codes "/opt/text-node-assistant-current"

abbrev pub legacy_runbook_remote_root : Text
legacy_runbook_remote_root = codes "/opt/proxy-runbook-current"

script_test : Text → Text
unfolding sh_quote
script_test root =
    codes "[ -x "
    ++ sh_quote (root ++ codes "/linux/28a-install-transaction.sh")
    ++ codes " ] && root="
    ++ sh_quote root

abbrev unless_found : Text → Text
unless_found command = codes "[ -n \"${root-}\" ] || { " ++ command ++ codes "; }; "

unfoldable pub transaction_command : Text → Text
unfolding script_test
transaction_command arguments =
    codes "set -u; "
    ++ script_test remote_root
    ++ codes "; "
    ++ unless_found (script_test legacy_text_remote_root)
    ++ unless_found (script_test legacy_runbook_remote_root)
    ++ unless_found (codes "echo TNA_INSTALL_TRANSACTION_ERROR=SCRIPT_MISSING >&2; exit 64")
    ++ codes "bash \"$root/linux/28a-install-transaction.sh\" "
    ++ arguments

unfoldable pub has_install_transaction_status_markers : Text → Bool
unfolding contains
has_install_transaction_status_markers output =
    (contains (codes "TNA_INSTALL_TRANSACTION_STATUS_BEGIN") output
      && contains (codes "TNA_INSTALL_TRANSACTION_STATUS_END") output)
    || (contains (codes "PNA_INSTALL_TRANSACTION_STATUS_BEGIN") output
        && contains (codes "PNA_INSTALL_TRANSACTION_STATUS_END") output)

parsed : Result MarkerError Text → Result TransactionError Fields
unfolding parse_kv
parsed (ok block) = ok (parse_kv block)
parsed (err e) = err (protocol_rejected e)

unfoldable pub parse_install_transaction_status : Text → Result TransactionError Fields
unfolding extract_marker_block_current_or_legacy parsed
parse_install_transaction_status output = parsed (
    extract_marker_block_current_or_legacy output (codes "TNA_INSTALL_TRANSACTION_STATUS_BEGIN")
      (codes "TNA_INSTALL_TRANSACTION_STATUS_END") (codes "PNA_INSTALL_TRANSACTION_STATUS_BEGIN")
      (codes "PNA_INSTALL_TRANSACTION_STATUS_END"))

abbrev pub status_key : Text
status_key = codes "TRANSACTION_STATUS"

abbrev pub id_key : Text
id_key = codes "TRANSACTION_ID"

complete : Result TransactionError Fields → Result TransactionError Fields
unfolding get
complete (ok values) = if is_empty (get status_key values) then err incomplete_status else ok values
complete (err e) = err e

-- What installTransactionStatus makes of the reply to the status command.
unfoldable pub status_of : ProcessResult → Result TransactionError Fields
unfolding succeeded contains has_install_transaction_status_markers parse_install_transaction_status
    complete
status_of result =
    if not (succeeded result)
      && contains (codes "TNA_INSTALL_TRANSACTION_ERROR=SCRIPT_MISSING")
          (result.stderr ++ result.stdout)
    then ok ((status_key, codes "NONE") ∷ [])
    else if not (succeeded result) || not (has_install_transaction_status_markers result.stdout)
    then err (status_failed result)
    else complete (parse_install_transaction_status result.stdout)

-- `installTransactionIDPattern`: `^tna-install-[0-9]{8}T[0-9]{6}Z-[0-9a-f]{12}$`
abbrev pub is_hex : ℕ → Bool
is_hex c = is_digit c || between b'a' b'f' c

abbrev pub counted : ℕ → (ℕ → Bool) → (Text → Bool) → Text → Bool
counted zero p rest s = rest s
counted (suc n) p rest [] = false
counted (suc n) p rest (c ∷ cs) = let later = counted n p rest cs in p c && later

abbrev pub then_literal : Text → (Text → Bool) → Text → Bool
then_literal [] rest s = rest s
then_literal (l ∷ ls) rest [] = false
then_literal (l ∷ ls) rest (c ∷ cs) = let later = then_literal ls rest cs in l == c && later

unfoldable pub is_transaction_id : Text → Bool
is_transaction_id = then_literal (codes "tna-install-") (
    counted 8 is_digit (
      then_literal (codes "T")
        (counted 6 is_digit (then_literal (codes "Z-") (counted 12 is_hex is_empty)))))

-- The rollback evidence that the recovery of an interrupted transaction accepts.
unfoldable pub is_recovered : ProcessResult → Bool
unfolding succeeded contains
is_recovered r =
    succeeded r
    && (contains (codes "TNA_INSTALL_TRANSACTION_ROLLED_BACK=1") r.stdout
        || contains (codes "TNA_INSTALL_TRANSACTION_ROLLBACK=PREPARE_ABORTED") r.stdout
        || contains (codes "TNA_INSTALL_TRANSACTION_ROLLBACK=NOT_NEEDED") r.stdout)

unfoldable pub is_proven : Text → ProcessResult → Bool
unfolding succeeded contains
is_proven marker r = succeeded r && contains marker r.stdout

unfoldable pub began : ProcessResult → Result TransactionError Text
began r =
    if not (is_proven (codes "TNA_INSTALL_TRANSACTION_BEGAN=1") r)
    then err (begin_failed r)
    else let id = get id_key (parse_kv r.stdout) in
      if not (is_transaction_id id) then err invalid_id else ok id

baseline_test : Text
baseline_test = codes "[ -x \"$root/linux/22-dismantle-managed-node.sh\" ] || "

unfoldable pub baseline_command : Text
unfolding baseline_test
baseline_command =
    codes "set -u; root="
    ++ sh_quote remote_root
    ++ codes "; "
    ++ baseline_test
    ++ codes "root="
    ++ sh_quote legacy_text_remote_root
    ++ codes "; "
    ++ baseline_test
    ++ codes "root="
    ++ sh_quote legacy_runbook_remote_root
    ++ codes "; "
    ++ baseline_test
    ++ codes
        "{ echo TNA_BASELINE_CAPTURE=UNAVAILABLE >&2; exit 63; }; bash \"$root/linux/22-dismantle-managed-node.sh\" --capture-baseline"

unfoldable pub baseline_of : ProcessResult → Result BaselineError (Unit {0})
unfolding succeeded contains
baseline_of r =
    if not (succeeded r)
    then err (capture_failed r)
    else if any (λ marker. contains marker r.stdout)
        (codes "ORIGINAL_BASELINE_CAPTURED_EXACT"
          ∷ codes "ORIGINAL_BASELINE_ALREADY_CAPTURED"
          ∷ codes "ORIGINAL_BASELINE_LEGACY_UNCERTAIN"
          ∷ [])
    then ok tt
    else err no_evidence

abbrev pub status_event : Event
status_event = root_capture (transaction_command (codes "status"))

abbrev pub rollback_event : Event
rollback_event = root_capture (transaction_command (codes "rollback"))

abbrev pub commit_event : Event
commit_event = root_capture (transaction_command (codes "commit"))

abbrev pub Handler : Type 0 → Type 0
Handler A = Exec Event TransactionError A

-- What `switch status["TRANSACTION_STATUS"]` does with a state.
pub data Recovery : Type 0 where
  nothing_to_do clear_snapshot ask_first unsupported : Recovery

unfoldable pub recovery_of : Text → Recovery
unfolding text_eq
recovery_of state =
    if text_eq state (codes "NONE")
    then nothing_to_do
    else if text_eq state (codes "PREPARING")
    then clear_snapshot
    else if text_eq state (codes "ACTIVE")
        || text_eq state (codes "ROLLING_BACK")
        || text_eq state (codes "ROLLBACK_FAILED")
    then ask_first
    else unsupported

-- `remote` is the server's reply to the last command of a log and `confirm`, below, the operator's answer.
module _ (remote : List Event → ProcessResult) where
  unfoldable pub install_transaction_status : Handler Fields
  unfolding perform lift ◌>>=◌
  install_transaction_status = perform status_event remote >>= λ r. lift (status_of r)

  unfoldable pub capture_original_baseline : Exec Event BaselineError (Unit {0})
  unfolding perform lift ◌>>=◌
  capture_original_baseline =
      perform (root_capture baseline_command) remote >>= λ r. lift (baseline_of r)

  unfoldable pub run_rollback : (ProcessResult → Bool) → Handler (Unit {0})
  unfolding perform lift ◌>>=◌
  run_rollback accepted = perform rollback_event remote >>= λ r.
      lift (if accepted r then ok tt else err (rollback_failed r))

  unfoldable pub begin_install_transaction : Handler Text
  unfolding perform lift ◌>>=◌
  begin_install_transaction =
      perform (root_capture (transaction_command (codes "begin"))) remote >>= λ r. lift (began r)

  unfoldable pub rollback_checked : Text → Fields → Handler (Unit {0})
  unfolding pure raise
  rollback_checked id status =
      if text_eq (get status_key status) (codes "NONE")
      then pure tt
      else if not (is_empty id) && not (text_eq (get id_key status) id)
      then raise (other_transaction (get id_key status))
      else run_rollback (is_proven (codes "TNA_INSTALL_TRANSACTION_ROLLED_BACK=1"))

  unfoldable pub rollback_install_transaction : Text → Handler (Unit {0})
  unfolding ◌>>=◌
  rollback_install_transaction id = install_transaction_status >>= rollback_checked id

  unfoldable pub commit_checked : Text → Fields → Handler (Unit {0})
  unfolding perform lift ◌>>=◌ raise
  commit_checked id status =
      if not (text_eq (get status_key status) (codes "ACTIVE"))
        || not (text_eq (get id_key status) id)
      then raise (mismatch (get id_key status) (get status_key status))
      else (perform commit_event remote >>= λ r. lift (
          if is_proven (codes "TNA_INSTALL_TRANSACTION_COMMITTED=1") r
          then ok tt
          else err (commit_failed r)))

  unfoldable pub commit_install_transaction : Text → Handler (Unit {0})
  unfolding ◌>>=◌
  commit_install_transaction id = install_transaction_status >>= commit_checked id

module _ (remote : List Event → ProcessResult) (confirm : List Event → Bool) where
  unfoldable pub recover_by : Recovery → Text → Handler (Unit {0})
  unfolding perform raise pure ◌>>=◌
  recover_by nothing_to_do state = pure tt
  recover_by clear_snapshot state = run_rollback remote is_recovered
  recover_by ask_first state = perform ask confirm >>= λ yes.
      if yes then run_rollback remote is_recovered else raise not_rolled_back
  recover_by unsupported state = raise (unsupported_state state)

  unfoldable pub recover_interrupted_install_transaction : Handler (Unit {0})
  unfolding ◌>>=◌
  recover_interrupted_install_transaction = install_transaction_status remote >>= λ status.
      recover_by (recovery_of (get status_key status)) (get status_key status)
