-- ===== src/Examples/Transactions.antt =====
-- The theorems on the install transaction, on a server with an active one.
use proxy_node_assistant.Effects.{ProcessResult, lift, perform, succeeded, ◌>>=◌}
use proxy_node_assistant.Prelude.{Bool, List, Result, [], false, ok, refl, true, ◌≡◌}
use proxy_node_assistant.Protocol.KeyValue.{parse_kv}
use proxy_node_assistant.Text.{Text, codes, contains, get, has_prefix, pos, text_eq}
use proxy_node_assistant.Transaction.{
  Event, TransactionError, began, begin_install_transaction, commit_install_transaction, is_proven,
  is_transaction_id, recover_interrupted_install_transaction, rollback_install_transaction,
}
use proxy_node_assistant.Transaction.Safety.{
  CommitRun, RollbackRun, commit_install_transaction_lem, rollback_install_transaction_lem,
}

abbrev active_id : Text
active_id = codes "tna-install-20240102T030405Z-0123456789ab"

abbrev answering : Text → ProcessResult
answering stdout = record { stdout = stdout; stderr = []; exit_code = pos 0; failed = false }

abbrev server : List Event → ProcessResult
server log = answering (
    codes
      "TNA_INSTALL_TRANSACTION_STATUS_BEGIN\nTRANSACTION_STATUS=ACTIVE\nTRANSACTION_ID=tna-install-20240102T030405Z-0123456789ab\nTNA_INSTALL_TRANSACTION_STATUS_END\nTNA_INSTALL_TRANSACTION_ROLLED_BACK=1\n")

abbrev beginning : List Event → ProcessResult
beginning log = answering (
    codes
      "TNA_INSTALL_TRANSACTION_BEGAN=1\nTRANSACTION_ID=tna-install-20240102T030405Z-0123456789ab\n")

abbrev agreeing : List Event → Bool
agreeing log = true

commit_install_transaction_lem_example :
    CommitRun server active_id [] (commit_install_transaction server active_id [])
commit_install_transaction_lem_example = commit_install_transaction_lem server active_id []

rollback_install_transaction_lem_example :
    RollbackRun server active_id [] (rollback_install_transaction server active_id [])
rollback_install_transaction_lem_example = rollback_install_transaction_lem server active_id []

abbrev recovery_run : Result TransactionError (Unit {0}) × List Event
recovery_run = recover_interrupted_install_transaction server agreeing []

abbrev begin_run : Result TransactionError Text × List Event
begin_run = begin_install_transaction beginning []

begin_succeeds : begin_run.0 ≡ ok active_id
unfolding begin_install_transaction perform lift ◌>>=◌ began is_proven is_transaction_id succeeded
    contains has_prefix parse_kv get text_eq
begin_succeeds = refl
