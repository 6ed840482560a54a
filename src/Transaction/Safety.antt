-- ===== src/Transaction/Safety.antt =====
-- When the handlers of install_transaction.go send a command that changes the server.
use proxy_node_assistant.Effects.{pure, ◌>>=◌, ProcessResult, continue, lift, perform, raise}
use proxy_node_assistant.Prelude.{
  Bool, if◌then◌else◌, is_empty, not, not-eq-false, ok-ne-err, or-eq-false, sym, ◌&&◌, ◌||◌, List,
  Result, [], err, false, inl, inr, ok, refl, true, ◌++◌, ◌↔◌, ◌∷◌, ◌≡◌, ◌⊎◌,
}
use proxy_node_assistant.Text.{text_eq_iff, Fields, Text, codes, get, text_eq}
use proxy_node_assistant.Transaction.{
  commit_failed, commit_install_transaction, install_transaction_status, mismatch,
  other_transaction, rollback_checked, rollback_install_transaction, run_rollback, Event,
  TransactionError, commit_checked, commit_event, id_key, is_proven, rollback_event, status_event,
  status_key, status_of,
}

-- The log of a handler that reads the transaction's status first.
abbrev after_status : List Event → List Event
after_status log = log ++ status_event ∷ []

abbrev result_of : {A : Type 0} → Result TransactionError A × List Event → Result TransactionError A
result_of run = run.0

abbrev log_of : {A : Type 0} → Result TransactionError A × List Event → List Event
log_of run = run.1

if-ok_iff :
    {E : Type 0} (b : Bool) (e : E)
    → (◌≡◌ {A = Result E (Unit {0})} (if b then ok tt else err e) (ok tt)) ↔ (b ≡ true)
if-ok_iff true e = (λ _. refl, λ _. refl)
if-ok_iff false e = (λ h. elim (ok-ne-err (sym h)) [ ], λ h. cc)

same_or_empty :
    (id remote_id : Text)
    → (not (is_empty id) && not (text_eq remote_id id)) ≡ false
    → (id ≡ []) ⊎ (remote_id ≡ id)
same_or_empty [] r h = inl refl
same_or_empty (c ∷ cs) r h = inr ((text_eq_iff _ _).0 (not-eq-false h))

module _ (remote : List Event → ProcessResult) where
  -- The commit was sent for the active transaction of this id, or it was not sent and there is an error.
  pub data CommitRun (id : Text) (log : List Event)
      (run : Result TransactionError (Unit {0}) × List Event) : Type 0 where
    withheld : (e : TransactionError) → run ≡ (err e, after_status log) → CommitRun id log run
    sent :
        (status : Fields)
        → status_of (remote (after_status log)) ≡ ok status
        → get status_key status ≡ codes "ACTIVE"
        → get id_key status ≡ id
        → log_of run ≡ after_status log ++ commit_event ∷ []
        → (result_of run ≡ ok tt)
          ↔ (is_proven (codes "TNA_INSTALL_TRANSACTION_COMMITTED=1") (remote (log_of run)) ≡ true)
        → CommitRun id log run

  -- The rollback was sent for the transaction of this id (or of any, for the empty id).
  pub data RollbackRun (id : Text) (log : List Event)
      (run : Result TransactionError (Unit {0}) × List Event) : Type 0 where
    refused : (e : TransactionError) → run ≡ (err e, after_status log) → RollbackRun id log run
    not_needed :
        (status : Fields)
        → status_of (remote (after_status log)) ≡ ok status
        → get status_key status ≡ codes "NONE"
        → run ≡ (ok tt, after_status log)
        → RollbackRun id log run
    rolled_back :
        (status : Fields)
        → status_of (remote (after_status log)) ≡ ok status
        → (id ≡ []) ⊎ (get id_key status ≡ id)
        → log_of run ≡ after_status log ++ rollback_event ∷ []
        → (result_of run ≡ ok tt)
          ↔ (is_proven (codes "TNA_INSTALL_TRANSACTION_ROLLED_BACK=1") (remote (log_of run)) ≡ true)
        → RollbackRun id log run

  commit_proof :
      (id : Text) (log : List Event) (r : Result TransactionError Fields)
      → status_of (remote (after_status log)) ≡ r
      → CommitRun id log (continue r (commit_checked remote id) (after_status log))
  unfolding commit_checked perform lift ◌>>=◌ raise
  commit_proof id log (err e) q = withheld e refl
  commit_proof id log (ok status) q =
      go
        (not (text_eq (get status_key status) (codes "ACTIVE"))
          || not (text_eq (get id_key status) id))
        refl
    where
      committed : ProcessResult → Bool
      committed = is_proven (codes "TNA_INSTALL_TRANSACTION_COMMITTED=1")

      go :
          (bad : Bool)
          → (not (text_eq (get status_key status) (codes "ACTIVE"))
              || not (text_eq (get id_key status) id))
            ≡ bad
          → CommitRun id log (
              (if bad
                  then raise (mismatch (get id_key status) (get status_key status))
                  else (perform commit_event remote >>= λ r.
                      lift (if committed r then ok tt else err (commit_failed r))))
                (after_status log))
      go true h = withheld _ refl
      go false h =
          let both = or-eq-false _ _ h in
          sent status q ((text_eq_iff _ _).0 (not-eq-false both.0))
            ((text_eq_iff _ _).0 (not-eq-false both.1)) refl (if-ok_iff _ _)

  -- Whatever the server answers, committing sends the commit command only after a status reply that
  -- names this transaction as active, and then it succeeds exactly when the reply proves the commit;
  -- otherwise it sends nothing more and returns an error.
  pub commit_install_transaction_lem :
      (id : Text) (log : List Event) → CommitRun id log (commit_install_transaction remote id log)
  unfolding commit_install_transaction install_transaction_status perform lift ◌>>=◌
  commit_install_transaction_lem id log =
      commit_proof id log (status_of (remote (after_status log))) refl

  rollback_proof :
      (id : Text) (log : List Event) (r : Result TransactionError Fields)
      → status_of (remote (after_status log)) ≡ r
      → RollbackRun id log (continue r (rollback_checked remote id) (after_status log))
  unfolding rollback_checked raise pure run_rollback perform lift ◌>>=◌
  rollback_proof id log (err e) q = refused e refl
  rollback_proof id log (ok status) q = go (text_eq (get status_key status) (codes "NONE")) refl
    where
      proven : ProcessResult → Bool
      proven = is_proven (codes "TNA_INSTALL_TRANSACTION_ROLLED_BACK=1")

      unless :
          (other : Bool)
          → (not (is_empty id) && not (text_eq (get id_key status) id)) ≡ other
          → RollbackRun id log (
              (if other
                  then raise (other_transaction (get id_key status))
                  else run_rollback remote proven)
                (after_status log))
      unless true h = refused _ refl
      unless false h =
          rolled_back status q (same_or_empty id (get id_key status) h) refl (if-ok_iff _ _)

      go :
          (absent : Bool)
          → text_eq (get status_key status) (codes "NONE") ≡ absent
          → RollbackRun id log (
              (if absent
                  then pure tt
                  else if not (is_empty id) && not (text_eq (get id_key status) id)
                  then raise (other_transaction (get id_key status))
                  else run_rollback remote proven)
                (after_status log))
      go true h = not_needed status q ((text_eq_iff _ _).0 h) refl
      go false h = unless _ refl

  -- Whatever the server answers, rolling back sends the rollback command only when the status reply
  -- names the given transaction, or when the caller gives no id, and then it succeeds exactly when
  -- the reply proves the rollback; it succeeds without a rollback only if the reply says that there
  -- is no transaction.
  pub rollback_install_transaction_lem :
      (id : Text) (log : List Event)
      → RollbackRun id log (rollback_install_transaction remote id log)
  unfolding rollback_install_transaction install_transaction_status perform lift ◌>>=◌
  rollback_install_transaction_lem id log =
      rollback_proof id log (status_of (remote (after_status log))) refl
