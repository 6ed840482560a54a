-- ===== src/Transaction/Evidence.antt =====
-- What the recovery and the beginning of an install transaction have proved when they succeed.
use proxy_node_assistant.Prelude.{◌⊎◌, arith, Bool, List, [], ap, ok, subst, true, ◌++◌, ◌∷◌, ◌≡◌}
use proxy_node_assistant.Text.{Fields, Text, codes, get}
use proxy_node_assistant.Effects.{ProcessResult, lift, perform, ◌>>=◌}
use proxy_node_assistant.Protocol.KeyValue.{parse_kv}
use proxy_node_assistant.Transaction.{
  Event, Recovery, ask, ask_first, began, begin_install_transaction, clear_snapshot, id_key,
  is_proven, is_recovered, is_transaction_id, nothing_to_do, rollback_event, status_event,
  status_key, status_of, unsupported,
}

-- The states of the server that each recovery is for.
abbrev IsStateOf : Recovery → Text → Type 0
IsStateOf nothing_to_do state = state ≡ codes "NONE"
IsStateOf clear_snapshot state = state ≡ codes "PREPARING"
IsStateOf ask_first state =
    (state ≡ codes "ACTIVE") ⊎ (state ≡ codes "ROLLING_BACK") ⊎ (state ≡ codes "ROLLBACK_FAILED")
IsStateOf unsupported state = Unit {0}

-- The commands that recovered the transaction of `status`, after its status was read.
pub data Recovered (remote : List Event → ProcessResult) (confirm : List Event → Bool)
    (log : List Event) (end : List Event) : Type 0 where
  none_pending :
      (status : Fields)
      → status_of (remote (log ++ status_event ∷ [])) ≡ ok status
      → get status_key status ≡ codes "NONE"
      → end ≡ log ++ status_event ∷ []
      → Recovered remote confirm log end
  snapshot_cleared :
      (status : Fields)
      → status_of (remote (log ++ status_event ∷ [])) ≡ ok status
      → get status_key status ≡ codes "PREPARING"
      → end ≡ (log ++ status_event ∷ []) ++ rollback_event ∷ []
      → is_recovered (remote end) ≡ true
      → Recovered remote confirm log end
  restored :
      (status : Fields)
      → status_of (remote (log ++ status_event ∷ [])) ≡ ok status
      → (get status_key status ≡ codes "ACTIVE")
        ⊎ (get status_key status ≡ codes "ROLLING_BACK")
        ⊎ (get status_key status ≡ codes "ROLLBACK_FAILED")
      → confirm ((log ++ status_event ∷ []) ++ ask ∷ []) ≡ true
      → end ≡ ((log ++ status_event ∷ []) ++ ask ∷ []) ++ rollback_event ∷ []
      → is_recovered (remote end) ≡ true
      → Recovered remote confirm log end

began-eq-ok :
    (r : ProcessResult) {id : Text}
    → began r ≡ ok id
    → (is_transaction_id id ≡ true)
      × (get id_key (parse_kv r.stdout) ≡ id)
      × (is_proven (codes "TNA_INSTALL_TRANSACTION_BEGAN=1") r ≡ true)
unfolding began
began-eq-ok r h = ground arith

module _ (remote : List Event → ProcessResult) where
  -- A transaction that was begun has an id of the agreed form, and it is the one in the server's reply.
  pub begin_install_transaction-eq-ok :
      (log : List Event) {end : List Event} {id : Text}
      → begin_install_transaction remote log ≡ (ok id, end)
      → (is_transaction_id id ≡ true)
        × (get id_key (parse_kv (remote end).stdout) ≡ id)
        × (is_proven (codes "TNA_INSTALL_TRANSACTION_BEGAN=1") (remote end) ≡ true)
  unfolding begin_install_transaction perform lift ◌>>=◌
  begin_install_transaction-eq-ok log {end} {id} h =
      let logged = ap (λ p. p.1) h in
      subst
        (λ l.
          (is_transaction_id id ≡ true)
          × (get id_key (parse_kv (remote l).stdout) ≡ id)
          × (is_proven (codes "TNA_INSTALL_TRANSACTION_BEGAN=1") (remote l) ≡ true))
        logged (began-eq-ok _ (ap (λ p. p.0) h))
