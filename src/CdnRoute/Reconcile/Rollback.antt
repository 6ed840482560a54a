-- ===== src/CdnRoute/Reconcile/Rollback.antt =====
-- How reconcileCDNRoute of cdn_reset.go leaves the server when it fails after staging.
use proxy_node_assistant.Prelude.{
  arith, ◌&&◌, inl, inr, ◌⊎◌, Bool, List, Result, [], ap, err, false, if◌then◌else◌, not,
  not-eq-false, ok, ok-ne-err, or-eq-false, refl, subst, sym, true, ◌++◌, ◌||◌, ◌∷◌, ◌≡◌,
}
use proxy_node_assistant.CdnRoute.Reconcile.{
  root_command, Parsers, copy_and_stage, input_failed, remove_event, stage, stage_failed, staged,
  then_always, validate_and_finalize, RouteEvent, RouteHandler, judged, pending_rollback_event,
  settle, RouteError, World, and_rollback_failed, cdn_process_has_marker, or_rollback, rollback,
  rolled_back_marker, stage_event,
}
use proxy_node_assistant.Effects.{◌>>=◌, continue, perform, raise, ProcessResult, succeeded}
use proxy_node_assistant.Plan.Types.{RouteMode}
use proxy_node_assistant.Text.{Text}

-- How a failed change was settled: the staging helper reports that it restored the state itself, or
-- the last command is a rollback, whose reply proves that it was done, or does not and the error says
-- that it failed.
pub data IsSettled (world : World) (log : List RouteEvent) (input : Text) (e : RouteError)
    (end : List RouteEvent) : Type 0 where
  by_helper :
      end ≡ log ++ stage_event input ∷ []
      → cdn_process_has_marker rolled_back_marker (world.remote end) ≡ true
      → IsSettled world log input e end
  by_rollback :
      (mid : List RouteEvent)
      → end ≡ mid ++ pending_rollback_event ∷ []
      → succeeded (world.remote end) ≡ true
      → cdn_process_has_marker rolled_back_marker (world.remote end) ≡ true
      → IsSettled world log input e end
  reported :
      (mid : List RouteEvent) (cause : RouteError)
      → end ≡ mid ++ pending_rollback_event ∷ []
      → (succeeded (world.remote end)
          && cdn_process_has_marker rolled_back_marker (world.remote end))
        ≡ false
      → e ≡ and_rollback_failed cause (world.remote end)
      → IsSettled world log input e end

unproved : (a b : Bool) → (not a || not b) ≡ true → (a && b) ≡ false
unproved true b h = ground arith
unproved false b h = refl

abbrev Outcome : Type 0
Outcome = Result RouteError (Unit {0}) × List RouteEvent

err-injective : {a b : RouteError} → ◌≡◌ {A = Result RouteError (Unit {0})} (err a) (err b) → a ≡ b
err-injective h = cc

error_of :
    {a b : RouteError} {end : List RouteEvent} {log : List RouteEvent}
    → ◌≡◌ {A = Outcome} (err a, log) (err b, end)
    → a ≡ b
error_of h = err-injective (ap (λ (p : Outcome). p.0) h)

log_of :
    {a b : Result RouteError (Unit {0})} {end : List RouteEvent} {log : List RouteEvent}
    → ◌≡◌ {A = Outcome} (a, log) (b, end)
    → log ≡ end
log_of h = ap (λ (p : Outcome). p.1) h

module _ (world : World) (parsers : Parsers) (log : List RouteEvent) (input : Text) where
  rollback-IsSettled :
      (cause : RouteError) (mid : List RouteEvent) {e : RouteError} {end : List RouteEvent}
      → rollback world parsers cause mid ≡ (err e, end)
      → IsSettled world log input e end
  unfolding rollback judged
  rollback-IsSettled cause mid {e} {end} h =
      let logged = log_of h in subst (IsSettled world log input e) logged (go _ refl (error_of h))
    where
      last : ProcessResult
      last = world.remote (mid ++ pending_rollback_event ∷ [])

      go :
          (failed : Bool)
          → (not (succeeded last) || not (cdn_process_has_marker rolled_back_marker last)) ≡ failed
          → (if failed then and_rollback_failed cause last else cause) ≡ e
          → IsSettled world log input e (mid ++ pending_rollback_event ∷ [])
      go true f k = reported mid cause refl (unproved _ _ f) (sym k)
      go false f k =
          let both = or-eq-false _ _ f in
          by_rollback mid refl (not-eq-false both.0) (not-eq-false both.1)

  or_rollback-IsSettled :
      (m : RouteHandler (Unit {0})) (mid : List RouteEvent) {e : RouteError} {end : List RouteEvent}
      → or_rollback world parsers m mid ≡ (err e, end)
      → IsSettled world log input e end
  unfolding or_rollback
  or_rollback-IsSettled m mid {e} {end} h = go (m mid).0 h
    where
      go :
          (r : Result RouteError (Unit {0}))
          → settle world parsers r (m mid).1 ≡ (err e, end)
          → IsSettled world log input e end
      go (ok u) k = elim (ok-ne-err (ap (λ (p : Outcome). p.0) k)) [ ]
      go (err cause) k = rollback-IsSettled cause _ k

  stage-IsSettled :
      (domain public_ip : Text) (mode : RouteMode) {e : RouteError} {end : List RouteEvent}
      → stage world parsers domain public_ip mode input log ≡ (err e, end)
      → IsSettled world log input e end
  unfolding stage perform raise ◌>>=◌
  stage-IsSettled domain public_ip mode {e} {end} h = go (staged reply) h
    where
      reply : ProcessResult
      reply = world.remote (log ++ stage_event input ∷ [])

      unstaged :
          (by_helper_ : Bool)
          → cdn_process_has_marker rolled_back_marker reply ≡ by_helper_
          → (if by_helper_
                then raise (stage_failed reply)
                else rollback world parsers (stage_failed reply))
              (log ++ stage_event input ∷ [])
            ≡ (err e, end)
          → IsSettled world log input e end
      unstaged true m k =
          let logged = log_of k in
          by_helper (sym logged) (
            subst (λ l. cdn_process_has_marker rolled_back_marker (world.remote l) ≡ true) logged m)
      unstaged false m k = rollback-IsSettled _ _ k

      go :
          (done : Bool)
          → (if done
                then or_rollback world parsers
                    (validate_and_finalize world parsers domain public_ip mode)
                else if cdn_process_has_marker rolled_back_marker reply
                then raise (stage_failed reply)
                else rollback world parsers (stage_failed reply))
              (log ++ stage_event input ∷ [])
            ≡ (err e, end)
          → IsSettled world log input e end
      go true k = or_rollback-IsSettled _ _ k
      go false k = unstaged _ refl k

-- When the change fails, either the copy of the input was the only command and it failed, or the copy
-- succeeded, the last command removes the input, and before that the change was settled: restored by
-- the helper, rolled back with proof, or reported as a failed rollback.
pub copy_and_stage-IsSettled :
    (world : World) (parsers : Parsers) (domain public_ip : Text) (mode : RouteMode)
    (input command : Text) (log : List RouteEvent) {e : RouteError} {end : List RouteEvent}
    → copy_and_stage world parsers domain public_ip mode input command log ≡ (err e, end)
    → ((end ≡ log ++ root_command command ∷ []) × (succeeded (world.remote end) ≡ false))
      ⊎ ((succeeded (world.remote (log ++ root_command command ∷ [])) ≡ true)
          × (mid : List RouteEvent) × (end ≡ mid ++ remove_event input ∷ [])
          × IsSettled world (log ++ root_command command ∷ []) input e mid)
unfolding copy_and_stage judged then_always ◌>>=◌
copy_and_stage-IsSettled world parsers domain public_ip mode input command log {e} {end} h =
    go (succeeded (world.remote (log ++ root_command command ∷ []))) refl h
  where
    copied : List RouteEvent
    copied = log ++ root_command command ∷ []

    go :
        (done : Bool)
        → succeeded (world.remote copied) ≡ done
        → continue
            (if done then ok tt else err (input_failed (world.remote copied)))
            (λ (_ : Unit {0}).
              then_always world parsers
                (remove_event input)
                (stage world parsers domain public_ip mode input))
            copied
          ≡ (err e, end)
        → ((end ≡ copied) × (succeeded (world.remote end) ≡ false))
          ⊎ ((succeeded (world.remote copied) ≡ true)
              × (mid : List RouteEvent) × (end ≡ mid ++ remove_event input ∷ [])
              × IsSettled world copied input e mid)
    go true done k = inr (
      done,
      _,
      sym (log_of k),
      stage-IsSettled world parsers copied input domain public_ip mode (λ i. (
        ap (λ (p : Outcome). p.0) k i,
        (stage world parsers domain public_ip mode input copied).1,
      )),
    )
    go false declined k =
        let logged = log_of k in
        inl (sym logged, subst (λ l. succeeded (world.remote l) ≡ false) logged declined)
