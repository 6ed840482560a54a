-- ===== src/CdnRoute/Reconcile/Validation.antt =====
-- What the validation of a staged route in cdn_reset.go has checked when it succeeds.
use proxy_node_assistant.CdnRoute.Reconcile.{
  RouteHandler, cdn_process_has_marker, copy_and_stage, input_failed, or_rollback, remove_event,
  rollback, rolled_back_marker, root_command, settle, stage, stage_event, stage_failed, staged,
  then_always, confirm_failed, confirmed, origin_reachable, proof_refused, Parsers, RouteError,
  RouteEvent, World, check_origin, client_proof, confirm_client, confirm_event, dial, edge_answer,
  edge_url, export_event, export_link, exported, finalize, finalize_event, finalized, http_get,
  judged, prove_link, require, validate_and_finalize,
}
use proxy_node_assistant.Effects.{ProcessResult, perform, raise, succeeded, ◌>>=◌}
use proxy_node_assistant.Prelude.{
  Bool-cases, err, if◌then◌else◌, inl, inr, ok-ne-err, ◌∙◌, arith, not, Bool, List, Result, [], ap,
  false, ok, refl, subst, sym, true, ◌++◌, ◌∷◌, ◌≡◌,
}
use proxy_node_assistant.Plan.Types.{RouteMode}
use proxy_node_assistant.Text.{Text}
use proxy_node_assistant.Effects.Rules.{>>=-eq-ok}

pub judged-eq-ok :
    {A B : Type 0} (event : RouteEvent) (answer : List RouteEvent → A)
    (check : A → Result RouteError B) (log : List RouteEvent) {end : List RouteEvent} {b : B}
    → judged event answer check log ≡ (ok b, end)
    → (end ≡ log ++ event ∷ []) × (check (answer end) ≡ ok b)
unfolding judged
judged-eq-ok {B = B} event answer check log {b = b} h =
    let logged = ap (λ (p : Result RouteError B × List RouteEvent). p.1) h in
    (
      sym logged,
      subst (λ l. check (answer l) ≡ ok b) logged
          (ap (λ (p : Result RouteError B × List RouteEvent). p.0) h),
    )

not-eq-true : {b : Bool} → not b ≡ true → b ≡ false
not-eq-true h = ground arith

require-eq-ok : (b : Bool) (e : RouteError) {u : Unit {0}} → require b e ≡ ok u → b ≡ true
require-eq-ok true e h = refl
require-eq-ok false e h = cc

-- A log with one more event.
infixl 5 ◌▸◌
abbrev pub ◌▸◌ : List RouteEvent → RouteEvent → List RouteEvent
log ▸ event = log ++ event ∷ []

-- The checks that a change for `domain` passed from `log` to `end`, with the log at which each was made.
pub record IsValidated (world : World) (parsers : Parsers) (domain public_ip : Text)
    (mode : RouteMode) (log end : List RouteEvent) : Type 0 where
  pub link : Text
  pub edge_ok : edge_answer domain (world.response (log ▸ http_get (edge_url domain))) ≡ ok tt
  pub origin_locked : world.dialed (log ▸ http_get (edge_url domain) ▸ dial public_ip) ≡ false
  pub link_ok :
      exported parsers.parse_url domain
        (world.remote (log ▸ http_get (edge_url domain) ▸ dial public_ip ▸ export_event domain))
      ≡ ok link
  pub proof_given :
      world.proved (
        log ▸ http_get (edge_url domain) ▸ dial public_ip ▸ export_event domain ▸ client_proof link)
      ≡ true
  pub client_confirmed :
      confirmed (
        world.remote (
          log
          ▸ http_get (edge_url domain)
          ▸ dial public_ip
          ▸ export_event domain
          ▸ client_proof link
          ▸ confirm_event domain))
      ≡ true
  pub events : end ≡ (
      log
      ▸ http_get (edge_url domain)
      ▸ dial public_ip
      ▸ export_event domain
      ▸ client_proof link
      ▸ confirm_event domain
      ▸ finalize_event)
  pub finalize_ok : finalized mode (world.remote end) ≡ true

module _ (world : World) (parsers : Parsers) (domain public_ip : Text) (mode : RouteMode) where
  validate_and_finalize-IsValidated :
      (log : List RouteEvent) {end : List RouteEvent} {u : Unit {0}}
      → validate_and_finalize world parsers domain public_ip mode log ≡ (ok u, end)
      → IsValidated world parsers domain public_ip mode log end
  unfolding validate_and_finalize check_origin export_link prove_link confirm_client finalize
  validate_and_finalize-IsValidated log {end} {u} h =
      let (_, l1, edge, h1) =
        >>=-eq-ok (judged (http_get (edge_url domain)) world.response (edge_answer domain))
          (λ _. check_origin world parsers domain public_ip mode) h in
      let (_, l2, origin, h2) =
        >>=-eq-ok
          (judged (dial public_ip) world.dialed (λ open_. require (not open_) origin_reachable))
          (λ _. export_link world parsers domain mode) h1 in
      let (link, l3, export_, h3) =
        >>=-eq-ok (judged (export_event domain) world.remote (exported parsers.parse_url domain))
          (prove_link world parsers domain mode) h2 in
      let (_, l4, proof, h4) =
        >>=-eq-ok (judged (client_proof link) world.proved (λ yes. require yes proof_refused))
          (λ _. confirm_client world parsers domain mode) h3 in
      let (_, l5, confirm, h5) =
        >>=-eq-ok
          (judged (confirm_event domain) world.remote
            (λ r. require (confirmed r) (confirm_failed r)))
          (λ _. finalize world parsers mode) h4 in
      let (q1, c1) = judged-eq-ok _ _ _ _ edge in
      let (q2, c2) = judged-eq-ok _ _ _ _ origin in
      let (q3, c3) = judged-eq-ok _ _ _ _ export_ in
      let (q4, c4) = judged-eq-ok _ _ _ _ proof in
      let (q5, c5) = judged-eq-ok _ _ _ _ confirm in
      let (q6, c6) = judged-eq-ok _ _ _ _ h5 in
      let locked = not-eq-true (require-eq-ok _ _ c2) in
      let proved = require-eq-ok _ _ c4 in
      let confirmed_ = require-eq-ok _ _ c5 in
      let finalized_ = require-eq-ok _ _ c6 in
      record {
        link = link;
        edge_ok = cc;
        origin_locked = cc;
        link_ok = cc;
        proof_given = cc;
        client_confirmed = cc;
        events = cc;
        finalize_ok = finalized_;
      }

  stage-IsValidated :
      (input : Text) (log : List RouteEvent) {end : List RouteEvent} {u : Unit {0}}
      → stage world parsers domain public_ip mode input log ≡ (ok u, end)
      → (staged (world.remote (log ▸ stage_event input)) ≡ true)
        × IsValidated world parsers domain public_ip mode (log ▸ stage_event input) end
  unfolding stage perform raise or_rollback rollback judged ◌>>=◌
  stage-IsValidated input log {end} {u} h = go _ refl h
    where
      reply : ProcessResult
      reply = world.remote (log ▸ stage_event input)

      body : RouteHandler (Unit {0})
      body = validate_and_finalize world parsers domain public_ip mode

      settled :
          (r : Result RouteError (Unit {0})) (mid : List RouteEvent)
          → body (log ▸ stage_event input) ≡ (r, mid)
          → settle world parsers r mid ≡ (ok u, end)
          → IsValidated world parsers domain public_ip mode (log ▸ stage_event input) end
      settled (ok v) mid q k = validate_and_finalize-IsValidated _ (q ∙ k)
      settled (err e) mid q k = elim (ok-ne-err (sym (ap (λ p. p.0) k))) [ ]

      go :
          (done : Bool)
          → staged reply ≡ done
          → (if done
                then or_rollback world parsers body
                else if cdn_process_has_marker rolled_back_marker reply
                then raise (stage_failed reply)
                else rollback world parsers (stage_failed reply))
              (log ▸ stage_event input)
            ≡ (ok u, end)
          → (staged reply ≡ true)
            × IsValidated world parsers domain public_ip mode (log ▸ stage_event input) end
      go true q k = (q, settled _ _ refl k)
      go false q k = elim (Bool-cases (cdn_process_has_marker rolled_back_marker reply)) [
        | inl m ↦ elim (ok-ne-err (sym (ap (λ p. p.0) (rw m at k)))) [ ]
        | inr m ↦ elim (ok-ne-err (sym (ap (λ p. p.0) (rw m at k)))) [ ]
      ]

  pub copy_and_stage-IsValidated :
      (input command : Text) (log : List RouteEvent) {end : List RouteEvent} {u : Unit {0}}
      → copy_and_stage world parsers domain public_ip mode input command log ≡ (ok u, end)
      → (mid : List RouteEvent) × (end ≡ mid ▸ remove_event input)
        × (succeeded (world.remote (log ▸ root_command command)) ≡ true)
        × (staged (world.remote (log ▸ root_command command ▸ stage_event input)) ≡ true)
        × IsValidated world parsers domain public_ip mode
            (log ▸ root_command command ▸ stage_event input)
            mid
  unfolding copy_and_stage then_always
  copy_and_stage-IsValidated input command log {end} {u} h =
      let (_, l1, copied, h1) =
        >>=-eq-ok
          (judged (root_command command) world.remote (λ r. require (succeeded r) (input_failed r)))
          (λ _.
            then_always world parsers (remove_event input)
              (stage world parsers domain public_ip mode input))
          h in
      let (q1, c1) = judged-eq-ok _ _ _ _ copied in
      let mid = (stage world parsers domain public_ip mode input l1).1 in
      let done = stage-IsValidated input l1 {end = mid} (λ i. ((h1 i).0, mid)) in
      let moved =
        subst
          (λ l.
            (staged (world.remote (l ▸ stage_event input)) ≡ true)
            × IsValidated world parsers domain public_ip mode (l ▸ stage_event input) mid)
          q1 done in
      (
        mid,
        sym (ap (λ p. p.1) h1),
        subst (λ l. succeeded (world.remote l) ≡ true) q1 (require-eq-ok _ _ c1),
        moved.0,
        moved.1,
      )
