-- ===== src/CdnRoute/Reconcile/Failure.antt =====
-- What reconcileCDNRoute of cdn_reset.go has done on the server when it fails.
use proxy_node_assistant.Effects.{succeeded, continue, lift, pure, ◌>>=◌}
use proxy_node_assistant.Prelude.{
  wrap-eq-ok, Bool, List, Result, [], all, all-append, ap, err, false, if◌then◌else◌, inl, inr, not,
  ok, refl, subst, true, wrap, ◌++◌, ◌||◌, ◌∷◌, ◌≡◌, ◌⊎◌,
}
use proxy_node_assistant.CdnRoute.Command.{
  build_cdn_route_input_copy_command, cdn_route_action, random_cdn_route_input_path,
}
use proxy_node_assistant.CdnRoute.Reconcile.{
  Parsers, RouteError, RouteEvent, RouteHandler, World, action_refused, change_route,
  copy_and_stage, invalid_plan, ip_answer, judged, lookup_ip, origin_of, path_refused,
  prepare_cdn_prerequisites, random_bytes, reconcile_by, reconcile_cdn_route, remote_public_ip,
  remove_event, resolved, root_command,
}
use proxy_node_assistant.CdnRoute.Reconcile.Rollback.{IsSettled, copy_and_stage-IsSettled}
use proxy_node_assistant.Plan.Types.{InstallPlan, RouteMode}
use proxy_node_assistant.Plan.Validate.{is_dual, is_gray, is_keep, is_orange, validate_for}
use proxy_node_assistant.Text.{Text}

abbrev is_command : RouteEvent → Bool
is_command (root_command _) = true
is_command _ = false

-- No command was sent to the server but the one with which remotePublicIP of operations.go reads its
-- address, which is an event of its own.
abbrev pub only_reads : List RouteEvent → Bool
only_reads log = all (λ event. not (is_command event)) log

-- The failure of a change from the log `start` on, where the server's address was read at most: what
-- became of the command that copies the input of this plan.
pub record IsLateFailure (world : World) (parsers : Parsers) (plan : InstallPlan) (source : Text)
    (e : RouteError) (end : List RouteEvent) : Type 0 where
  pub input : Text
  pub public_ip : Text
  pub command : Text
  pub start : List RouteEvent
  pub unchanged : only_reads start ≡ true
  pub built :
      build_cdn_route_input_copy_command parsers.parse_ipv4 source input plan.preferences.route_mode
        public_ip
      ≡ ok command
  pub outcome :
      ((end ≡ start ++ root_command command ∷ []) × (succeeded (world.remote end) ≡ false))
      ⊎ ((succeeded (world.remote (start ++ root_command command ∷ [])) ≡ true)
          × (mid : List RouteEvent) × (end ≡ mid ++ remove_event input ∷ [])
          × IsSettled world (start ++ root_command command ∷ []) input e mid)

abbrev pub IsSafeFailure :
    World → Parsers → InstallPlan → Text → RouteError → List RouteEvent → Type 0
IsSafeFailure world parsers plan source e end =
    (only_reads end ≡ true) ⊎ IsLateFailure world parsers plan source e end

-- A handler that sends no other command than that which reads the address.
abbrev IsSilent : {A : Type 0} → RouteHandler A → Type 0
IsSilent m = (log : List RouteEvent) → only_reads log ≡ true → only_reads (m log).1 ≡ true

lift-IsSilent : {A : Type 0} (r : Result RouteError A) → IsSilent (lift r)
unfolding lift
lift-IsSilent r log h = h

judged-IsSilent :
    {A B : Type 0} (event : RouteEvent) (answer : List RouteEvent → A)
    (check : A → Result RouteError B)
    → is_command event ≡ false
    → IsSilent (judged event answer check)
unfolding judged
judged-IsSilent event answer check h log q =
    rw (all-append (λ event. not (is_command event)) log (event ∷ []), q, h) refl

>>=-IsSilent :
    {A B : Type 0} (m : RouteHandler A) (f : A → RouteHandler B)
    → IsSilent m
    → ((a : A) → IsSilent (f a))
    → IsSilent (m >>= f)
unfolding ◌>>=◌
>>=-IsSilent {A} m f first later log q = go (m log).0 (first log q)
  where
    go :
        (r : Result RouteError A)
        → only_reads (m log).1 ≡ true
        → only_reads (continue r f (m log).1).1 ≡ true
    go (ok a) k = later a _ k
    go (err e) k = k

-- A failure of `m >>= f`, where `m` is such a handler.
after_silent :
    {A B : Type 0} (m : RouteHandler A) (f : A → RouteHandler B) (P : List RouteEvent → Type 0)
    (log : List RouteEvent) {e : RouteError} {end : List RouteEvent}
    → IsSilent m
    → only_reads log ≡ true
    → ((a : A) (mid : List RouteEvent)
        → only_reads mid ≡ true
        → f a mid ≡ (err e, end)
        → (only_reads end ≡ true) ⊎ P end)
    → (m >>= f) log ≡ (err e, end)
    → (only_reads end ≡ true) ⊎ P end
unfolding ◌>>=◌
after_silent {A} m f P log {e} {end} silent q later h = go (m log).0 h
  where
    go :
        (r : Result RouteError A)
        → continue r f (m log).1 ≡ (err e, end)
        → (only_reads end ≡ true) ⊎ P end
    go (ok a) k = later a _ (silent log q) k
    go (err x) k = inl (subst (λ l. only_reads l ≡ true) (ap (λ p. p.1) k) (silent log q))

-- A failure after a check, which leaves its result to the later steps.
after_check :
    {A B : Type 0} (r : Result RouteError A) (f : A → RouteHandler B) (P : List RouteEvent → Type 0)
    (log : List RouteEvent) {e : RouteError} {end : List RouteEvent}
    → only_reads log ≡ true
    → ((a : A) → r ≡ ok a → f a log ≡ (err e, end) → (only_reads end ≡ true) ⊎ P end)
    → (lift r >>= f) log ≡ (err e, end)
    → (only_reads end ≡ true) ⊎ P end
unfolding ◌>>=◌ lift
after_check (ok a) f P log q later h = later a refl h
after_check (err x) f P log q later h = inl (subst (λ l. only_reads l ≡ true) (ap (λ p. p.1) h) q)

module _ (world : World) (parsers : Parsers) (plan : InstallPlan) (source : Text) where
  prepare_cdn_prerequisites-IsSilent :
      (public_ip : Text) → IsSilent (prepare_cdn_prerequisites world parsers plan public_ip)
  unfolding prepare_cdn_prerequisites pure
  prepare_cdn_prerequisites-IsSilent public_ip =
      go (is_keep plan.preferences.route_mode || is_gray plan.preferences.route_mode)
    where
      rest : RouteHandler (Unit {0})
      rest = lift (wrap invalid_plan (validate_for parsers.parse_address plan true)) >>= λ _.
          lift (origin_of parsers.parse_ipv4 public_ip) >>= λ origin.
          judged (lookup_ip plan.orange.domain) world.addresses (resolved plan.orange.domain origin)

      go : (b : Bool) → IsSilent (if b then pure tt else rest)
      go true log q = q
      go false log q =
          >>=-IsSilent (lift (wrap invalid_plan (validate_for parsers.parse_address plan true)))
            (λ _. lift (origin_of parsers.parse_ipv4 public_ip) >>= λ origin.
              judged (lookup_ip plan.orange.domain) world.addresses
                (resolved plan.orange.domain origin))
            (lift-IsSilent (wrap invalid_plan (validate_for parsers.parse_address plan true)))
            (λ _.
              >>=-IsSilent (lift (origin_of parsers.parse_ipv4 public_ip))
                (λ origin.
                  judged (lookup_ip plan.orange.domain) world.addresses
                    (resolved plan.orange.domain origin))
                (lift-IsSilent (origin_of parsers.parse_ipv4 public_ip))
                (λ origin.
                  judged-IsSilent (lookup_ip plan.orange.domain) world.addresses
                    (resolved plan.orange.domain origin) refl))
            log q

  change_route-IsSafeFailure :
      (public_ip : Text) (log : List RouteEvent) {e : RouteError} {end : List RouteEvent}
      → only_reads log ≡ true
      → change_route world parsers plan source public_ip log ≡ (err e, end)
      → IsSafeFailure world parsers plan source e end
  unfolding change_route
  change_route-IsSafeFailure public_ip log {e} {end} q h =
      after_silent (prepare_cdn_prerequisites world parsers plan public_ip) (λ _. after_prepare)
        (IsLateFailure world parsers plan source e) log
        (prepare_cdn_prerequisites-IsSilent public_ip) q
        (λ _ l1 q1 k1.
          after_silent random after_random (IsLateFailure world parsers plan source e) l1
            (judged-IsSilent _ _ _ refl) q1
            (λ input l2 q2 k2.
              after_check
                (wrap path_refused (
                  build_cdn_route_input_copy_command parsers.parse_ipv4 source input
                    plan.preferences.route_mode public_ip))
                (copying input) (IsLateFailure world parsers plan source e) l2 q2
                (λ command built_ k3. inr (record {
                  input = input;
                  public_ip = public_ip;
                  command = command;
                  start = l2;
                  unchanged = q2;
                  built = wrap-eq-ok path_refused _ built_;
                  outcome =
                      copy_and_stage-IsSettled world parsers plan.orange.domain public_ip
                        plan.preferences.route_mode input command l2 k3;
                }))
                k2)
            k1)
        h
    where
      random : RouteHandler Text
      random =
          judged random_bytes world.random
            λ raw. wrap path_refused (random_cdn_route_input_path raw)

      built : Text → RouteHandler Text
      built input = lift (
          wrap path_refused (
            build_cdn_route_input_copy_command parsers.parse_ipv4 source input
              plan.preferences.route_mode public_ip))

      copying : Text → Text → RouteHandler (Unit {0})
      copying input =
          copy_and_stage world parsers plan.orange.domain public_ip plan.preferences.route_mode
            input

      after_random : Text → RouteHandler (Unit {0})
      after_random input = built input >>= copying input

      after_prepare : RouteHandler (Unit {0})
      after_prepare = random >>= after_random

  staged_mode-IsSafeFailure :
      (log : List RouteEvent) {e : RouteError} {end : List RouteEvent}
      → only_reads log ≡ true
      → (lift (wrap invalid_plan (validate_for parsers.parse_address plan true)) >>= λ _.
            judged remote_public_ip world.public_ip ip_answer
            >>= change_route world parsers plan source)
          log
        ≡ (err e, end)
      → IsSafeFailure world parsers plan source e end
  staged_mode-IsSafeFailure log {e} q h =
      after_silent (lift (wrap invalid_plan (validate_for parsers.parse_address plan true)))
        (λ _.
          judged remote_public_ip world.public_ip ip_answer
          >>= change_route world parsers plan source)
        (IsLateFailure world parsers plan source e) log
        (lift-IsSilent (wrap invalid_plan (validate_for parsers.parse_address plan true))) q
        (λ _ l1 q1 k1.
          after_silent (judged remote_public_ip world.public_ip ip_answer)
            (change_route world parsers plan source) (IsLateFailure world parsers plan source e) l1
            (judged-IsSilent _ _ _ refl) q1 (λ ip l2 q2 k2. change_route-IsSafeFailure ip l2 q2 k2)
            k1)
        h

  by_mode-IsSafeFailure :
      (mode : RouteMode) (action : Text) (log : List RouteEvent) {e : RouteError}
      {end : List RouteEvent}
      → (is_orange mode || is_dual mode) ≡ true
      → only_reads log ≡ true
      → reconcile_by world parsers mode plan source action log ≡ (err e, end)
      → IsSafeFailure world parsers plan source e end
  unfolding reconcile_by
  by_mode-IsSafeFailure RouteMode.orange action log k q h = staged_mode-IsSafeFailure log q h
  by_mode-IsSafeFailure RouteMode.dual action log k q h = staged_mode-IsSafeFailure log q h
  by_mode-IsSafeFailure RouteMode.keep action log k q h = cc
  by_mode-IsSafeFailure RouteMode.gray action log k q h = cc
  by_mode-IsSafeFailure (RouteMode.unknown _) action log k q h = cc

-- When a change to the orange or the dual route fails, no command was sent to the server but the one
-- that reads its address, or the next command was the copy of the plan's input. Either that was the
-- last one and it failed, or it succeeded, the input was removed last, and before that the change was
-- settled: restored by the helper, rolled back with proof, or reported as a failed rollback.
pub reconcile_cdn_route-IsSafeFailure :
    (world : World) (parsers : Parsers) (plan : InstallPlan) (source : Text)
    → (is_orange plan.preferences.route_mode || is_dual plan.preferences.route_mode) ≡ true
    → {e : RouteError} {end : List RouteEvent}
    → reconcile_cdn_route world parsers plan source [] ≡ (err e, end)
    → IsSafeFailure world parsers plan source e end
unfolding reconcile_cdn_route
reconcile_cdn_route-IsSafeFailure world parsers plan source is_staged {e} h =
    after_silent
      (lift (wrap action_refused (cdn_route_action plan.preferences.route_mode plan.gray.domain)))
      (reconcile_by world parsers plan.preferences.route_mode plan source)
      (IsLateFailure world parsers plan source e) []
      (lift-IsSilent
        (wrap action_refused (cdn_route_action plan.preferences.route_mode plan.gray.domain)))
      refl
      (λ action l1 q1 k1.
        by_mode-IsSafeFailure world parsers plan source plan.preferences.route_mode action l1
          is_staged q1 k1)
      h
