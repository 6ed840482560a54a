-- ===== src/Deployment/Reach.antt =====
-- The switch as a step relation: what a sequence of allowed transitions can do.
use proxy_node_assistant.Deployment.{
  cdn_staged_8443, waiting_for_cloudflare_manual_action, DeploymentState, active_direct, active_cdn,
  dual_installed_active_direct, dual_installed_active_cdn, switch_to_cdn_staged_8443,
  switch_to_cdn_port_443_committing, switch_to_direct_staged_24443,
  switch_to_direct_port_443_committing, can_transition_deployment_state,
}
use proxy_node_assistant.Prelude.{refl, subst, Bool, List, [], arith, false, true, ◌∷◌, ◌≡◌, ◌⊎◌}

-- A run: the states that it passes, the first one first.
pub data Run : DeploymentState → List DeploymentState → DeploymentState → Type 0 where
  stay : {s : DeploymentState} → Run s (s ∷ []) s
  step :
      {s t u : DeploymentState} {path : List DeploymentState}
      → can_transition_deployment_state s t ≡ true
      → Run t path u
      → Run s (s ∷ path) u

-- States in which port 443 is being handed over.
abbrev pub is_committing : DeploymentState → Bool
is_committing switch_to_cdn_port_443_committing = true
is_committing switch_to_direct_port_443_committing = true
is_committing _ = false

-- States in which the node serves with nothing pending.
abbrev pub is_settled : DeploymentState → Bool
is_settled active_direct = true
is_settled active_cdn = true
is_settled dual_installed_active_direct = true
is_settled dual_installed_active_cdn = true
is_settled _ = false

-- The staged state before a hand-over of port 443.
abbrev pub staged_for : DeploymentState → DeploymentState
staged_for switch_to_cdn_port_443_committing = switch_to_cdn_staged_8443
staged_for switch_to_direct_port_443_committing = switch_to_direct_staged_24443
staged_for s = s

-- A state that is not committing goes to a committing one only from the staged state of the same
-- direction.
commit_from_staged :
    (s t : DeploymentState)
    → is_committing s ≡ false
    → is_committing t ≡ true
    → can_transition_deployment_state s t ≡ true
    → s ≡ staged_for t
unfolding can_transition_deployment_state
commit_from_staged s t a b c = ground arith

-- From a committing state the switch stays there, or ends with both routes installed.
pub commit_ends_settled :
    (s t : DeploymentState)
    → is_committing s ≡ true
    → can_transition_deployment_state s t ≡ true
    → (t ≡ s) ⊎ (t ≡ dual_installed_active_direct) ⊎ (t ≡ dual_installed_active_cdn)
unfolding can_transition_deployment_state
commit_ends_settled s t a b = ground arith

-- Each state of the path stands behind one from which the switch may go to it, and a committing
-- state behind itself or behind the staged state of its direction.
abbrev pub Guarded : List DeploymentState → Type 0
Guarded [] = Unit
Guarded (s ∷ []) = Unit
Guarded (s ∷ t ∷ path) =
    (is_committing t ≡ true → (s ≡ t) ⊎ (s ≡ staged_for t)) × Guarded (t ∷ path)

commit_guard :
    (s t : DeploymentState)
    → can_transition_deployment_state s t ≡ true
    → is_committing t ≡ true
    → (s ≡ t) ⊎ (s ≡ staged_for t)
unfolding can_transition_deployment_state
commit_guard s t a b = ground arith

-- In every run, a state that hands over port 443 stands behind itself or behind the staged state of
-- the same direction.
pub Run-Guarded :
    {s u : DeploymentState} {path : List DeploymentState} → Run s path u → Guarded path
Run-Guarded stay = tt
Run-Guarded (step {s} {t} a stay) = (commit_guard s t a, tt)
Run-Guarded (step {s} {t} a (step b r)) = (commit_guard s t a, Run-Guarded (step b r))

only_active_cdn :
    (s : DeploymentState) → can_transition_deployment_state s active_cdn ≡ true → s ≡ active_cdn
unfolding can_transition_deployment_state
only_active_cdn s a = ground arith

-- Nothing goes to the state with the CDN route alone, so a run ends there only if it began there.
pub Run-active_cdn :
    {s : DeploymentState} {path : List DeploymentState} → Run s path active_cdn → s ≡ active_cdn
Run-active_cdn stay = refl
Run-active_cdn (step {s} a r) =
    only_active_cdn s (subst (λ t. can_transition_deployment_state s t ≡ true) (Run-active_cdn r) a)

-- Where an interrupted switch may go to serve again.
abbrev pub fallback : DeploymentState → DeploymentState
fallback cdn_staged_8443 = active_direct
fallback waiting_for_cloudflare_manual_action = active_direct
fallback switch_to_cdn_staged_8443 = dual_installed_active_direct
fallback switch_to_cdn_port_443_committing = dual_installed_active_direct
fallback switch_to_direct_staged_24443 = dual_installed_active_cdn
fallback switch_to_direct_port_443_committing = dual_installed_active_cdn
fallback s = s

-- From every state one allowed transition leads to a settled one.
pub fallback-is_settled :
    (s : DeploymentState)
    → (can_transition_deployment_state s (fallback s) ≡ true) × (is_settled (fallback s) ≡ true)
unfolding can_transition_deployment_state
fallback-is_settled s = ground arith
