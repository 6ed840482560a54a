-- ===== src/Examples/Deployments.antt =====
-- The theorems on the route switch, on a switch to the CDN route and back.
use proxy_node_assistant.Deployment.{
  active_direct, can_transition_deployment_state, cdn_staged_8443, dual_installed_active_cdn,
  switch_to_cdn_port_443_committing, switch_to_cdn_staged_8443,
}
use proxy_node_assistant.Deployment.Reach.{
  Guarded, Run, Run-Guarded, fallback-is_settled, is_settled, stay, step,
}
use proxy_node_assistant.Prelude.{[], refl, true, ◌∷◌, ◌≡◌}

abbrev switch_run :
    Run switch_to_cdn_staged_8443
      (switch_to_cdn_staged_8443 ∷ switch_to_cdn_port_443_committing ∷ dual_installed_active_cdn
        ∷ [])
      dual_installed_active_cdn
unfolding can_transition_deployment_state
switch_run = step refl (step refl stay)

Run-Guarded_example :
    Guarded (
      switch_to_cdn_staged_8443 ∷ switch_to_cdn_port_443_committing ∷ dual_installed_active_cdn
      ∷ [])
Run-Guarded_example = Run-Guarded switch_run

fallback-is_settled_example :
    (can_transition_deployment_state cdn_staged_8443 active_direct ≡ true)
    × (is_settled active_direct ≡ true)
fallback-is_settled_example = fallback-is_settled cdn_staged_8443
