-- ===== src/InstallFlow/Ports.antt =====
-- The SS2022 port that chooseSS2022Port of install_flow.go accepts.
-- A port that was typed is free; the default may be one that an existing node listens on.
use proxy_node_assistant.InstallFlow.{default_port, free_port, port_answer}
use proxy_node_assistant.Plan.Types.{default_ss2022_tcp_port, legacy_ss2022_trial_port}
use proxy_node_assistant.Prelude.{
  Bool, Option, arith, between, false, if◌then◌else◌, inl, inr, is_empty, none, refl, some,
  some-injective, subst, true, ℕ, ◌≡◌, ◌≢◌, ◌≤◌, ◌⊎◌,
}
use proxy_node_assistant.Text.{Text, atoi, within, within_bounds}

abbrev pub PortAnswer : Bool → Option ℕ → ℕ → Type 0
PortAnswer existing detected port =
    (1024 ≤ port)
    × (port ≤ 65535)
    × (port ≡ legacy_ss2022_trial_port → existing ≡ true)
    × (((port ≢ 24443) × (port ≢ 8443) × (port ≢ 40000))
        ⊎ ((existing ≡ true) × (detected ≡ some port)))

free_facts :
    (existing : Bool) (p : ℕ) {port : ℕ}
    → free_port existing (some p) ≡ some port
    → (p ≡ port)
      × (p ≢ 24443)
      × (p ≢ 8443)
      × (p ≢ 40000)
      × (p ≡ legacy_ss2022_trial_port → existing ≡ true)
free_facts existing p h = ground arith

free_lem :
    (existing : Bool) (detected o : Option ℕ) {port : ℕ}
    → ((n : ℕ) → o ≡ some n → (1024 ≤ n) × (n ≤ 65535))
    → free_port existing o ≡ some port
    → PortAnswer existing detected port
free_lem existing detected none bounds h = cc
free_lem existing detected (some p) bounds h =
    let (low, high) = bounds p refl in
    let (same, shadow, edge, warp, trial) = free_facts existing p h in
    subst (PortAnswer existing detected) same (low, high, trial, inl (shadow, edge, warp))

chosen_default : Bool → ℕ → ℕ
chosen_default known p = if known then p else default_ss2022_tcp_port

detected_lem :
    (p : ℕ) (known : Bool)
    → between 1024 65535 p ≡ known
    → PortAnswer true (some p) (chosen_default known p)
unfolding chosen_default
detected_lem p true h = (ground arith, ground arith, λ _. refl, inr (refl, refl))
detected_lem p false h = (ground arith, ground arith, λ _. refl, inl (ground arith))

default_lem :
    (existing : Bool) (detected : Option ℕ)
    → PortAnswer existing detected (default_port existing detected)
unfolding default_port chosen_default
default_lem false detected = (ground arith, ground arith, ground arith, inl (ground arith))
default_lem true none = (ground arith, ground arith, ground arith, inl (ground arith))
default_lem true (some p) = detected_lem p (between 1024 65535 p) refl

answered_port :
    (existing : Bool) (detected : Option ℕ) (blank : Bool) (o : Option ℕ) {port : ℕ}
    → ((n : ℕ) → o ≡ some n → (1024 ≤ n) × (n ≤ 65535))
    → (if blank then some (default_port existing detected) else free_port existing o) ≡ some port
    → PortAnswer existing detected port
answered_port existing detected true o bounds h =
    subst (PortAnswer existing detected) (some-injective h) (default_lem existing detected)
answered_port existing detected false o bounds h = free_lem existing detected o bounds h

pub port_answer_lem :
    (existing : Bool) (detected : Option ℕ) (v : Text) {port : ℕ}
    → port_answer existing detected v ≡ some port
    → PortAnswer existing detected port
unfolding port_answer
port_answer_lem existing detected v h =
    answered_port existing detected (is_empty v) (within 1024 65535 (atoi v))
      (λ n. within_bounds 1024 65535 (atoi v)) h
