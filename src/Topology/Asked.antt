-- ===== src/Topology/Asked.antt =====
-- What askLabeledDomainEmail and loadExistingTopologyPlan of topology.go accept.
use proxy_node_assistant.Console.{Input, required_until, required_until-accepts}
use proxy_node_assistant.Plan.Identity.{MailParser, valid_domain, valid_email}
use proxy_node_assistant.Plan.Validate.{valid}
use proxy_node_assistant.Prelude.{
  Bool, Bool-cases, Option, arith, false, if◌then◌else◌, inl, inr, length, none, not, ok,
  ok-injective, refl, some, some-injective, subst, sym, true, ◌&&◌, ◌<◌, ◌≡◌,
}
use proxy_node_assistant.Text.{Text, to_lower, trim_space}
use proxy_node_assistant.Topology.{
  TopologyPlan, accept_domain, accept_email, ask_email, ask_labeled_domain_email, beside, is_gray,
  is_orange, reconfirm_gray, with_gray,
}

tested :
    (P : Text → Bool) (v : Text) (b : Bool) {d : Text}
    → P v ≡ b
    → (if b then some v else none) ≡ some d
    → P d ≡ true
tested P v true e h = subst (λ (t : Text). P t ≡ true) (some-injective h) e
tested P v false e h = cc

beside-eq-some :
    (domain : Text) (r : Option (Text × Input)) {d e : Text} {rest : Input}
    → beside domain r ≡ some (d, e, rest)
    → (domain ≡ d) × (r ≡ some (e, rest))
beside-eq-some domain none h = cc
beside-eq-some domain (some (email, input)) h = (cc, cc)

module _ (mail : MailParser) where
  accept_domain-valid :
      (value : Text) {d : Text} → accept_domain mail value ≡ some d → valid_domain d ≡ true
  unfolding accept_domain
  accept_domain-valid value h = tested valid_domain (to_lower (trim_space value)) _ refl h

  accept_email-valid :
      (value : Text) {e : Text} → accept_email mail value ≡ some e → valid_email mail e ≡ true
  unfolding accept_email
  accept_email-valid value h = tested (valid_email mail) (trim_space value) _ refl h

  ask_email-eq-some :
      (o : Option (Text × Input)) {d e : Text} {rest : Input}
      → ask_email mail o ≡ some (d, e, rest)
      → (mid : Input) × (o ≡ some (d, mid))
        × (required_until (accept_email mail) mid ≡ some (e, rest))
  unfolding ask_email
  ask_email-eq-some none h = cc
  ask_email-eq-some (some (domain, mid)) h =
      let (same, read) = beside-eq-some domain _ h in (mid, cc, read)

  -- A route's hostname and address that the operator gave.
  pub record IsAsked (input : Input) (domain email : Text) (rest : Input) : Type 0 where
    pub domain_valid : valid_domain domain ≡ true
    pub email_valid : valid_email mail email ≡ true
    pub shorter : length rest < length input

  pub ask_labeled_domain_email-IsAsked :
      (input : Input) {domain email : Text} {rest : Input}
      → ask_labeled_domain_email mail input ≡ some (domain, email, rest)
      → IsAsked input domain email rest
  unfolding ask_labeled_domain_email
  ask_labeled_domain_email-IsAsked input {domain} {email} {rest} h =
      let (mid, first, second) = ask_email-eq-some (required_until (accept_domain mail) input) h in
      let (v, accepted_v, read_v) = required_until-accepts (accept_domain mail) input first in
      let (w, accepted_w, read_w) = required_until-accepts (accept_email mail) mid second in
      record {
        domain_valid = accept_domain-valid v accepted_v;
        email_valid = accept_email-valid w accepted_w;
        shorter = omega arith;
      }

  -- The gray route is set up, unless the mode has none.
  abbrev pub HasGrayRoute : TopologyPlan → Type 0
  HasGrayRoute p =
      is_orange p.mode ≡ false
      → (valid_domain p.gray_domain ≡ true) × (valid_email mail p.gray_email ≡ true)

  abbrev pub HasOrangeRoute : TopologyPlan → Type 0
  HasOrangeRoute p =
      is_gray p.mode ≡ false
      → (valid_domain p.orange_domain ≡ true) × (valid_email mail p.orange_email ≡ true)

  with_gray-HasGrayRoute :
      (p : TopologyPlan) (input : Input) (o : Option (Text × Text × Input))
      → o ≡ ask_labeled_domain_email mail input
      → {q : TopologyPlan} {rest : Input} → with_gray mail p o ≡ ok (q, rest)
      → HasGrayRoute q × (q.mode ≡ p.mode)
  with_gray-HasGrayRoute p input none e h = cc
  with_gray-HasGrayRoute p input (some (d, m, rest)) e h =
      let asked = ask_labeled_domain_email-IsAsked input (sym e) in
      let same = ok-injective h in
      subst (λ (q : TopologyPlan × Input). HasGrayRoute q.0 × (q.0.mode ≡ p.mode)) same
        ((λ used. (asked.domain_valid, asked.email_valid)), refl)

  pub reconfirm_gray-HasGrayRoute :
      (p : TopologyPlan) (input : Input)
      → (is_orange p.mode ≡ false → valid_domain p.gray_domain ≡ true)
      → {q : TopologyPlan} {rest : Input} → reconfirm_gray mail p input ≡ ok (q, rest)
      → HasGrayRoute q × (q.mode ≡ p.mode)
  unfolding reconfirm_gray
  reconfirm_gray-HasGrayRoute p input valid h =
      elim (Bool-cases (not (is_orange p.mode) && not (valid_email mail p.gray_email))) [
        | inl e ↦ with_gray-HasGrayRoute p input _ refl (rw e at h)
        | inr e ↦
            subst (λ (q : TopologyPlan × Input). HasGrayRoute q.0 × (q.0.mode ≡ p.mode))
              (ok-injective (rw e at h)) ((λ used. (valid used, ground arith)), refl)
      ]
