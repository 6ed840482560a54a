-- ===== src/Topology/Stored.antt =====
-- The plan that persistTopologyPlan writes is the one that loadExistingTopologyPlan reads.
use proxy_node_assistant.Topology.{
  checked, TopologyMode, dual, gray, keep, loaded, mode_of, orange, reconfirm_gray,
  reconfirm_orange, recorded, load_existing_topology_plan, plan_lines, same_hostname, unresolved,
  gray_incomplete, orange_incomplete, is_gray, is_orange, is_dual, TopologyPlan, gray_domain_key,
  gray_email_key, mode_key, mode_name, orange_domain_key, orange_email_key, topology_plan_body,
}
use proxy_node_assistant.Protocol.KeyValue.{is_key, parse_kv}
use proxy_node_assistant.Plan.Identity.Unspaced.{valid_domain-unspaced}
use proxy_node_assistant.Plan.Validate.{valid}
use proxy_node_assistant.Prelude.{
  any, refl, some, All, ap, ◌++◌, Bool, arith, guard-eq-ok, not, ok-injective, sym, ◌&&◌, ◌||◌, ◌∙◌,
  [], false, is_empty, map, ok, true, ◌∷◌, ◌≡◌,
}
use proxy_node_assistant.Text.{
  is_space, get, join, or_else, pos, join-terminated, Fields, Text, codes, terminated, text_eq,
}
use proxy_node_assistant.Console.{Input}
use proxy_node_assistant.Effects.{ProcessResult}
use proxy_node_assistant.Protocol.KeyValue.Written.{IsWritable, find-written, field_line}
use proxy_node_assistant.Plan.Identity.{MailParser, valid_domain, valid_email}

abbrev plan_fields : TopologyPlan → Fields
plan_fields p =
    (mode_key, mode_name p.mode)
    ∷ (gray_domain_key, p.gray_domain)
    ∷ (gray_email_key, p.gray_email)
    ∷ (orange_domain_key, p.orange_domain)
    ∷ (orange_email_key, p.orange_email)
    ∷ []

abbrev version_field : Text × Text
version_field = (codes "TOPOLOGY_STATE_VERSION", codes "1")

body_text :
    (p : TopologyPlan)
    → join b'\n' (plan_lines p) ++ b'\n' ∷ []
      ≡ terminated (map field_line (version_field ∷ plan_fields p))
body_text p = join-terminated (field_line version_field) (map field_line (plan_fields p))

-- The addresses hold no space, and no more does the hostname of a route that the plan does not set up.
pub record IsSpaceless (p : TopologyPlan) : Type 0 where
  pub gray_email : any is_space p.gray_email ≡ false
  pub orange_email : any is_space p.orange_email ≡ false
  pub skipped_gray : is_orange p.mode ≡ true → any is_space p.gray_domain ≡ false
  pub skipped_orange : is_gray p.mode ≡ true → any is_space p.orange_domain ≡ false

demanded :
    (a b c : Bool) → (not a && (not b || not c)) ≡ false → a ≡ false → (b ≡ true) × (c ≡ true)
demanded a b c h e = ground arith

apart : (a b : Bool) → (a && b) ≡ false → a ≡ true → b ≡ false
apart a b h e = ground arith

used_or_skipped :
    (skipped : Bool) (t : Text)
    → (skipped ≡ false → valid_domain t ≡ true)
    → (skipped ≡ true → any is_space t ≡ false)
    → any is_space t ≡ false
used_or_skipped false t used other = valid_domain-unspaced t (used refl)
used_or_skipped true t used other = other refl

mode_name_unspaced : (mode : TopologyMode) → any is_space (mode_name mode) ≡ false
unfolding is_space
mode_name_unspaced keep = refl
mode_name_unspaced gray = refl
mode_name_unspaced orange = refl
mode_name_unspaced dual = refl

mode_of-mode_name :
    (mode : TopologyMode) → is_empty (mode_name mode) ≡ false → mode_of (mode_name mode) ≡ some mode
unfolding mode_of
mode_of-mode_name keep h = cc
mode_of-mode_name gray h = refl
mode_of-mode_name orange h = refl
mode_of-mode_name dual h = refl

-- A guard on the fields of a route that holds.
pub held :
    (skipped valid : Bool) → (skipped ≡ false → valid ≡ true) → (not skipped && not valid) ≡ false
held true valid h = refl
held false valid h = rw (h refl) refl

-- The reply to the command that reads the record.
abbrev pub reply_with : Text → ProcessResult
reply_with body = record { stdout = body; stderr = []; exit_code = pos 0; failed = false }

module _ (mail : MailParser) where
  -- What topologyPlanBody demands of a plan.
  pub record IsComplete (p : TopologyPlan) : Type 0 where
    pub resolved : is_empty (mode_name p.mode) ≡ false
    pub gray_route :
        is_orange p.mode ≡ false
        → (valid_domain p.gray_domain ≡ true) × (valid_email mail p.gray_email ≡ true)
    pub orange_route :
        is_gray p.mode ≡ false
        → (valid_domain p.orange_domain ≡ true) × (valid_email mail p.orange_email ≡ true)
    pub two_names : is_dual p.mode ≡ true → text_eq p.gray_domain p.orange_domain ≡ false

  pub topology_plan_body-IsComplete :
      (p : TopologyPlan) {body : Text}
      → topology_plan_body mail p ≡ ok body
      → IsComplete p × (body ≡ terminated (map field_line (version_field ∷ plan_fields p)))
  unfolding topology_plan_body
  topology_plan_body-IsComplete p h =
      let (r, h1) = guard-eq-ok _ unresolved _ h in
      let (g, h2) = guard-eq-ok _ gray_incomplete _ h1 in
      let (o, h3) = guard-eq-ok _ orange_incomplete _ h2 in
      let (d, h4) = guard-eq-ok _ same_hostname _ h3 in
      (
        record {
          resolved = r;
          gray_route = λ e. demanded (is_orange p.mode) _ _ g e;
          orange_route = λ e. demanded (is_gray p.mode) _ _ o e;
          two_names = λ e. apart (is_dual p.mode) _ d e;
        },
        sym (ok-injective h4) ∙ body_text p,
      )

  fields-IsWritable :
      (p : TopologyPlan)
      → IsComplete p
      → IsSpaceless p
      → All IsWritable (version_field ∷ plan_fields p)
  unfolding is_key is_space
  fields-IsWritable p c plain =
      let gray_name =
        used_or_skipped (is_orange p.mode) p.gray_domain (λ e. (c.gray_route e).0)
          plain.skipped_gray in
      let orange_name =
        used_or_skipped (is_gray p.mode) p.orange_domain (λ e. (c.orange_route e).0)
          plain.skipped_orange in
      (
        (refl, refl),
        (
          (refl, mode_name_unspaced p.mode),
          (
            (refl, gray_name),
            ((refl, plain.gray_email), ((refl, orange_name), ((refl, plain.orange_email), tt))),
          ),
        ),
      )

  checked-IsComplete :
      (p : TopologyPlan) (input : Input) → IsComplete p → checked mail p input ≡ ok (p, input)
  unfolding checked reconfirm_gray reconfirm_orange
  checked-IsComplete p input c =
      rw
        (
          held (is_orange p.mode) (valid_domain p.gray_domain) (λ e. (c.gray_route e).0),
          held (is_gray p.mode) (valid_domain p.orange_domain) (λ e. (c.orange_route e).0),
          held (is_orange p.mode) (valid_email mail p.gray_email) (λ e. (c.gray_route e).1),
          held (is_gray p.mode) (valid_email mail p.orange_email) (λ e. (c.orange_route e).1),
        )
        refl

  loaded-plan :
      (p : TopologyPlan) (values : Fields) (input : Input)
      → IsComplete p
      → get mode_key values ≡ mode_name p.mode
      → recorded p.mode values ≡ p
      → loaded mail values input (mode_of (get mode_key values)) ≡ ok (p, input)
  unfolding loaded
  loaded-plan p values input c e same =
      rw (e, mode_of-mode_name p.mode c.resolved)
        (ap (λ (q : TopologyPlan). checked mail q input) same ∙ checked-IsComplete p input c)

  -- A plan that can be written and whose addresses hold no space is loaded as it was, and nothing is
  -- asked. A hostname that the plan does not use must hold no space either.
  pub load_existing_topology_plan-body :
      (p : TopologyPlan)
      → IsSpaceless p
      → {body : Text} → topology_plan_body mail p ≡ ok body
      → (input : Input) → load_existing_topology_plan mail (reply_with body) input ≡ ok (p, input)
  unfolding load_existing_topology_plan get
  load_existing_topology_plan-body p plain h input =
      let (c, written) = topology_plan_body-IsComplete p h in
      let writable = fields-IsWritable p c plain in
      let found =
        λ (k : Text). ap (or_else []) (find-written k (version_field ∷ plan_fields p) writable) in
      rw (written) (
        loaded-plan p (parse_kv (terminated (map field_line (version_field ∷ plan_fields p)))) input
          c (found mode_key)
          (λ i. record {
            mode = p.mode;
            gray_domain = found gray_domain_key i;
            gray_email = found gray_email_key i;
            orange_domain = found orange_domain_key i;
            orange_email = found orange_email_key i;
          }))
