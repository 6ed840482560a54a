-- ===== src/InstallFlow/Answers.antt =====
-- What the loops of install_flow.go accept as an answer.
use proxy_node_assistant.Console.{required_until, required_until-accepts, Input}
use proxy_node_assistant.InstallFlow.{
  ask_route_identity, asked, domain_answer, email_answer, Asked, choose_until, cover_answer,
  credential_answer, performance_answer, route_answer, taken, warp_answer,
}
use proxy_node_assistant.Plan.Identity.{
  MailParser, valid_domain, valid_email, normalize_cover_template_choice,
}
use proxy_node_assistant.Plan.Types.{
  RouteIdentity, CredentialMode, PerformanceMode, RouteMode, WarpMode, valid_credential_mode,
  valid_performance_mode, valid_route_mode, valid_warp_mode,
}
use proxy_node_assistant.Plan.Validate.{valid_identity, valid_cover_choice}
use proxy_node_assistant.Prelude.{
  >>=-eq-ok, Bool, Option, [], any, ap, arith, false, if◌then◌else◌, inl, inr, is_empty, none, ok,
  ok-injective, refl, some, some-injective, subst, true, ℕ, ◌&&◌, ◌==◌, ◌||◌, ◌∷◌, ◌≡◌, ◌≤◌, ◌⊎◌,
}
use proxy_node_assistant.Identity.Bytes.{passes_below, passes_below_lem}
use proxy_node_assistant.Text.{
  Text, atoi, codes, itoa, text_eq, to_lower, trim_space, within, within_bounds,
}
use mathlib.Core.Option

taken-eq-ok :
    {A : Type 0} (o : Option A) (input : Input) (later : Asked A) {a : A} {rest : Input}
    → taken o input later ≡ ok (a, rest)
    → (o ≡ some a) ⊎ (later ≡ ok (a, rest))
taken-eq-ok none input later h = inr h
taken-eq-ok (some b) input later h = inl (ap some (ap (λ p. p.0) (ok-injective h)))

pub choose_until-accepts :
    {A : Type 0} (accept : Text → Option A) (input : Input) {a : A} {rest : Input}
    → choose_until accept input ≡ ok (a, rest)
    → (value : Text) × (accept value ≡ some a)
unfolding choose_until
choose_until-accepts accept [] h = cc
choose_until-accepts accept (line ∷ input) h =
    let value = trim_space (trim_space line) in
    elim (taken-eq-ok (accept value) input (choose_until accept input) h) [
      | inl e ↦ (value, e)
      | inr k ↦ choose_until-accepts accept input k
    ]

pub route_answer_lem :
    (existing : Bool) (v : Text) {m : RouteMode}
    → route_answer existing v ≡ some m
    → (valid_route_mode m ≡ true) × (m ≡ RouteMode.keep → existing ≡ true)
unfolding route_answer valid_route_mode
route_answer_lem existing v h = ground arith

pub performance_answer_lem :
    (existing : Bool) (v : Text) {m : PerformanceMode}
    → performance_answer existing v ≡ some m
    → valid_performance_mode m ≡ true
unfolding performance_answer valid_performance_mode
performance_answer_lem existing v h = ground arith

pub warp_answer_lem : (v : Text) {m : WarpMode} → warp_answer v ≡ some m → valid_warp_mode m ≡ true
unfolding warp_answer valid_warp_mode
warp_answer_lem v h = ground arith

pub credential_answer_lem :
    (existing complete : Bool) (v : Text) {m : CredentialMode}
    → credential_answer existing complete v ≡ some m
    → (valid_credential_mode m ≡ true) × (m ≡ CredentialMode.preserve → existing ≡ true)
unfolding credential_answer valid_credential_mode
credential_answer_lem existing complete v h = ground arith

number_choice : (n : ℕ) → 1 ≤ n → n ≤ 15 → valid_cover_choice (itoa n) ≡ true
unfolding passes_below valid_cover_choice itoa
number_choice n low high =
    let table : passes_below (λ m. m == 0 || valid_cover_choice (itoa m)) 16 ≡ true = refl in
    let here =
      passes_below_lem (λ m. m == 0 || valid_cover_choice (itoa m)) n 16 table (omega arith) in
    ground arith

number_answer :
    (o : Option ℕ) {c : Text}
    → ((n : ℕ) → o ≡ some n → (1 ≤ n) × (n ≤ 15))
    → Option.map itoa o ≡ some c
    → valid_cover_choice c ≡ true
number_answer none bounds h = cc
number_answer (some n) bounds h =
    let (low, high) = bounds n refl in
    subst (λ c. valid_cover_choice c ≡ true) (some-injective h) (number_choice n low high)

normalized_lem :
    (random stable : Bool) (o : Option ℕ) {c : Text}
    → ((n : ℕ) → o ≡ some n → (1 ≤ n) × (n ≤ 15))
    → (if random
        then some (codes "random")
        else if stable
        then some (codes "auto")
        else Option.map itoa o)
      ≡ some c
    → valid_cover_choice c ≡ true
unfolding valid_cover_choice
normalized_lem true stable o bounds h =
    subst (λ c. valid_cover_choice c ≡ true) (some-injective h) refl
normalized_lem false true o bounds h =
    subst (λ c. valid_cover_choice c ≡ true) (some-injective h) refl
normalized_lem false false o bounds h = number_answer o bounds h

covered :
    (kept blank : Bool) (o : Option Text) {c : Text}
    → (o ≡ some c → valid_cover_choice c ≡ true)
    → (if kept then some (codes "preserve") else if blank then none else o) ≡ some c
    → valid_cover_choice c ≡ true
unfolding valid_cover_choice
covered true blank o chosen h = subst (λ c. valid_cover_choice c ≡ true) (some-injective h) refl
covered false true o chosen h = cc
covered false false o chosen h = chosen h

pub cover_answer_lem :
    (existing : Bool) (v : Text) {c : Text}
    → cover_answer existing v ≡ some c
    → valid_cover_choice c ≡ true
unfolding cover_answer normalize_cover_template_choice
cover_answer_lem existing v h =
    let choice = to_lower (trim_space v) in
    covered (text_eq v (codes "0") && existing) (is_empty v) (normalize_cover_template_choice v)
      (normalized_lem (any (text_eq choice) ([] ∷ codes "r" ∷ codes "random" ∷ []))
        (any (text_eq choice) (codes "a" ∷ codes "auto" ∷ codes "stable" ∷ []))
        (within 1 15 (atoi choice)) (λ n. within_bounds 1 15 (atoi choice)))
      h

module _ (mail : MailParser) where
  domain_answer_lem : (v : Text) {d : Text} → domain_answer mail v ≡ some d → valid_domain d ≡ true
  unfolding domain_answer
  domain_answer_lem v {d} h = by_test (valid_domain (to_lower (trim_space v))) refl h
    where
      by_test :
          (good : Bool)
          → valid_domain (to_lower (trim_space v)) ≡ good
          → (if good then some (to_lower (trim_space v)) else none) ≡ some d
          → valid_domain d ≡ true
      by_test true known k = subst (λ x. valid_domain x ≡ true) (some-injective k) known
      by_test false known k = cc

  email_answer_lem :
      (v : Text) {e : Text} → email_answer mail v ≡ some e → valid_email mail e ≡ true
  unfolding email_answer
  email_answer_lem v {e} h = by_test (valid_email mail (trim_space v)) refl h
    where
      by_test :
          (good : Bool)
          → valid_email mail (trim_space v) ≡ good
          → (if good then some (trim_space v) else none) ≡ some e
          → valid_email mail e ≡ true
      by_test true known k = subst (λ x. valid_email mail x ≡ true) (some-injective k) known
      by_test false known k = cc

  asked-eq-ok :
      {A : Type 0} (o : Option (A × Input)) {a : A} {rest : Input}
      → asked mail o ≡ ok (a, rest)
      → o ≡ some (a, rest)
  asked-eq-ok none h = cc
  asked-eq-ok (some answer) h = ap some (ok-injective h)

  pub ask_route_identity_lem :
      (input : Input) {i : RouteIdentity} {rest : Input}
      → ask_route_identity mail input ≡ ok (i, rest)
      → valid_identity mail i ≡ true
  unfolding ask_route_identity
  ask_route_identity_lem input {i} {rest} h =
      let ((domain, later), e1, h1) =
        >>=-eq-ok (asked mail (required_until (domain_answer mail) input)) _ h in
      let ((email, after), e2, h2) =
        >>=-eq-ok (asked mail (required_until (email_answer mail) later)) _ h1 in
      let (v, d, _) = required_until-accepts (domain_answer mail) input (asked-eq-ok _ e1) in
      let (w, m, _) = required_until-accepts (email_answer mail) later (asked-eq-ok _ e2) in
      let same : ◌≡◌ {A = RouteIdentity} (record { domain = domain; email = email }) i =
        ap (λ (p : RouteIdentity × Input). p.0) (ok-injective h2) in
      subst (λ x. valid_identity mail x ≡ true) same
        (rw (domain_answer_lem v d, email_answer_lem w m) refl)
