-- ===== src/Handoff/Fallbacks/Laws.antt =====
-- What mergeHandoffProtocolFallbacks of deployment.go leaves in the fields.
use proxy_node_assistant.Handoff.Fallbacks.{
  is_handoff_protocol_key, merge_handoff_protocol_fallbacks, UrlParser, adopt, candidate,
  candidate_of, valid_candidates, valid_handoff_protocol_value,
}
use proxy_node_assistant.Prelude.{
  some-injective, subst, Bool-cases, ap, false, inl, inr, not, some, ◌&&◌, All, Bool, List, Option,
  [], if◌then◌else◌, none, refl, sym, true, ◌∙◌, ◌∷◌, ◌≡◌,
}
use proxy_node_assistant.Protocol.KeyValue.Laws.{
  or_earlier-none, find-store, or_earlier, or_earlier_assoc, value_for,
}
use proxy_node_assistant.Text.{
  cut, lines_of, trim_space, text_eq_iff, find-put, or_else, put, text_eq, Fields, Text, find, get,
}
use proxy_node_assistant.Protocol.KeyValue.{store}

none-ne-some : {f : Text × Text} → ◌≡◌ {A = Option (Text × Text)} none (some f) → ⊥
none-ne-some h = cc

module _ (parse_url : UrlParser) (is_ip : Text → Bool) where
  -- The value of the last line that has a valid value for the protocol field `k`.
  abbrev pub last_candidate : Text → List Text → Option Text
  last_candidate k [] = none
  last_candidate k (line ∷ lines) =
      or_earlier (last_candidate k lines) (value_for k (candidate_of parse_url is_ip line))

  -- The value that a field is left with, by its last valid candidate and the value it has.
  abbrev pub settled : Text → Option Text → Option Text → Option Text
  settled k offered current =
      if valid_handoff_protocol_value parse_url is_ip k (or_else [] current)
      then current
      else or_earlier offered current

  find-valid_candidates :
      (k : Text) (lines : List Text) (m : Fields)
      → find k (valid_candidates parse_url is_ip lines m)
        ≡ or_earlier (last_candidate k lines) (find k m)
  unfolding valid_candidates
  find-valid_candidates k [] m = refl
  find-valid_candidates k (line ∷ lines) m =
      find-valid_candidates k lines (store (candidate_of parse_url is_ip line) m)
      ∙ rw (find-store k (candidate_of parse_url is_ip line) m)
          (sym (or_earlier_assoc (last_candidate k lines) _ _))

  -- All pairs of a list hold valid values.
  abbrev AllValid : Fields → Type 0
  AllValid m =
      All (λ (f : Text × Text). valid_handoff_protocol_value parse_url is_ip f.0 f.1 ≡ true) m

  settled-none : (k : Text) (current : Option Text) → settled k none current ≡ current
  settled-none k current =
      elim (Bool-cases (valid_handoff_protocol_value parse_url is_ip k (or_else [] current))) [
        | inl e ↦ rw e refl
        | inr e ↦ rw e refl
      ]

  settled_again :
      (k value : Text) (offered current : Option Text)
      → valid_handoff_protocol_value parse_url is_ip k value ≡ true
      → settled k offered (
          if not (valid_handoff_protocol_value parse_url is_ip k (or_else [] current))
          then some value
          else current)
        ≡ settled k (some value) current
  settled_again k value offered current good =
      elim (Bool-cases (valid_handoff_protocol_value parse_url is_ip k (or_else [] current))) [
        | inl e ↦ rw e (rw e refl)
        | inr e ↦ rw e (rw good refl)
      ]

  -- One round of the second loop, on the field `k`.
  find-round :
      (k key value : Text) (values : Fields) (put_it : Bool)
      → find k (if put_it then put key value values else values)
        ≡ (if text_eq key k then (if put_it then some value else find k values) else find k values)
  find-round k key value values true = find-put key k value values
  find-round k key value values false = elim (Bool-cases (text_eq key k)) [
    | inl e ↦ rw e refl
    | inr e ↦ rw e refl
  ]

  round_settled :
      (k key value : Text) (values : Fields) (offered : Option Text) (same : Bool)
      → (same ≡ true → key ≡ k)
      → valid_handoff_protocol_value parse_url is_ip key value ≡ true
      → settled k offered (
          if same
          then (if not (valid_handoff_protocol_value parse_url is_ip key (get key values))
              then some value
              else find k values)
          else find k values)
        ≡ settled k (if same then some value else offered) (find k values)
  unfolding get
  round_settled k key value values offered false named good = refl
  round_settled k key value values offered true named good =
      subst
        (λ j.
          valid_handoff_protocol_value parse_url is_ip j value ≡ true
          → settled k offered (
              if not (valid_handoff_protocol_value parse_url is_ip j (get j values))
              then some value
              else find k values)
            ≡ settled k (some value) (find k values))
        (sym (named refl)) (settled_again k value offered (find k values)) good

  find-adopt :
      (k : Text) (candidates values : Fields)
      → AllValid candidates
      → find k (adopt parse_url is_ip candidates values)
        ≡ settled k (find k candidates) (find k values)
  unfolding adopt find get
  find-adopt k [] values v = sym (settled-none k (find k values))
  find-adopt k ((key, value) ∷ candidates) values (here, later) =
      let bad = not (valid_handoff_protocol_value parse_url is_ip key (get key values)) in
      find-adopt k candidates (if bad then put key value values else values) later
      ∙ ap (settled k (find k candidates)) (find-round k key value values bad)
      ∙ round_settled k key value values (find k candidates) (text_eq key k) (text_eq_iff key k).0
          here

  picked :
      (p q : Bool) (key value : Text) {k v : Text}
      → ◌≡◌ {A = Option (Text × Text)} (if p && q then some (key, value) else none) (some (k, v))
      → (q ≡ true) × (key ≡ k) × (value ≡ v)
  picked true true key value h =
      let same = some-injective h in
      (refl, ap (λ (f : Text × Text). f.0) same, ap (λ (f : Text × Text). f.1) same)
  picked true false key value h = cc
  picked false q key value h = cc

  candidate-valid :
      (o : Option (Text × Text)) {k v : Text}
      → candidate parse_url is_ip o ≡ some (k, v)
      → valid_handoff_protocol_value parse_url is_ip k v ≡ true
  unfolding candidate
  candidate-valid none h = elim (none-ne-some h) [ ]
  candidate-valid (some (typed, val)) {k} {v} h =
      let key = trim_space typed in
      let (good, same_key, same_value) =
        picked (is_handoff_protocol_key key)
          (valid_handoff_protocol_value parse_url is_ip key (trim_space val)) key (trim_space val)
          h in
      subst (λ (f : Text × Text). valid_handoff_protocol_value parse_url is_ip f.0 f.1 ≡ true)
        (λ i. (same_key i, same_value i)) good

  put-AllValid :
      (k v : Text) (m : Fields)
      → valid_handoff_protocol_value parse_url is_ip k v ≡ true
      → AllValid m
      → AllValid (put k v m)
  unfolding put
  put-AllValid k v [] good all_good = (good, tt)
  put-AllValid k v ((j, w) ∷ m) good (here, later) =
      by_key (text_eq j k) (text_eq_iff j k).0 (put-AllValid k v m good later)
    where
      by_key :
          (same : Bool)
          → (same ≡ true → j ≡ k)
          → AllValid (put k v m)
          → AllValid (if same then (j, v) ∷ m else (j, w) ∷ put k v m)
      by_key true named rest = (
        subst (λ x. valid_handoff_protocol_value parse_url is_ip x v ≡ true) (sym (named refl))
            good,
        later,
      )
      by_key false named rest = (here, rest)

  store-AllValid :
      (o : Option (Text × Text)) (m : Fields)
      → AllValid m
      → AllValid (store (candidate parse_url is_ip o) m)
  store-AllValid o m all_good =
      by_candidate (candidate parse_url is_ip o) (λ k v. candidate-valid o)
    where
      by_candidate :
          (c : Option (Text × Text))
          → ((k v : Text)
              → c ≡ some (k, v)
              → valid_handoff_protocol_value parse_url is_ip k v ≡ true)
          → AllValid (store c m)
      by_candidate none valid_pair = all_good
      by_candidate (some (k, v)) valid_pair = put-AllValid k v m (valid_pair k v refl) all_good

  valid_candidates-AllValid :
      (lines : List Text) (m : Fields)
      → AllValid m
      → AllValid (valid_candidates parse_url is_ip lines m)
  unfolding valid_candidates candidate_of
  valid_candidates-AllValid [] m all_good = all_good
  valid_candidates-AllValid (line ∷ lines) m all_good =
      valid_candidates-AllValid lines (store (candidate_of parse_url is_ip line) m)
        (store-AllValid (cut b'=' (trim_space line)) m all_good)

  -- A field with a valid value keeps it. Any other field gets the last valid value that a line of
  -- the handoff has for it, if the field is one of the protocol's; without one it stays as it is.
  pub find-merge_handoff_protocol_fallbacks :
      (k raw : Text) (values : Fields)
      → find k (merge_handoff_protocol_fallbacks parse_url is_ip raw values)
        ≡ settled k (last_candidate k (lines_of raw)) (find k values)
  unfolding merge_handoff_protocol_fallbacks find
  find-merge_handoff_protocol_fallbacks k raw values =
      find-adopt k (valid_candidates parse_url is_ip (lines_of raw) []) values
        (valid_candidates-AllValid (lines_of raw) [] tt)
      ∙ ap (λ c. settled k c (find k values))
          (find-valid_candidates k (lines_of raw) [] ∙ or_earlier-none _)
