-- ===== src/Effects/Rules.antt =====
-- Inversion of handlers.
use proxy_node_assistant.Prelude.{
  List, Result, [], ap, err, ok, ok-injective, ok-ne-err, refl, sym, ◌++◌, ◌∙◌, ◌∷◌, ◌≡◌,
}
use proxy_node_assistant.Effects.{Exec, lift, perform, continue, ◌>>=◌}

module _ {Event E A B : Type 0} where
  pub >>=-eq-ok :
      (m : Exec Event E A) (f : A → Exec Event E B) {log end : List Event} {b : B}
      → (m >>= f) log ≡ (ok b, end)
      → (a : A) × (mid : List Event) × (m log ≡ (ok a, mid)) × (f a mid ≡ (ok b, end))
  unfolding ◌>>=◌
  >>=-eq-ok m f {log} {end} {b} h = go (m log).0 refl h
    where
      go :
          (r : Result E A)
          → (m log).0 ≡ r
          → continue r f (m log).1 ≡ (ok b, end)
          → (a : A) × (mid : List Event) × (m log ≡ (ok a, mid)) × (f a mid ≡ (ok b, end))
      go (ok a) e k = (a, (m log).1, λ i. (e i, (m log).1), k)
      go (err x) e k = cc

module _ {Event E A : Type 0} where
  pub perform-eq-ok :
      (event : Event) (answer : List Event → A) (log : List Event) {end : List Event} {a : A}
      → perform {E = E} event answer log ≡ (ok a, end)
      → (end ≡ log ++ event ∷ []) × (a ≡ answer end)
  unfolding perform
  perform-eq-ok event answer log h =
      let logged = ap (λ (p : Result E A × List Event). p.1) h in
      let answered = ok-injective (ap (λ (p : Result E A × List Event). p.0) h) in
      (sym logged, sym answered ∙ ap answer logged)

  pub perform-ne-err :
      (event : Event) (answer : List Event → A) (log : List Event) {end : List Event} {e : E}
      → perform event answer log ≡ (err e, end)
      → ⊥
  unfolding perform
  perform-ne-err event answer log h = ok-ne-err (ap (λ (p : Result E A × List Event). p.0) h)

  pub lift-eq-ok :
      (r : Result E A) (log : List Event) {end : List Event} {a : A}
      → lift r log ≡ (ok a, end)
      → (r ≡ ok a) × (end ≡ log)
  unfolding lift
  lift-eq-ok r log h = (
    ap (λ (p : Result E A × List Event). p.0) h,
    sym (ap (λ (p : Result E A × List Event). p.1) h),
  )

  pub lift-eq-err :
      (r : Result E A) (log : List Event) {end : List Event} {e : E}
      → lift r log ≡ (err e, end)
      → (r ≡ err e) × (end ≡ log)
  unfolding lift
  lift-eq-err r log h = (
    ap (λ (p : Result E A × List Event). p.0) h,
    sym (ap (λ (p : Result E A × List Event). p.1) h),
  )
