-- ===== src/Effects/Order.antt =====
-- Handlers only add to the log of what was done.
use proxy_node_assistant.Prelude.{
  subst, Bool, List, Result, [], ap, append-nil, append_assoc, err, false, if◌then◌else◌, ok, refl,
  sym, true, ◌++◌, ◌∙◌, ◌∷◌, ◌≡◌,
}
use proxy_node_assistant.Effects.{Exec, continue, lift, perform, pure, raise, ◌>>=◌}

-- The later log begins with the earlier one.
pub record Follows {Event : Type 0} (early late : List Event) : Type 0 where
  pub added : List Event
  pub reached : late ≡ early ++ added

pub Follows-trans : {Event : Type 0} {a b c : List Event} → Follows a b → Follows b c → Follows a c
Follows-trans {a = a} f g = record {
  added = f.added ++ g.added;
  reached = g.reached ∙ ap (λ l. l ++ g.added) f.reached ∙ append_assoc a f.added g.added;
}

pub Follows-snoc :
    {Event : Type 0} (event : Event) {a b : List Event} → b ≡ a ++ event ∷ [] → Follows a b
Follows-snoc event at = record { added = event ∷ []; reached = at }

pub Follows-refl : {Event : Type 0} (log : List Event) → Follows log log
Follows-refl log = record { added = []; reached = sym (append-nil log) }

-- The handler ends with a log that begins with the one it started from.
pub record Extends {Event E A : Type 0} (m : Exec Event E A) : Type 0 where
  pub extended : (log : List Event) → Follows log (m log).1

module _ {Event E A : Type 0} where
  pub perform-Extends :
      (event : Event) (answer : List Event → A) → Extends (perform {E = E} event answer)
  unfolding perform
  perform-Extends event answer = record { extended = λ log. Follows-snoc event refl }

  pub lift-Extends : (r : Result E A) → Extends {Event = Event} (lift r)
  unfolding lift
  lift-Extends r = record { extended = λ log. Follows-refl log }

  pub pure-Extends : (a : A) → Extends {Event = Event} {E = E} (pure a)
  unfolding pure
  pure-Extends a = record { extended = λ log. Follows-refl log }

  pub raise-Extends : (e : E) → Extends {Event = Event} {A = A} (raise e)
  unfolding raise
  raise-Extends e = record { extended = λ log. Follows-refl log }

  pub if-Extends :
      (b : Bool) {m k : Exec Event E A} → Extends m → Extends k → Extends (if b then m else k)
  if-Extends true left right = left
  if-Extends false left right = right

  -- Where a run ends, in terms of where it started.
  pub Extends-end :
      (m : Exec Event E A) {log end : List Event} {r : Result E A}
      → Extends m
      → m log ≡ (r, end)
      → Follows log end
  Extends-end m {log} extends h =
      subst (Follows log) (ap (λ (p : Result E A × List Event). p.1) h) (extends.extended log)

module _ {Event E A B : Type 0} where
  pub >>=-Extends :
      {m : Exec Event E A} {f : A → Exec Event E B}
      → Extends m
      → ((a : A) → Extends (f a))
      → Extends (m >>= f)
  unfolding ◌>>=◌
  >>=-Extends {m} {f} first later = record {
    extended = λ log. by_result log (m log).0 (m log).1 (first.extended log);
  }
    where
      by_result :
          (log : List Event) (r : Result E A) (mid : List Event)
          → Follows log mid
          → Follows log (continue r f mid).1
      by_result log (err e) mid reached = reached
      by_result log (ok a) mid reached = Follows-trans reached ((later a).extended mid)
