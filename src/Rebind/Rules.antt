-- ===== src/Rebind/Rules.antt =====
-- Steps of ip_rebind.go's rebinding that go on only on a condition.
use proxy_node_assistant.Prelude.{
  sym, Bool, List, Result, ap, err, false, if◌then◌else◌, not, ok, ok-injective, refl, true, wrap,
  ◌≡◌,
}
use proxy_node_assistant.Effects.{lift, pure, raise, ◌>>=◌}
use proxy_node_assistant.Rebind.{RebindError, RebindEvent, Rebinding, refuse}

module _ {A : Type 0} {end : List RebindEvent} {a : A} where
  pub refused-eq-ok :
      (bad : Bool) (e : RebindError) (next : Rebinding A) (log : List RebindEvent)
      → (refuse bad e >>= λ go. next) log ≡ (ok a, end)
      → (bad ≡ false) × (next log ≡ (ok a, end))
  unfolding ◌>>=◌ lift refuse
  refused-eq-ok false e next log h = (refl, h)
  refused-eq-ok true e next log h = cc

  pub required-eq-ok :
      (good : Bool) (e : RebindError) (next : Rebinding A) (log : List RebindEvent)
      → (refuse (not good) e >>= λ go. next) log ≡ (ok a, end)
      → (good ≡ true) × (next log ≡ (ok a, end))
  unfolding ◌>>=◌ lift refuse
  required-eq-ok true e next log h = (refl, h)
  required-eq-ok false e next log h = cc

  pub checked-eq-ok :
      (good : Bool) (e : RebindError) (next : Rebinding A) (log : List RebindEvent)
      → (if not good then raise e else next) log ≡ (ok a, end)
      → (good ≡ true) × (next log ≡ (ok a, end))
  unfolding raise
  checked-eq-ok true e next log h = (refl, h)
  checked-eq-ok false e next log h = cc

pub kept-eq-ok :
    (good : Bool) (e : RebindError) (log : List RebindEvent) {end : List RebindEvent}
    → refuse (not good) e log ≡ (ok tt, end)
    → (good ≡ true) × (end ≡ log)
unfolding lift refuse
kept-eq-ok true e log {end} h =
    (refl, sym (ap (λ (p : Result RebindError (Unit {0}) × List RebindEvent). p.1) h))
kept-eq-ok false e log h = cc

module _ {E A B : Type 0} {end : List RebindEvent} {b : B} where
  pub wrapped-eq-ok :
      (fault : E → RebindError) (r : Result E A) (next : A → Rebinding B) (log : List RebindEvent)
      → (lift (wrap fault r) >>= next) log ≡ (ok b, end)
      → (a : A) × (r ≡ ok a) × (next a log ≡ (ok b, end))
  unfolding ◌>>=◌ lift
  wrapped-eq-ok fault (ok a) next log h = (a, refl, h)
  wrapped-eq-ok fault (err e) next log h = cc

module _ {B : Type 0} {log end : List RebindEvent} {b : B} where
  pub pure-eq-ok : (a : B) → pure {E = RebindError} a log ≡ (ok b, end) → (a ≡ b) × (log ≡ end)
  unfolding pure
  pure-eq-ok a h = (
    ok-injective (ap (λ (p : Result RebindError B × List RebindEvent). p.0) h),
    ap (λ (p : Result RebindError B × List RebindEvent). p.1) h,
  )
