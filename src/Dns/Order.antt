-- ===== src/Dns/Order.antt =====
-- The order in which the resolvers of dns_probe.go answer does not matter.
use proxy_node_assistant.Dns.{
  accepted, orange_accepted, no_match, Arrival, ProbeResult, Provider, cloudflare, google, observe,
  receive, record_match, system,
}
use proxy_node_assistant.Prelude.{
  ==_iff, sym, ◌||◌, ◌∙◌, Bool, Bool-cases, List, Option, [], any, arith, false, if◌then◌else◌, inl,
  inr, length, refl, suc, true, zero, ℕ, ◌&&◌, ◌==◌, ◌∷◌, ◌≡◌, ◌≤◌,
}
use proxy_node_assistant.Text.{Text}

abbrev pub is_same : Provider → Provider → Bool
is_same system system = true
is_same cloudflare cloudflare = true
is_same google google = true
is_same _ _ = false

abbrev pub is_from : Provider → Arrival → Bool
is_from p a = is_same p a.provider

abbrev pub is_match : (List (Option Text) → Bool) → Provider → Arrival → Bool
is_match test p a = is_from p a && observe test a.answer

abbrev pub count : (Arrival → Bool) → List Arrival → ℕ
count p [] = 0
count p (a ∷ later) = let rest = count p later in if p a then suc rest else rest

-- Each of the three goroutines sends once at most.
abbrev pub SentOnce : List Arrival → Type 0
SentOnce arrivals = (p : Provider) → count (is_from p) arrivals ≤ 1

abbrev pub match_of : Provider → ProbeResult → Bool
match_of system r = r.system_match
match_of cloudflare r = r.cloudflare_match
match_of google r = r.google_match

record_match-match_of :
    (p q : Provider) (m : Bool) (r : ProbeResult)
    → match_of p (record_match q m r) ≡ (if is_same p q then m else match_of p r)
unfolding record_match
record_match-match_of p q m r = ground arith

none_sent :
    (test : List (Option Text) → Bool) (p : Provider) (arrivals : List Arrival)
    → count (is_from p) arrivals ≡ 0
    → any (is_match test p) arrivals ≡ false
none_sent test p [] h = refl
none_sent test p (a ∷ arrivals) h = elim (Bool-cases (is_from p a)) [
  | inl e ↦ ground arith
  | inr e ↦ rw e (none_sent test p arrivals (ground arith))
]

fewer_later :
    (p : Arrival → Bool) (a : Arrival) (later : List Arrival)
    → count p (a ∷ later) ≤ 1
    → count p later ≤ 1
fewer_later p a later h = ground arith

no_room : (n : ℕ) → suc n ≤ 0 → ⊥
no_room n h = omega arith

receive-match_of :
    (n : ℕ) (test : List (Option Text) → Bool) (p : Provider) (arrivals : List Arrival)
    (r : ProbeResult)
    → length arrivals ≤ n
    → count (is_from p) arrivals ≤ 1
    → match_of p (receive n test arrivals r)
      ≡ (if count (is_from p) arrivals == 0 then match_of p r else any (is_match test p) arrivals)
unfolding receive
receive-match_of zero test p [] r h k = refl
receive-match_of zero test p (a ∷ arrivals) r h k = elim (no_room (length arrivals) h) [ ]
receive-match_of (suc n) test p [] r h k = refl
receive-match_of (suc n) test p (a ∷ arrivals) r h k =
    let rest =
      receive-match_of n test p arrivals (record_match a.provider (observe test a.answer) r)
        (omega arith) (fewer_later (is_from p) a arrivals k) in
    let here = record_match-match_of p a.provider (observe test a.answer) r in
    elim (Bool-cases (is_from p a)) [
      | inl e ↦ first (omega arith) e rest here
      | inr e ↦ later e rest here
    ]
  where
    next : ProbeResult
    next = record_match a.provider (observe test a.answer) r

    Goal : Type 0
    Goal = match_of p (receive n test arrivals next) ≡ (
        if count (is_from p) (a ∷ arrivals) == 0
        then match_of p r
        else any (is_match test p) (a ∷ arrivals))

    Rest : Type 0
    Rest = match_of p (receive n test arrivals next) ≡ (
        if count (is_from p) arrivals == 0 then match_of p next else any (is_match test p) arrivals)

    Here : Type 0
    Here = match_of p next ≡ (if is_from p a then observe test a.answer else match_of p r)

    none_left :
        is_from p a ≡ true → count (is_from p) (a ∷ arrivals) ≤ 1 → count (is_from p) arrivals ≡ 0
    none_left e few = let few' = rw e at few in omega arith

    first : count (is_from p) (a ∷ arrivals) ≤ 1 → is_from p a ≡ true → Rest → Here → Goal
    first few e rest here =
        let z : count (is_from p) arrivals ≡ 0 = none_left e few in
        let seen = rw e at here in
        rest ∙ rw (z, e, none_sent test p arrivals z, seen) (ground arith)

    later : is_from p a ≡ false → Rest → Here → Goal
    later e rest here = let seen = rw e at here in rest ∙ rw (e, seen) refl

unmatched : (p : Provider) → match_of p no_match ≡ false
unmatched system = refl
unmatched cloudflare = refl
unmatched google = refl

received :
    (test : List (Option Text) → Bool) (p : Provider) (arrivals : List Arrival)
    → length arrivals ≤ 3
    → count (is_from p) arrivals ≤ 1
    → match_of p (receive 3 test arrivals no_match) ≡ any (is_match test p) arrivals
received test p arrivals few once =
    receive-match_of 3 test p arrivals no_match few once ∙ go (count (is_from p) arrivals == 0) refl
  where
    go :
        (z : Bool)
        → (count (is_from p) arrivals == 0) ≡ z
        → (if z then match_of p no_match else any (is_match test p) arrivals)
          ≡ any (is_match test p) arrivals
    go true e = unmatched p ∙ sym (none_sent test p arrivals ((==_iff _ _).0 e))
    go false e = refl

-- In whatever order the three goroutines' observations arrive, and however many of them arrive in time:
-- a probe is accepted exactly if a match of the system's resolver or of both public ones arrived, and an
-- orange probe exactly if any match arrived.
pub receive-accepted :
    (test : List (Option Text) → Bool) (arrivals : List Arrival)
    → length arrivals ≤ 3
    → SentOnce arrivals
    → (accepted (receive 3 test arrivals no_match) ≡ (
        any (is_match test system) arrivals
        || (any (is_match test cloudflare) arrivals && any (is_match test google) arrivals)))
      × (orange_accepted (receive 3 test arrivals no_match) ≡ (
          any (is_match test system) arrivals
          || any (is_match test cloudflare) arrivals
          || any (is_match test google) arrivals))
unfolding accepted orange_accepted
receive-accepted test arrivals few once =
    let s = received test system arrivals few (once system) in
    let c = received test cloudflare arrivals few (once cloudflare) in
    let g = received test google arrivals few (once google) in
    (λ i. (s i || (c i && g i)), λ i. (s i || c i || g i))
