-- ===== src/Dns/Domain.antt =====
-- What the probe of a domain in dns_probe.go accepts.
use proxy_node_assistant.Dns.{
  receive, Arrival, accepted, addresses_contain_ipv4, cloudflare, expected_result, google, no_match,
  probe_domain_dns, probed_domain, system,
}
use proxy_node_assistant.Dns.Order.{receive-accepted, SentOnce, is_match}
use proxy_node_assistant.Prelude.{
  if◌then◌else◌, not, subst, sym, ◌∙◌, Bool, List, Option, any, false, length, none, refl, some,
  true, ◌&&◌, ◌||◌, ◌↔◌, ◌≡◌, ◌≤◌,
}
use proxy_node_assistant.Plan.Identity.{valid_domain}
use proxy_node_assistant.Text.{Text, trim_space}

-- The resolvers that found an address of the server: the system's, or both of the public ones.
abbrev pub found : Text → List Arrival → Bool
found expected arrivals =
    any (is_match (addresses_contain_ipv4 expected) system) arrivals
    || (any (is_match (addresses_contain_ipv4 expected) cloudflare) arrivals
        && any (is_match (addresses_contain_ipv4 expected) google) arrivals)

unaccepted : accepted no_match ≡ true → ⊥
unfolding accepted
unaccepted h = cc

none-ne-some : {a : Text} → ◌≡◌ {A = Option Text} none (some a) → ⊥
none-ne-some h = cc

some-injective : {a b : Text} → ◌≡◌ {A = Option Text} (some a) (some b) → a ≡ b
some-injective h = cc

module _ (arrivals : Text → List Arrival) (parse_ipv4 : Text → Option Text) where
  -- If each resolver answers once at most: a domain is accepted for a server's address only if the
  -- domain is valid, the address is an IPv4 address, and the system's resolver or both public ones
  -- answered with that address; and for such a domain that is enough.
  pub probe_domain_dns-accepted :
      (domain public_ip : Text)
      → length (arrivals (probed_domain domain)) ≤ 3
      → SentOnce (arrivals (probed_domain domain))
      → (accepted (probe_domain_dns arrivals parse_ipv4 domain public_ip) ≡ true) ↔ (
          (valid_domain (probed_domain domain) ≡ true)
          × (expected : Text) × (parse_ipv4 (trim_space public_ip) ≡ some expected)
          × (found expected (arrivals (probed_domain domain)) ≡ true))
  unfolding probe_domain_dns expected_result
  probe_domain_dns-accepted domain public_ip few once = go (parse_ipv4 (trim_space public_ip)) refl
    where
      name : Text
      name = probed_domain domain

      Accepts : Bool → Type 0
      Accepts b = (b ≡ true) ↔ (
          (valid_domain name ≡ true)
          × (expected : Text) × (parse_ipv4 (trim_space public_ip) ≡ some expected)
          × (found expected (arrivals name) ≡ true))

      by_domain :
          (e : Text)
          → parse_ipv4 (trim_space public_ip) ≡ some e
          → (v : Bool) → valid_domain name ≡ v
          → Accepts (
              accepted (
                if not v
                then no_match
                else receive 3 (addresses_contain_ipv4 e) (arrivals name) no_match))
      by_domain e q true v =
          let right = (receive-accepted (addresses_contain_ipv4 e) (arrivals name) few once).0 in
          (
            λ h. (v, e, q, sym right ∙ h),
            λ h.
                right
                ∙ subst (λ x. found x (arrivals name) ≡ true) (some-injective (sym h.2 ∙ q)) h.3,
          )
      by_domain e q false v = (λ h. elim (unaccepted h) [ ], λ h. cc)

      go :
          (o : Option Text)
          → parse_ipv4 (trim_space public_ip) ≡ o
          → Accepts (accepted (expected_result arrivals name o))
      go none q = (λ h. elim (unaccepted h) [ ], λ h. elim (none-ne-some (sym q ∙ h.2)) [ ])
      go (some e) q = by_domain e q (valid_domain name) refl
