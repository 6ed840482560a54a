-- ===== src/Dns.antt =====
-- dns_probe.go: what the system's and two public resolvers answer, in the order of arrival.
pub mod Domain
pub mod Order
use proxy_node_assistant.Plan.Identity.{valid_domain}
use proxy_node_assistant.Prelude.{
  Bool, List, Option, [], any, false, if◌then◌else◌, length, none, not, some, suc, take, true, zero,
  ℕ, ◌&&◌, ◌++◌, ◌-◌, ◌||◌, ◌∷◌,
}
use proxy_node_assistant.Text.{Text, codes, has_suffix, is_some, text_eq, to_lower, trim_space}

pub data Provider : Type 0 where
  system cloudflare google : Provider

-- What a resolver's goroutine sends: its addresses, each `none` if it is no IPv4 address, or `none` for
-- an error of the lookup.
pub record Arrival : Type 0 where
  pub provider : Provider
  pub answer : Option (List (Option Text))

-- `dnsProbeResult` and `orangeDNSProbeResult`
pub record ProbeResult : Type 0 where
  pub system_match : Bool
  pub cloudflare_match : Bool
  pub google_match : Bool

abbrev pub no_match : ProbeResult
no_match = record { system_match = false; cloudflare_match = false; google_match = false }

-- `dnsProbeResult.Accepted`
unfoldable pub accepted : ProbeResult → Bool
accepted r = r.system_match || (r.cloudflare_match && r.google_match)

-- `orangeDNSProbeResult.Accepted`
unfoldable pub orange_accepted : ProbeResult → Bool
orange_accepted r = r.system_match || r.cloudflare_match || r.google_match

abbrev state : Bool → Text
state true = codes "MATCH"
state false = codes "MISS"

unfoldable pub summary : ProbeResult → Text
summary r =
    codes "system="
    ++ state r.system_match
    ++ codes " cloudflare="
    ++ state r.cloudflare_match
    ++ codes " google="
    ++ state r.google_match

abbrev pub is_address : Text → Option Text → Bool
is_address expected none = false
is_address expected (some address) = text_eq address expected

unfoldable pub addresses_contain_ipv4 : Text → List (Option Text) → Bool
addresses_contain_ipv4 expected addresses = any (is_address expected) addresses

unfoldable pub has_ipv4 : List (Option Text) → Bool
has_ipv4 addresses = any is_some addresses

abbrev pub observe : (List (Option Text) → Bool) → Option (List (Option Text)) → Bool
observe test none = false
observe test (some addresses) = test addresses

-- The `switch` on the provider of an observation.
unfoldable pub record_match : Provider → Bool → ProbeResult → ProbeResult
record_match system m r = record r { system_match = m }
record_match cloudflare m r = record r { cloudflare_match = m }
record_match google m r = record r { google_match = m }

-- The loop that receives at most `n` observations; it ends early, with what it has, if the time is over
-- before the next one arrives.
unfoldable pub receive : ℕ → (List (Option Text) → Bool) → List Arrival → ProbeResult → ProbeResult
receive zero test arrivals r = r
receive (suc n) test [] r = r
receive (suc n) test (a ∷ arrivals) r =
    receive n test arrivals (record_match a.provider (observe test a.answer) r)

unfoldable pub probed_domain : Text → Text
probed_domain domain =
    let name = to_lower (trim_space domain) in
    if has_suffix (codes ".") name then take (length name - 1) name else name

-- `parse_ipv4` is net.ParseIP with To4; `arrivals` are the observations for a domain in the order in
-- which they arrive in time.
module _ (arrivals : Text → List Arrival) where
  unfoldable pub expected_result : Text → Option Text → ProbeResult
  unfolding addresses_contain_ipv4 receive
  expected_result domain none = no_match
  expected_result domain (some expected) =
      if not (valid_domain domain)
      then no_match
      else receive 3 (addresses_contain_ipv4 expected) (arrivals domain) no_match

  unfoldable pub probe_domain_dns : (Text → Option Text) → Text → Text → ProbeResult
  unfolding expected_result
  probe_domain_dns parse_ipv4 domain public_ip =
      expected_result (probed_domain domain) (parse_ipv4 (trim_space public_ip))

  unfoldable pub probe_orange_dns : Text → ProbeResult
  unfolding receive has_ipv4
  probe_orange_dns domain =
      if not (valid_domain (probed_domain domain))
      then no_match
      else receive 3 has_ipv4 (arrivals (probed_domain domain)) no_match
