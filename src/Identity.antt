-- ===== src/Identity.antt =====
-- node_identity.go and the checks of ip_rebind.go: the stable identity of a node, and its public address.
pub mod Ranges
pub mod Bytes
pub mod Address
pub mod Node
use proxy_node_assistant.Prelude.{
  Bool, List, Option, Result, [], any, err, if◌then◌else◌, is_empty, leb, length, none, not, ok,
  refl, some, ℕ, ◌&&◌, ◌*◌, ◌+◌, ◌-◌, ◌/◌, ◌==◌, ◌^◌, ◌||◌, ◌∷◌, ◌≡◌,
}
use proxy_node_assistant.Text.{
  Text, codes, is_space, itoa, join, parse_digits, split, text_eq, trim_space,
}

pub data AddressError : Type 0 where
  surrounding_space not_canonical not_public : AddressError

-- The four bytes of an IPv4 address.
pub record Ipv4 : Type 0 where
  pub a : ℕ
  pub b : ℕ
  pub c : ℕ
  pub d : ℕ

abbrev at_most_255 : Option ℕ → Option ℕ
at_most_255 none = none
at_most_255 (some n) = if leb n 255 then some n else none

-- A byte in decimal, without leading zeros.
unfoldable pub octet : Text → Option ℕ
unfolding parse_digits
octet [] = none
octet (c ∷ cs) =
    if leb (length (c ∷ cs)) 3 && (is_empty cs || not (c == b'0'))
    then at_most_255 (parse_digits (c ∷ cs))
    else none

abbrev four : Option ℕ → Option ℕ → Option ℕ → Option ℕ → Option Ipv4
four (some a) (some b) (some c) (some d) = some (record { a = a; b = b; c = c; d = d })
four _ _ _ _ = none

-- `net.ParseIP` on the texts without a colon. Those with one are IPv6 addresses, among them the ones
-- that stand for an IPv4 address; none of them is canonical.
unfoldable pub dotted : List Text → Option Ipv4
unfolding octet
dotted (a ∷ b ∷ c ∷ d ∷ []) = four (octet a) (octet b) (octet c) (octet d)
dotted _ = none

-- `IP.String`
unfoldable pub format_ip : Ipv4 → Text
unfolding itoa join
format_ip ip = join b'.' (itoa ip.a ∷ itoa ip.b ∷ itoa ip.c ∷ itoa ip.d ∷ [])

abbrev pub ip_number : Ipv4 → ℕ
ip_number ip = ((ip.a * 256 + ip.b) * 256 + ip.c) * 256 + ip.d

abbrev block : ℕ → ℕ → ℕ → ℕ → ℕ → ℕ × ℕ
block a b c d bits = (((a * 256 + b) * 256 + c) * 256 + d, 32 - bits)

-- `nonPublicIPv4Blocks`: a network and the number of bits that vary in it.
abbrev pub non_public_ipv4_blocks : List (ℕ × ℕ)
non_public_ipv4_blocks =
    block 0 0 0 0 8
    ∷ block 10 0 0 0 8
    ∷ block 100 64 0 0 10
    ∷ block 127 0 0 0 8
    ∷ block 169 254 0 0 16
    ∷ block 172 16 0 0 12
    ∷ block 192 0 0 0 24
    ∷ block 192 0 2 0 24
    ∷ block 192 168 0 0 16
    ∷ block 198 18 0 0 15
    ∷ block 198 51 100 0 24
    ∷ block 203 0 113 0 24
    ∷ block 224 0 0 0 4
    ∷ block 240 0 0 0 4
    ∷ []

-- `IPNet.Contains`: the bits of the network are the same.
abbrev pub in_block : ℕ → ℕ × ℕ → Bool
in_block n (net, bits) = n / 2 ^ bits == net / 2 ^ bits

-- The two messages for a text that is no IPv4 address in canonical form are one error here.
unfoldable pub public_address : Text → Option Ipv4 → Result AddressError Text
unfolding format_ip text_eq
public_address value none = err not_canonical
public_address value (some ip) =
    if not (text_eq (format_ip ip) value)
    then err not_canonical
    else if any (in_block (ip_number ip)) non_public_ipv4_blocks
    then err not_public
    else ok (format_ip ip)

unfoldable pub canonical_public_ipv4 : Text → Result AddressError Text
unfolding trim_space text_eq split dotted public_address
canonical_public_ipv4 value =
    if not (text_eq (trim_space value) value)
    then err surrounding_space
    else public_address value (dotted (split b'.' (trim_space value)))

address_tests :
    (canonical_public_ipv4 (codes "8.8.4.4") ≡ ok (codes "8.8.4.4"))
    × (canonical_public_ipv4 (codes "100.127.0.1") ≡ err not_public)
    × (canonical_public_ipv4 (codes "08.8.4.4") ≡ err not_canonical)
unfolding canonical_public_ipv4 is_space
address_tests = (refl, refl, refl)
