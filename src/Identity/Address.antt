-- ===== src/Identity/Address.antt =====
-- Which addresses canonicalPublicIPv4 of ip_rebind.go accepts.
use proxy_node_assistant.Identity.{
  Ipv4, canonical_public_ipv4, dotted, format_ip, four, in_block, ip_number, non_public_ipv4_blocks,
  not_canonical, not_public, octet, public_address, surrounding_space,
}
use proxy_node_assistant.Identity.Bytes.{byte-IsByteText, octet-le}
use proxy_node_assistant.Identity.Ranges.{in_block-in_range, in_range, reserved_ranges}
use proxy_node_assistant.Prelude.{
  List, Option, [], any, any-append, ap, false, guard-eq-ok, none, not, not-eq-false, ok,
  ok-injective, refl, some, some-injective, subst, sym, ℕ, ◌++◌, ◌↔◌, ◌∙◌, ◌∷◌, ◌≡◌, ◌≤◌,
}
use proxy_node_assistant.Text.{
  Text, is_space, itoa, split, split-append, split_single, text_eq, text_eq_iff, text_eq_refl,
  trim_space, trim_space_unspaced,
}

pub record IsIpv4 (ip : Ipv4) : Type 0 where
  pub a_byte : ip.a ≤ 255
  pub b_byte : ip.b ≤ 255
  pub c_byte : ip.c ≤ 255
  pub d_byte : ip.d ≤ 255

format_ip-split :
    (ip : Ipv4)
    → IsIpv4 ip
    → split b'.' (format_ip ip) ≡ itoa ip.a ∷ itoa ip.b ∷ itoa ip.c ∷ itoa ip.d ∷ []
unfolding format_ip
format_ip-split ip v =
    let a = byte-IsByteText ip.a v.a_byte in
    let b = byte-IsByteText ip.b v.b_byte in
    let c = byte-IsByteText ip.c v.c_byte in
    let d = byte-IsByteText ip.d v.d_byte in
    split-append b'.' (itoa ip.a) _ a.undotted
    ∙ ap (λ (t : List Text). itoa ip.a ∷ t)
        (split-append b'.' (itoa ip.b) _ b.undotted
          ∙ ap (λ (t : List Text). itoa ip.b ∷ t)
              (split-append b'.' (itoa ip.c) _ c.undotted
                ∙ ap (λ (t : List Text). itoa ip.c ∷ t) (split_single b'.' (itoa ip.d) d.undotted)))

any_append_false :
    (s t : Text)
    → any is_space s ≡ false
    → any is_space t ≡ false
    → any is_space (s ++ (b'.' ∷ t)) ≡ false
unfolding is_space
any_append_false s t h k = rw (any-append is_space s (b'.' ∷ t), h, k) refl

format_ip_unspaced : (ip : Ipv4) → IsIpv4 ip → any is_space (format_ip ip) ≡ false
unfolding format_ip
format_ip_unspaced ip v = any_append_false (itoa ip.a) _ (byte-IsByteText ip.a v.a_byte).unspaced (
    any_append_false (itoa ip.b) _ (byte-IsByteText ip.b v.b_byte).unspaced (
      any_append_false (itoa ip.c) _ (byte-IsByteText ip.c v.c_byte).unspaced
        (byte-IsByteText ip.d v.d_byte).unspaced))

dotted-format_ip :
    (ip : Ipv4) → IsIpv4 ip → dotted (split b'.' (trim_space (format_ip ip))) ≡ some ip
unfolding dotted
dotted-format_ip ip v =
    rw
      (
        trim_space_unspaced (format_ip ip) (format_ip_unspaced ip v),
        format_ip-split ip v,
        (byte-IsByteText ip.a v.a_byte).read,
        (byte-IsByteText ip.b v.b_byte).read,
        (byte-IsByteText ip.c v.c_byte).read,
        (byte-IsByteText ip.d v.d_byte).read,
      )
      refl

four-IsIpv4 :
    (a b c d : Option ℕ) {ip : Ipv4}
    → ((n : ℕ) → a ≡ some n → n ≤ 255)
    → ((n : ℕ) → b ≡ some n → n ≤ 255)
    → ((n : ℕ) → c ≡ some n → n ≤ 255)
    → ((n : ℕ) → d ≡ some n → n ≤ 255)
    → four a b c d ≡ some ip
    → IsIpv4 ip
four-IsIpv4 (some a) (some b) (some c) (some d) p q r s h =
    subst IsIpv4 (some-injective h)
      (record { a_byte = p a refl; b_byte = q b refl; c_byte = r c refl; d_byte = s d refl })
four-IsIpv4 none b c d p q r s h = cc
four-IsIpv4 (some a) none c d p q r s h = cc
four-IsIpv4 (some a) (some b) none d p q r s h = cc
four-IsIpv4 (some a) (some b) (some c) none p q r s h = cc

dotted-IsIpv4 : (parts : List Text) {ip : Ipv4} → dotted parts ≡ some ip → IsIpv4 ip
unfolding dotted
dotted-IsIpv4 (a ∷ b ∷ c ∷ d ∷ []) h =
    four-IsIpv4 (octet a) (octet b) (octet c) (octet d) (λ n. octet-le a) (λ n. octet-le b)
      (λ n. octet-le c) (λ n. octet-le d) h
dotted-IsIpv4 [] h = cc
dotted-IsIpv4 (a ∷ []) h = cc
dotted-IsIpv4 (a ∷ b ∷ []) h = cc
dotted-IsIpv4 (a ∷ b ∷ c ∷ []) h = cc
dotted-IsIpv4 (a ∷ b ∷ c ∷ d ∷ e ∷ parts) h = cc

-- A public IPv4 address, by its bytes, and its text.
pub record IsPublicAddress (value : Text) (ip : Ipv4) : Type 0 where
  pub bytes : IsIpv4 ip
  pub canonical : value ≡ format_ip ip
  pub outside : any (in_range (ip_number ip)) reserved_ranges ≡ false

public_address-IsPublicAddress :
    (value : Text) (o : Option Ipv4) {w : Text}
    → ((ip : Ipv4) → o ≡ some ip → IsIpv4 ip)
    → public_address value o ≡ ok w
    → (w ≡ value) × (ip : Ipv4) × IsPublicAddress value ip
unfolding public_address
public_address-IsPublicAddress value none v h = cc
public_address-IsPublicAddress value (some ip) v h =
    let (form, h1) = guard-eq-ok (not (text_eq (format_ip ip) value)) not_canonical _ h in
    let (free, h2) =
      guard-eq-ok (any (in_block (ip_number ip)) non_public_ipv4_blocks) not_public
        (ok (format_ip ip)) h1 in
    let same = (text_eq_iff (format_ip ip) value).0 (not-eq-false form) in
    (
      sym (ok-injective h2) ∙ same,
      ip,
      record {
        bytes = v ip refl;
        canonical = sym same;
        outside = sym (in_block-in_range (ip_number ip)) ∙ free;
      },
    )

format_ip-accepted :
    (ip : Ipv4)
    → IsIpv4 ip
    → any (in_block (ip_number ip)) non_public_ipv4_blocks ≡ false
    → canonical_public_ipv4 (format_ip ip) ≡ ok (format_ip ip)
unfolding canonical_public_ipv4 public_address
format_ip-accepted ip v free =
    let trimmed = trim_space_unspaced (format_ip ip) (format_ip_unspaced ip v) in
    rw (dotted-format_ip ip v, trimmed, text_eq_refl (format_ip ip), free) refl

-- A text is accepted exactly if it is the decimal form of four bytes, without leading zeros and without
-- anything around it, and the address stands in none of the fourteen reserved ranges. What is returned
-- is the text itself.
pub canonical_public_ipv4_iff :
    (value w : Text)
    → (canonical_public_ipv4 value ≡ ok w) ↔ ((w ≡ value) × (ip : Ipv4) × IsPublicAddress value ip)
unfolding canonical_public_ipv4
canonical_public_ipv4_iff value w = (
  λ h.
      let (trimmed, h1) =
        guard-eq-ok (not (text_eq (trim_space value) value)) surrounding_space _ h in
      public_address-IsPublicAddress value (dotted (split b'.' (trim_space value)))
        (λ ip e. dotted-IsIpv4 (split b'.' (trim_space value)) e) h1,
  λ (same, ip, p).
      rw (same, p.canonical)
        (format_ip-accepted ip p.bytes (in_block-in_range (ip_number ip) ∙ p.outside)),
)
