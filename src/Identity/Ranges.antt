-- ===== src/Identity/Ranges.antt =====
-- The reserved blocks of ip_rebind.go as ranges of numbers.
use proxy_node_assistant.Identity.{in_block, non_public_ipv4_blocks}
use proxy_node_assistant.Prelude.{
  Bool, List, [], any, arith, between, false, ℕ, ◌/◌, ◌==◌, ◌||◌, ◌∷◌, ◌≡◌,
}

-- The addresses that are not public, by their first and last number.
abbrev pub reserved_ranges : List (ℕ × ℕ)
reserved_ranges =
    (0, 16777215)
    ∷ (167772160, 184549375)
    ∷ (1681915904, 1686110207)
    ∷ (2130706432, 2147483647)
    ∷ (2851995648, 2852061183)
    ∷ (2886729728, 2887778303)
    ∷ (3221225472, 3221225727)
    ∷ (3221225984, 3221226239)
    ∷ (3232235520, 3232301055)
    ∷ (3323068416, 3323199487)
    ∷ (3325256704, 3325256959)
    ∷ (3405803776, 3405804031)
    ∷ (3758096384, 4026531839)
    ∷ (4026531840, 4294967295)
    ∷ []

abbrev pub in_range : ℕ → ℕ × ℕ → Bool
in_range n (first, last) = between first last n

module _ (n : ℕ) where
  this_network : (n / 16777216 == 0) ≡ between 0 16777215 n
  this_network = ground arith

  private_10 : (n / 16777216 == 10) ≡ between 167772160 184549375 n
  private_10 = ground arith

  shared_100 : (n / 4194304 == 401) ≡ between 1681915904 1686110207 n
  shared_100 = ground arith

  loopback : (n / 16777216 == 127) ≡ between 2130706432 2147483647 n
  loopback = ground arith

  link_local : (n / 65536 == 43518) ≡ between 2851995648 2852061183 n
  link_local = ground arith

  private_172 : (n / 1048576 == 2753) ≡ between 2886729728 2887778303 n
  private_172 = ground arith

  protocol_192 : (n / 256 == 12582912) ≡ between 3221225472 3221225727 n
  protocol_192 = ground arith

  documentation_192 : (n / 256 == 12582914) ≡ between 3221225984 3221226239 n
  documentation_192 = ground arith

  private_192 : (n / 65536 == 49320) ≡ between 3232235520 3232301055 n
  private_192 = ground arith

  benchmark_198 : (n / 131072 == 25353) ≡ between 3323068416 3323199487 n
  benchmark_198 = ground arith

  documentation_198 : (n / 256 == 12989284) ≡ between 3325256704 3325256959 n
  documentation_198 = ground arith

  documentation_203 : (n / 256 == 13303921) ≡ between 3405803776 3405804031 n
  documentation_203 = ground arith

  multicast_224 : (n / 268435456 == 14) ≡ between 3758096384 4026531839 n
  multicast_224 = ground arith

  future_240 : (n / 268435456 == 15) ≡ between 4026531840 4294967295 n
  future_240 = ground arith

  -- The blocks are these ranges.
  pub in_block-in_range : any (in_block n) non_public_ipv4_blocks ≡ any (in_range n) reserved_ranges
  in_block-in_range = λ i.
      (this_network i
        || (private_10 i
            || (shared_100 i
                || (loopback i
                    || (link_local i
                        || (private_172 i
                            || (protocol_192 i
                                || (documentation_192 i
                                    || (private_192 i
                                        || (benchmark_198 i
                                            || (documentation_198 i
                                                || (documentation_203 i
                                                    || (multicast_224 i
                                                        || (future_240 i || false))))))))))))))
