-- ===== src/Packet/Build/Icmp.antt =====
-- The ICMPv6 messages that the node answers with.
use hopscotch.Common.{
  ℕ, Bool, ◌+◌, ◌-◌, ◌/◌, ◌%◌, ◌≡◌, ◌≤◌, ◌<◌, refl, [], ◌∷◌, ◌++◌, length, arith, All, take, drop,
  ◌==◌, ◌&&◌, ◌||◌, not, length-drop, length-take, All-drop, All-take, if◌then◌else◌, true, false,
  ltb, some, min,
}
use hopscotch.Common.Bytes.{Bytes, IsByte, slice, at, put_uint32}
use hopscotch.Ip.{to16}
use hopscotch.Packet.Checksum.{transport_checksum, next_header_icmpv6}
use hopscotch.Packet.Checksum.Verify.{transport_checksum_filled}
use hopscotch.Packet.Header.{IsIp6, length-header, header_bytes, length-packet, parse_ipv6-packet}
use hopscotch.Packet.Build.{
  mtu, ipv6_header_len, ipv6_header, version, parse_ipv6, icmpv6_error, icmpv6_error_with,
  is_unspecified, is_multicast,
}
use hopscotch.Packet.Build.Laws.{to16_fixed}

-- A packet that may be answered by an error: IPv6, no ICMPv6 error itself, from one host.
pub record IsAnswerable (pkt : Bytes) : Type 0 where
  pub long : 40 ≤ length pkt
  pub six : version pkt ≡ 6
  pub no_error :
      (at pkt 6 == next_header_icmpv6 && (ltb ipv6_header_len (length pkt) && ltb (at pkt 40) 128))
      ≡ false
  pub one_host : (is_unspecified (slice pkt 8 24) || is_multicast (slice pkt 8 24)) ≡ false
  pub bytes : All IsByte pkt

module _ (pkt src : Bytes) (typ code param : ℕ) (answerable : IsAnswerable pkt) (src_ip : IsIp6 src)
    (typ_fits : typ < 256) (code_fits : code < 256) where
  abbrev as_much : ℕ
  as_much = min (length pkt) (mtu - ipv6_header_len - 8)

  error_built :
      icmpv6_error pkt src typ code param
      ≡ icmpv6_error_with
          (transport_checksum (icmpv6_error_with 0 pkt src typ code param) next_header_icmpv6)
          pkt
          src
          typ
          code
          param
  unfolding icmpv6_error
  error_built =
      let six : (ltb (length pkt) ipv6_header_len || not (version pkt == 6)) ≡ false =
        ground (arith, answerable.long, answerable.six) in
      rw (to16_fixed src src_ip.0, src_ip.0, six, answerable.no_error, answerable.one_host)

  sender_ip : IsIp6 (slice pkt 8 24)
  sender_ip = (
    omega (arith, answerable.long, length-drop 8 pkt, length-take 16 (drop 8 pkt)),
    All-take IsByte 16 (drop 8 pkt) (All-drop IsByte 8 pkt answerable.bytes),
  )

  quote_bytes : All IsByte (put_uint32 param ++ take as_much pkt)
  quote_bytes = (
    omega arith,
    (omega arith, (omega arith, (omega arith, All-take IsByte as_much pkt answerable.bytes))),
  )

  length-quote : length (take as_much pkt) ≡ as_much
  length-quote = omega (arith, length-take as_much pkt)

  error_fits : (sum : ℕ) → length (icmpv6_error_with sum pkt src typ code param) ≤ mtu
  error_fits sum = omega (
    arith,
    length-packet (8 + as_much) next_header_icmpv6 64 src (slice pkt 8 24) src_ip sender_ip
        (typ ∷ code ∷ (sum / 256 % 256) ∷ (sum % 256) ∷ (put_uint32 param ++ take as_much pkt)),
    length-quote,
  )

  -- An ICMPv6 error about a packet that may be answered, from an address of 16 bytes, fits the
  -- overlay MTU, carries a checksum that verifies, and goes back to the sender of the packet that
  -- it quotes.
  pub icmpv6_error_lem :
      (length (icmpv6_error pkt src typ code param) ≤ mtu)
      × (transport_checksum (icmpv6_error pkt src typ code param) next_header_icmpv6 ≡ 0)
      × (parse_ipv6 (icmpv6_error pkt src typ code param) ≡ some (slice pkt 8 24, 64))
  icmpv6_error_lem =
      let plen = 8 + as_much in
      rw error_built (
        error_fits _,
        transport_checksum_filled (ipv6_header plen next_header_icmpv6 64 src (slice pkt 8 24))
            (typ ∷ code ∷ []) (put_uint32 param ++ take as_much pkt) next_header_icmpv6
            (length-header plen next_header_icmpv6 64 src (slice pkt 8 24) src_ip sender_ip) tt
            (omega arith)
            (header_bytes plen next_header_icmpv6 64 src (slice pkt 8 24) src_ip sender_ip
              (omega arith) (omega arith))
            (typ_fits, (code_fits, tt)) quote_bytes (omega (arith, length-quote)) refl,
        parse_ipv6-packet plen next_header_icmpv6 64 src (slice pkt 8 24) src_ip sender_ip _,
      )

guarded :
    (a b c : Bool) (x : Bytes)
    → (b || c) ≡ true
    → (if a then [] else if b then [] else if c then [] else x) ≡ []
guarded a b c x h = ground arith

-- No error answers an ICMPv6 error, nor a packet whose source is no single host.
pub icmpv6_error_silent :
    (pkt src : Bytes) (typ code param : ℕ)
    → ((at pkt 6 == next_header_icmpv6 && (ltb ipv6_header_len (length pkt) && ltb (at pkt 40) 128))
        || (is_unspecified (slice pkt 8 24) || is_multicast (slice pkt 8 24)))
      ≡ true
    → icmpv6_error pkt src typ code param ≡ []
unfolding icmpv6_error
icmpv6_error_silent pkt src typ code param h =
    guarded (length (to16 src) == 0 || (ltb (length pkt) ipv6_header_len || not (version pkt == 6)))
      (at pkt 6 == next_header_icmpv6 && (ltb ipv6_header_len (length pkt) && ltb (at pkt 40) 128))
      (is_unspecified (slice pkt 8 24) || is_multicast (slice pkt 8 24))
      (icmpv6_error_with
        (transport_checksum (icmpv6_error_with 0 pkt (to16 src) typ code param) next_header_icmpv6)
        pkt (to16 src) typ code param)
      h
