-- ===== src/Packet/Tests.antt =====
-- Packets put together and read, and the theorems at concrete inputs.
use hopscotch.Common.{
  ◌≡◌, ◌≤◌, refl, some, [], ◌∷◌, ◌++◌, replicate, length, drop, arith, ℕ_discrete,
}
use hopscotch.Common.Bytes.{at, Bytes, codes, same, slice, are_bytes-IsByte}
use hopscotch.Ip.{ip_equal, to4}
use hopscotch.Packet.Checksum.{transport_checksum, next_header_icmpv6, next_header_tcp}
use hopscotch.Packet.Build.{
  mtu, ipv6_header, parse_ipv6, parse_udp6, udp6, icmp_echo_reply, icmpv6_error,
}
use hopscotch.Packet.Build.Laws.{parse_udp6-udp6}
use hopscotch.Packet.Build.Icmp.{IsAnswerable, icmpv6_error_lem}
use hopscotch.Packet.Build.Reply.{icmp_echo_reply_lem}
use hopscotch.Packet.Header.{IsIp6}
use hopscotch.Packet.Mss.{clamp_options, clamp_tcp_mss, options_changed}
use hopscotch.Packet.Mss.Segment.{Clamped, clamp_tcp_mss-Clamped}

abbrev src : Bytes
src = 0xfd ∷ replicate 15 1

abbrev dst : Bytes
dst = 0xfd ∷ replicate 15 2

src-IsIp6 : IsIp6 src
src-IsIp6 = (refl, are_bytes-IsByte src refl)

dst-IsIp6 : IsIp6 dst
dst-IsIp6 = (refl, are_bytes-IsByte dst refl)

parse_udp6-udp6_example :
    parse_udp6 (udp6 src dst 5353 53 (codes "query"))
    ≡ some (record { src = src; dst = dst; sport = 5353; dport = 53; payload = codes "query" })
parse_udp6-udp6_example =
    parse_udp6-udp6 src dst 5353 53 (codes "query") src-IsIp6 dst-IsIp6 (omega arith) (omega arith)
      (omega arith) (are_bytes-IsByte (codes "query") refl)

-- An echo request with four bytes of data.
abbrev request : Bytes
request =
    ipv6_header 12 next_header_icmpv6 64 src dst
    ++ (128 ∷ 0 ∷ 1 ∷ 2 ∷ 3 ∷ 4 ∷ 5 ∷ 6 ∷ 7 ∷ 8 ∷ 9 ∷ 10 ∷ [])

icmp_echo_reply_lem_example :
    (out : Bytes) × (icmp_echo_reply request ≡ some out)
    × (length out ≡ length request)
    × (at out 6 ≡ 58)
    × (at out 7 ≡ 64)
    × (at out 40 ≡ 129)
    × (at out 41 ≡ at request 41)
    × (transport_checksum out next_header_icmpv6 ≡ 0)
    × (slice out 8 24 ≡ slice request 24 40)
    × (slice out 24 40 ≡ slice request 8 24)
    × (drop 44 out ≡ drop 44 request)
icmp_echo_reply_lem_example =
    icmp_echo_reply_lem request (omega arith) (omega arith) (are_bytes-IsByte request refl) refl
      refl

request-IsAnswerable : IsAnswerable request
unfolding ip_equal same to4 ℕ_discrete
request-IsAnswerable = record {
  long = omega arith;
  six = refl;
  no_error = refl;
  one_host = refl;
  bytes = are_bytes-IsByte request refl;
}

icmpv6_error_lem_example :
    (length (icmpv6_error request dst 3 0 0) ≤ mtu)
    × (transport_checksum (icmpv6_error request dst 3 0 0) next_header_icmpv6 ≡ 0)
    × (parse_ipv6 (icmpv6_error request dst 3 0 0) ≡ some (src, 64))
icmpv6_error_lem_example =
    icmpv6_error_lem request dst 3 0 0 request-IsAnswerable dst-IsIp6 (omega arith) (omega arith)

-- A destination unreachable message, which no error may answer.
abbrev unreachable : Bytes
unreachable = ipv6_header 8 next_header_icmpv6 64 src dst ++ (1 ∷ replicate 7 0)

-- A SYN with an MSS of 1460.
abbrev syn_segment : Bytes
syn_segment =
    ipv6_header 24 next_header_tcp 64 src dst
    ++ (0
        ∷ 80
        ∷ 0
        ∷ 81
        ∷ (replicate 8 0 ++ (0x60 ∷ 2 ∷ 0 ∷ 0 ∷ 0 ∷ 0 ∷ 0 ∷ 0 ∷ 2 ∷ 4 ∷ 5 ∷ 0xb4 ∷ [])))

clamp_tcp_mss-Clamped_example : Clamped 1220 syn_segment (clamp_tcp_mss syn_segment 1220)
clamp_tcp_mss-Clamped_example = clamp_tcp_mss-Clamped 1220 syn_segment (omega arith)

clamped_segment : slice (clamp_tcp_mss syn_segment 1220) 60 64 ≡ 2 ∷ 4 ∷ 4 ∷ 0xc4 ∷ []
unfolding clamp_tcp_mss options_changed clamp_options
clamped_segment = refl

abbrev options : Bytes
options = 1 ∷ 2 ∷ 4 ∷ 5 ∷ 0xb4 ∷ 3 ∷ 3 ∷ 7 ∷ []
