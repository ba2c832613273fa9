-- ===== src/Packet/Build.antt =====
-- parseIPv6, parseUDP6, udp6, icmpEchoReply, icmpv6Error and ipv6ICMPEchoTrace.
pub mod Laws
pub mod Icmp
pub mod Reply
use hopscotch.Common.{
  ℕ, ◌+◌, ◌-◌, ◌*◌, ◌/◌, ◌%◌, min, Bool, true, false, not, ◌&&◌, ◌||◌, Option, none, some, List, [],
  ◌∷◌, ◌++◌, replicate, ◌==◌, ltb, leb, if◌then◌else◌, length, take, drop,
}
use hopscotch.Common.Bytes.{Bytes, at, slice, put_uint16, put_uint32, uint16}
use hopscotch.Ip.{to4, to16, ip_equal, v4_prefix}
use hopscotch.Packet.Checksum.{transport_checksum, next_header_udp, next_header_icmpv6}

abbrev pub mtu : ℕ
mtu = 1280

abbrev pub ipv6_header_len : ℕ
ipv6_header_len = 40

abbrev pub icmpv6_dest_unreach : ℕ
icmpv6_dest_unreach = 1

abbrev pub icmpv6_packet_too_big : ℕ
icmpv6_packet_too_big = 2

abbrev pub icmpv6_time_exceeded : ℕ
icmpv6_time_exceeded = 3

abbrev pub icmpv6_echo_request : ℕ
icmpv6_echo_request = 128

abbrev pub icmpv6_echo_reply : ℕ
icmpv6_echo_reply = 129

-- The 40 bytes of a header, with traffic class and flow label zero.
abbrev pub ipv6_header : ℕ → ℕ → ℕ → Bytes → Bytes → Bytes
ipv6_header plen next hop src dst =
    0x60 ∷ 0 ∷ 0 ∷ 0 ∷ (plen / 256 % 256) ∷ (plen % 256) ∷ next ∷ hop ∷ (src ++ dst)

-- pkt[0] >> 4
abbrev pub version : Bytes → ℕ
version pkt = at pkt 0 / 16

-- Destination and hop limit.
unfoldable pub parse_ipv6 : Bytes → Option (Bytes × ℕ)
parse_ipv6 pkt =
    if ltb (length pkt) ipv6_header_len || not (version pkt == 6)
    then none
    else some (slice pkt 24 40, at pkt 7)

pub record Udp : Type 0 where
  pub src : Bytes
  pub dst : Bytes
  pub sport : ℕ
  pub dport : ℕ
  pub payload : Bytes

unfoldable pub parse_udp6 : Bytes → Option Udp
parse_udp6 pkt =
    let udp_len = uint16 (at pkt 44) (at pkt 45) in
    if ltb (length pkt) 48 || (not (version pkt == 6) || not (at pkt 6 == next_header_udp))
    then none
    else if ltb udp_len 8 || ltb (length pkt) (ipv6_header_len + udp_len)
    then none
    else some (record {
      src = slice pkt 8 24;
      dst = slice pkt 24 40;
      sport = uint16 (at pkt 40) (at pkt 41);
      dport = uint16 (at pkt 42) (at pkt 43);
      payload = slice pkt 48 (40 + udp_len);
    })

-- The packet with `sum` in its checksum field.
abbrev pub udp6_with : ℕ → Bytes → Bytes → ℕ → ℕ → Bytes → Bytes
udp6_with sum src dst sport dport payload =
    let udp_len = 8 + length payload in
    ipv6_header udp_len next_header_udp 64 src dst
    ++ ((sport / 256 % 256)
        ∷ (sport % 256)
        ∷ (dport / 256 % 256)
        ∷ (dport % 256)
        ∷ (udp_len / 256 % 256)
        ∷ (udp_len % 256)
        ∷ (sum / 256 % 256)
        ∷ (sum % 256)
        ∷ payload)

-- `[]` is nil: an address was neither of 4 nor of 16 bytes.
unfoldable pub udp6 : Bytes → Bytes → ℕ → ℕ → Bytes → Bytes
udp6 src dst sport dport payload =
    let src16 = to16 src in
    let dst16 = to16 dst in
    let blank = udp6_with 0 src16 dst16 sport dport payload in
    if length src16 == 0 || length dst16 == 0
    then []
    else udp6_with (transport_checksum blank next_header_udp) src16 dst16 sport dport payload

-- The echo reply to `pkt` with `sum` in its checksum field.
abbrev pub echo_reply_with : ℕ → Bytes → Bytes
echo_reply_with sum pkt =
    (take 7 pkt ++ (64 ∷ (slice pkt 24 40 ++ slice pkt 8 24)))
    ++ (icmpv6_echo_reply ∷ at pkt 41 ∷ (sum / 256 % 256) ∷ (sum % 256) ∷ drop 44 pkt)

unfoldable pub icmp_echo_reply : Bytes → Option Bytes
icmp_echo_reply pkt =
    if ltb (length pkt) 48
      || (not (at pkt 6 == next_header_icmpv6) || not (at pkt 40 == icmpv6_echo_request))
    then none
    else some (echo_reply_with (transport_checksum (echo_reply_with 0 pkt) next_header_icmpv6) pkt)

-- net.IP's IsUnspecified and IsMulticast.
abbrev pub is_unspecified : Bytes → Bool
is_unspecified ip = ip_equal ip (v4_prefix ++ replicate 4 0) || ip_equal ip (replicate 16 0)

abbrev pub is_multicast : Bytes → Bool
is_multicast ip =
    let v4 = to4 ip in
    if length v4 == 4 then at v4 0 / 16 == 14 else length ip == 16 && at ip 0 == 255

abbrev pub icmpv6_error_with : ℕ → Bytes → Bytes → ℕ → ℕ → ℕ → Bytes
icmpv6_error_with sum pkt src typ code param =
    let as_much = min (length pkt) (mtu - ipv6_header_len - 8) in
    ipv6_header (8 + as_much) next_header_icmpv6 64 src (slice pkt 8 24)
    ++ (typ ∷ code ∷ (sum / 256 % 256) ∷ (sum % 256) ∷ (put_uint32 param ++ take as_much pkt))

-- `[]` is nil. (mtu - 48 is above 40, so the code's test of that never fires.)
unfoldable pub icmpv6_error : Bytes → Bytes → ℕ → ℕ → ℕ → Bytes
icmpv6_error pkt src typ code param =
    let src16 = to16 src in
    let blank = icmpv6_error_with 0 pkt src16 typ code param in
    if length src16 == 0 || (ltb (length pkt) ipv6_header_len || not (version pkt == 6))
    then []
    else if at pkt 6 == next_header_icmpv6
        && (ltb ipv6_header_len (length pkt) && ltb (at pkt 40) 128)
    then []
    else if is_unspecified (slice pkt 8 24) || is_multicast (slice pkt 8 24)
    then []
    else icmpv6_error_with (transport_checksum blank next_header_icmpv6) pkt src16 typ code param

abbrev pub echo_trace_with : ℕ → Bytes → Bytes → ℕ → ℕ → Bytes
echo_trace_with sum src dst hop seq =
    ipv6_header 16 next_header_icmpv6 hop src dst
    ++ (icmpv6_echo_request
        ∷ 0
        ∷ (sum / 256 % 256)
        ∷ (sum % 256)
        ∷ 0x74
        ∷ 0x72
        ∷ (seq / 256 % 256)
        ∷ (seq % 256)
        ∷ replicate 8 0)

-- The addresses come from NodeID.ULA and ResolveULA, so they have 16 bytes.
unfoldable pub ipv6_icmp_echo_trace : Bytes → Bytes → ℕ → ℕ → Bytes
ipv6_icmp_echo_trace src dst hop seq =
    let src16 = to16 src in
    let dst16 = to16 dst in
    let blank = echo_trace_with 0 src16 dst16 hop seq in
    echo_trace_with (transport_checksum blank next_header_icmpv6) src16 dst16 hop seq
