-- ===== src/Packet/Build/Laws.antt =====
-- The packets that the node builds: they parse back, verify, and keep to the MTU.
use hopscotch.Common.{
  ℕ, ◌+◌, ◌-◌, ◌/◌, ◌%◌, ◌≡◌, ◌≤◌, ◌<◌, refl, [], ◌∷◌, length, arith, All, take, drop, replicate,
  ap, sym, ◌∙◌, length-drop, drop-drop, take_all, some,
}
use hopscotch.Common.Bytes.{Bytes, IsByte, slice, at, uint16, uint16-put}
use mathlib.Core.Path.{ap₂}
use hopscotch.Ip.{to16}
use hopscotch.Packet.Checksum.{transport_checksum, next_header_udp, next_header_icmpv6}
use hopscotch.Packet.Checksum.Verify.{transport_checksum_filled, transport_checksum_filled_udp}
use hopscotch.Packet.Header.{
  IsIp6, length-header, header_bytes, length-packet, at-packet, drop-packet, src-packet, dst-packet,
  parse_ipv6-packet,
}
use hopscotch.Packet.Build.{
  ipv6_header, version, parse_ipv6, parse_udp6, udp6, udp6_with, icmpv6_echo_request,
  echo_trace_with, ipv6_icmp_echo_trace,
}

pub to16_fixed : (ip : Bytes) → length ip ≡ 16 → to16 ip ≡ ip
unfolding to16
to16_fixed ip h = ground arith

-- What parseUDP6 reads, of a packet whose fields are known.
parse_udp6_fields :
    (pkt src dst r : Bytes)
    → length pkt ≡ 40 + length r
    → 8 ≤ length r
    → version pkt ≡ 6
    → at pkt 6 ≡ next_header_udp
    → uint16 (at pkt 44) (at pkt 45) ≡ length r
    → slice pkt 8 24 ≡ src
    → slice pkt 24 40 ≡ dst
    → drop 40 pkt ≡ r
    → parse_udp6 pkt
      ≡ some (record {
        src = src;
        dst = dst;
        sport = uint16 (at pkt 40) (at pkt 41);
        dport = uint16 (at pkt 42) (at pkt 43);
        payload = drop 8 r;
      })
unfolding parse_udp6
parse_udp6_fields pkt src dst r len enough ver next udp_len s d rest =
    let payload : slice pkt 48 (40 + length r) ≡ drop 8 r =
      ap (take (40 + length r - 48)) (sym (drop-drop 8 40 pkt) ∙ ap (drop 8) rest)
      ∙ take_all (40 + length r - 48) (drop 8 r) (omega (arith, length-drop 8 r)) in
    rw (udp_len, s, d, payload) (ground arith)

module _ (src dst : Bytes) (sport dport : ℕ) (payload : Bytes) (src_ip : IsIp6 src)
    (dst_ip : IsIp6 dst) (sport_fits : sport < 65536) (dport_fits : dport < 65536)
    (fits : length payload < 65000) (bytes : All IsByte payload) where
  udp6_built :
      udp6 src dst sport dport payload
      ≡ udp6_with
          (transport_checksum (udp6_with 0 src dst sport dport payload) next_header_udp)
          src
          dst
          sport
          dport
          payload
  unfolding udp6
  udp6_built = rw (to16_fixed src src_ip.0, to16_fixed dst dst_ip.0, src_ip.0, dst_ip.0)

  udp_fields : ℕ → Bytes
  udp_fields sum =
      (sport / 256 % 256)
      ∷ (sport % 256)
      ∷ (dport / 256 % 256)
      ∷ (dport % 256)
      ∷ ((8 + length payload) / 256 % 256)
      ∷ ((8 + length payload) % 256)
      ∷ (sum / 256 % 256)
      ∷ (sum % 256)
      ∷ payload

  parse_udp6_with :
      (sum : ℕ)
      → parse_udp6 (udp6_with sum src dst sport dport payload)
        ≡ some (record { src = src; dst = dst; sport = sport; dport = dport; payload = payload })
  unfolding udp_fields
  parse_udp6_with sum =
      let plen = 8 + length payload in
      let r = udp_fields sum in
      let reads = at-packet plen next_header_udp 64 src dst src_ip dst_ip r in
      parse_udp6_fields (udp6_with sum src dst sport dport payload) src dst r
        (length-packet plen next_header_udp 64 src dst src_ip dst_ip r) (omega arith) refl refl
        (ap₂ uint16 (reads 4) (reads 5) ∙ omega arith)
        (src-packet plen next_header_udp 64 src dst src_ip dst_ip r)
        (dst-packet plen next_header_udp 64 src dst src_ip dst_ip r)
        (drop-packet plen next_header_udp 64 src dst src_ip dst_ip r)
      ∙ ap₂
          (λ (a b : ℕ).
            some (record { src = src; dst = dst; sport = a; dport = b; payload = payload }))
          (ap₂ uint16 (reads 0) (reads 1) ∙ uint16-put sport sport_fits)
          (ap₂ uint16 (reads 2) (reads 3) ∙ uint16-put dport dport_fits)

  -- The node parses the UDP packets that it builds to the parts they were built from, for addresses
  -- of 16 bytes, ports below 65536, and a payload shorter than 65000 bytes.
  pub parse_udp6-udp6 :
      parse_udp6 (udp6 src dst sport dport payload)
      ≡ some (record { src = src; dst = dst; sport = sport; dport = dport; payload = payload })
  parse_udp6-udp6 = ap parse_udp6 udp6_built ∙ parse_udp6_with _

  ports : Bytes
  ports =
      (sport / 256 % 256)
      ∷ (sport % 256)
      ∷ (dport / 256 % 256)
      ∷ (dport % 256)
      ∷ ((8 + length payload) / 256 % 256)
      ∷ ((8 + length payload) % 256)
      ∷ []

  -- The checksum of a UDP packet that the node builds verifies, for addresses of 16 bytes, ports
  -- below 65536, and a payload shorter than 65000 bytes: computed over the packet with its checksum
  -- in place it is 0, which is written 0xffff.
  pub transport_checksum-udp6 :
      transport_checksum (udp6 src dst sport dport payload) next_header_udp ≡ 65535
  unfolding ports
  transport_checksum-udp6 =
      ap (λ (p : Bytes). transport_checksum p next_header_udp) udp6_built
      ∙ transport_checksum_filled_udp (ipv6_header (8 + length payload) next_header_udp 64 src dst)
          ports payload next_header_udp
          (length-header (8 + length payload) next_header_udp 64 src dst src_ip dst_ip) tt
          (omega arith)
          (header_bytes (8 + length payload) next_header_udp 64 src dst src_ip dst_ip (omega arith)
            (omega arith))
          (omega arith) bytes (omega arith) refl

-- The echo that traceroute sends.
module _ (src dst : Bytes) (hop seq : ℕ) (src_ip : IsIp6 src) (dst_ip : IsIp6 dst)
    (hop_fits : hop < 256) where
  echo_trace_built :
      ipv6_icmp_echo_trace src dst hop seq
      ≡ echo_trace_with
          (transport_checksum (echo_trace_with 0 src dst hop seq) next_header_icmpv6)
          src
          dst
          hop
          seq
  unfolding ipv6_icmp_echo_trace
  echo_trace_built = rw (to16_fixed src src_ip.0, to16_fixed dst dst_ip.0)

  -- A traceroute probe between addresses of 16 bytes verifies, and is read with its destination and
  -- its hop limit.
  pub ipv6_icmp_echo_trace_lem :
      (transport_checksum (ipv6_icmp_echo_trace src dst hop seq) next_header_icmpv6 ≡ 0)
      × (parse_ipv6 (ipv6_icmp_echo_trace src dst hop seq) ≡ some (dst, hop))
  ipv6_icmp_echo_trace_lem = (
    ap (λ (p : Bytes). transport_checksum p next_header_icmpv6) echo_trace_built
        ∙ transport_checksum_filled (ipv6_header 16 next_header_icmpv6 hop src dst)
            (icmpv6_echo_request ∷ 0 ∷ [])
            (0x74 ∷ 0x72 ∷ (seq / 256 % 256) ∷ (seq % 256) ∷ replicate 8 0) next_header_icmpv6
            (length-header 16 next_header_icmpv6 hop src dst src_ip dst_ip) tt (omega arith)
            (header_bytes 16 next_header_icmpv6 hop src dst src_ip dst_ip (omega arith) hop_fits)
            (omega arith) (omega arith) (omega arith) refl,
    ap parse_ipv6 echo_trace_built
        ∙ parse_ipv6-packet 16 next_header_icmpv6 hop src dst src_ip dst_ip _,
  )
