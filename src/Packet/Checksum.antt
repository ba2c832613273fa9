-- ===== src/Packet/Checksum.antt =====
-- The Internet checksum of packet.go (transportChecksum, ipv4TCPChecksum). Sums are uint32.
pub mod Fold
pub mod Verify
use hopscotch.Common.{
  ℕ, zero, suc, ◌+◌, ◌-◌, ◌*◌, ◌/◌, ◌%◌, ◌^◌, List, [], ◌∷◌, ◌==◌, ltb, ◌&&◌, if◌then◌else◌, length,
  take, drop,
}
use hopscotch.Common.Bytes.{Bytes, slice}

abbrev pub next_header_tcp : ℕ
next_header_tcp = 6

abbrev pub next_header_udp : ℕ
next_header_udp = 17

abbrev pub next_header_icmpv6 : ℕ
next_header_icmpv6 = 58

abbrev pub add32 : ℕ → ℕ → ℕ
add32 a b = (a + b) % 4294967296

-- The loops `for i := …; i+1 < len; i += 2` with the odd byte at the end.
unfoldable pub sum_words : ℕ → Bytes → ℕ
sum_words sum [] = sum
sum_words sum (b ∷ []) = add32 sum (b * 256)
sum_words sum (hi ∷ lo ∷ bs) = sum_words (add32 sum (hi * 256 + lo)) bs

-- `for sum > 0xffff`, on fuel; two rounds are enough for a uint32.
unfoldable pub fold_carry : ℕ → ℕ → ℕ
fold_carry zero sum = sum
fold_carry (suc fuel) sum =
    let next = fold_carry fuel (add32 (sum % 65536) (sum / 65536)) in
    if ltb 65535 sum then next else sum

-- ^uint16(sum)
unfoldable pub complement : ℕ → ℕ
complement sum = 65535 - fold_carry 2 sum % 65536

-- The sum over the pseudo-header and the payload. The code reads pkt[8:40], so a packet has at
-- least 40 bytes wherever this is called.
unfoldable pub pseudo_sum : Bytes → ℕ → ℕ
pseudo_sum pkt proto =
    let plen = length pkt - 40 in
    let sum0 = sum_words 0 (slice pkt 8 40) in
    let sum1 = add32 (add32 (add32 sum0 (plen / 65536)) (plen % 65536)) proto in
    sum_words sum1 (drop 40 pkt)

unfoldable pub transport_checksum : Bytes → ℕ → ℕ
transport_checksum pkt proto =
    let c = complement (pseudo_sum pkt proto) in
    if proto == next_header_udp && c == 0 then 65535 else c

unfoldable pub ipv4_tcp_checksum : Bytes → ℕ → ℕ
ipv4_tcp_checksum pkt ihl =
    let tcp_len = length pkt - ihl in
    let sum0 = add32 (sum_words 0 (slice pkt 12 20)) next_header_tcp in
    let sum1 = add32 (add32 sum0 (tcp_len / 65536)) (tcp_len % 65536) in
    complement (sum_words sum1 (drop ihl pkt))
