-- ===== src/Packet/Mss.antt =====
-- clampTCPMSS, clampIPv4TCPMSS and clampInnerTCPMSS of packet.go. The loop over TCP options is a
-- recursion on the bytes from `i` up to `end`; a copy made before the first write is the new list.
pub mod Options
pub mod Rebuilt
pub mod Segment
use hopscotch.Common.{
  ℕ, zero, suc, ◌+◌, ◌-◌, ◌*◌, ◌/◌, ◌%◌, Bool, true, false, not, ◌&&◌, ◌||◌, List, [], ◌∷◌, ◌++◌,
  ◌==◌, ltb, if◌then◌else◌, length, take, drop,
}
use hopscotch.Common.Bytes.{Bytes, at, slice, uint16}
use hopscotch.Packet.Checksum.{transport_checksum, ipv4_tcp_checksum, next_header_tcp}
use hopscotch.Packet.Build.{mtu, ipv6_header_len}

abbrev pub tcp_header_min : ℕ
tcp_header_min = 20

abbrev pub tcp_opt_mss : ℕ
tcp_opt_mss = 2

-- tcpMSS and innerTCPMSS
abbrev pub tcp_mss : ℕ
tcp_mss = mtu - ipv6_header_len - tcp_header_min

abbrev pub inner_tcp_mss : ℕ
inner_tcp_mss = mtu - ipv6_header_len - 20 - tcp_header_min

-- pkt[i]&tcpFlagSYN, for tcpFlagSYN = 0x02
abbrev pub syn : ℕ → ℕ
syn flags = flags / 2 % 2

-- The value of an MSS option.
abbrev pub clamp_value : ℕ → ℕ → ℕ → Bytes
clamp_value mss hi lo =
    if ltb mss (uint16 hi lo) then (mss / 256 % 256) ∷ (mss % 256) ∷ [] else hi ∷ lo ∷ []

-- One option behind its two first bytes: its body, and what follows it.
abbrev clamp_body : ℕ → ℕ → ℕ → Bytes → Bytes
clamp_body mss kind l body =
    if kind == tcp_opt_mss && l == 4
    then clamp_value mss (at body 0) (at body 1)
    else take (l - 2) body

-- The options, rewritten. Each round takes a byte at least, so their number is fuel enough.
unfoldable pub clamp_options : ℕ → ℕ → Bytes → Bytes
clamp_options mss zero opts = opts
clamp_options mss (suc fuel) [] = []
clamp_options mss (suc fuel) (kind ∷ []) = kind ∷ []
clamp_options mss (suc fuel) (kind ∷ l ∷ body) =
    let after_pad = clamp_options mss fuel (l ∷ body) in
    let after_option = clamp_options mss fuel (drop (l - 2) body) in
    if kind == 0
    then kind ∷ l ∷ body
    else if kind == 1
    then kind ∷ after_pad
    else if ltb l 2 || ltb (length body + 2) l
    then kind ∷ l ∷ body
    else kind ∷ l ∷ (clamp_body mss kind l body ++ after_option)

-- The code's `changed`: whether an option was rewritten.
unfoldable pub options_changed : ℕ → ℕ → Bytes → Bool
options_changed mss zero opts = false
options_changed mss (suc fuel) [] = false
options_changed mss (suc fuel) (kind ∷ []) = false
options_changed mss (suc fuel) (kind ∷ l ∷ body) =
    let after_pad = options_changed mss fuel (l ∷ body) in
    let after_option = options_changed mss fuel (drop (l - 2) body) in
    if kind == 0
    then false
    else if kind == 1
    then after_pad
    else if ltb l 2 || ltb (length body + 2) l
    then false
    else (kind == tcp_opt_mss && (l == 4 && ltb mss (uint16 (at body 0) (at body 1))))
      || after_option

-- The segment with its options rewritten, from the place `tcp` of its TCP header with `doff` bytes,
-- and `sum` in its checksum field.
abbrev pub rebuilt : ℕ → ℕ → ℕ → ℕ → Bytes → Bytes
rebuilt mss tcp doff sum pkt =
    take (tcp + 16) pkt
    ++ ((sum / 256 % 256)
        ∷ (sum % 256)
        ∷ (slice pkt (tcp + 18) (tcp + 20)
            ++ (clamp_options mss doff (slice pkt (tcp + 20) (tcp + doff))
                ++ drop (tcp + doff) pkt)))

unfoldable pub clamp_tcp_mss : Bytes → ℕ → Bytes
clamp_tcp_mss pkt mss =
    let doff = at pkt 52 / 16 * 4 in
    let opts = slice pkt 60 (40 + doff) in
    if ltb (length pkt) 60 || not (at pkt 6 == next_header_tcp)
    then pkt
    else if ltb doff tcp_header_min || ltb (length pkt) (ipv6_header_len + doff)
    then pkt
    else if syn (at pkt 53) == 0
    then pkt
    else if options_changed mss doff opts
    then rebuilt mss 40 doff (transport_checksum (rebuilt mss 40 doff 0 pkt) next_header_tcp) pkt
    else pkt

unfoldable pub clamp_ipv4_tcp_mss : Bytes → ℕ → Bytes
clamp_ipv4_tcp_mss pkt mss =
    let ihl = at pkt 0 % 16 * 4 in
    let doff = at pkt (ihl + 12) / 16 * 4 in
    let opts = slice pkt (ihl + tcp_header_min) (ihl + doff) in
    if ltb (length pkt) 20
    then pkt
    else if ltb ihl 20
        || (ltb (length pkt) (ihl + tcp_header_min) || not (at pkt 9 == next_header_tcp))
    then pkt
    else if syn (at pkt (ihl + 13)) == 0
    then pkt
    else if ltb doff tcp_header_min || ltb (length pkt) (ihl + doff)
    then pkt
    else if options_changed mss doff opts
    then rebuilt mss ihl doff (ipv4_tcp_checksum (rebuilt mss ihl doff 0 pkt) ihl) pkt
    else pkt

unfoldable pub clamp_inner_tcp_mss : Bytes → ℕ → Bytes
clamp_inner_tcp_mss [] mss = []
clamp_inner_tcp_mss (b ∷ bs) mss =
    let ver = b / 16 in
    if ver == 6
    then clamp_tcp_mss (b ∷ bs) mss
    else if ver == 4
    then clamp_ipv4_tcp_mss (b ∷ bs) mss
    else b ∷ bs
