-- ===== src/Packet/Header.antt =====
-- Reading a packet that was put together from an IPv6 header and what follows it.
use hopscotch.Common.{
  ℕ, ◌+◌, ◌≡◌, ◌++◌, length, arith, some, All, take, drop, ap, ◌∙◌, length-append, drop-append,
  take-append, All-append, get_or-append, append_assoc, ◌<◌,
}
use hopscotch.Common.Bytes.{Bytes, IsByte, slice, at}
use hopscotch.Packet.Build.{ipv6_header, parse_ipv6}

-- An IPv6 address as the packet code handles it.
abbrev pub IsIp6 : Bytes → Type 0
IsIp6 ip = (length ip ≡ 16) × All IsByte ip

module _ (plen next hop : ℕ) (src dst : Bytes) (src_ip : IsIp6 src) (dst_ip : IsIp6 dst) where
  abbrev header : Bytes
  header = ipv6_header plen next hop src dst

  pub length-header : length header ≡ 40
  length-header = omega (arith, length-append src dst)

  pub header_bytes : next < 256 → hop < 256 → All IsByte header
  header_bytes hn hh = (
    omega arith,
    (
      omega arith,
      (
        omega arith,
        (
          omega arith,
          (omega arith, (omega arith, (hn, (hh, All-append IsByte src dst src_ip.1 dst_ip.1)))),
        ),
      ),
    ),
  )

  pub length-packet : (r : Bytes) → length (header ++ r) ≡ 40 + length r
  length-packet r = omega (arith, length-append header r, length-header)

  pub at-packet : (r : Bytes) (i : ℕ) → at (header ++ r) (40 + i) ≡ at r i
  at-packet r i = get_or-append 40 header r i 0 length-header

  pub drop-packet : (r : Bytes) → drop 40 (header ++ r) ≡ r
  drop-packet r = drop-append 40 header r length-header

  pub src-packet : (r : Bytes) → slice (header ++ r) 8 24 ≡ src
  src-packet r = ap (take 16) (append_assoc src dst r) ∙ take-append 16 src (dst ++ r) src_ip.0

  pub dst-packet : (r : Bytes) → slice (header ++ r) 24 40 ≡ dst
  dst-packet r =
      ap (λ (t : Bytes). take 16 (drop 16 t)) (append_assoc src dst r)
      ∙ ap (take 16) (drop-append 16 src (dst ++ r) src_ip.0)
      ∙ take-append 16 dst r dst_ip.0

  -- The header is read back.
  pub parse_ipv6-packet : (r : Bytes) → parse_ipv6 (header ++ r) ≡ some (dst, hop)
  unfolding parse_ipv6
  parse_ipv6-packet r = rw (length-packet r, dst-packet r) (ground arith)
