-- ===== src/Exit/Tunnel.antt =====
-- What goes into the tunnel comes out of it.
use hopscotch.Common.{
  ℕ, ◌≡◌, ◌≤◌, ◌⊎◌, inl, inr, refl, ap, ◌∙◌, true, false, ◌&&◌, ◌||◌, some, ◌++◌, ◌==◌, ltb, length,
  arith, Bool-cases, Option-cases,
}
use hopscotch.Common.Bytes.{Bytes}
use hopscotch.Ip.{ip_equal}
use hopscotch.Identity.Address.{is_mesh_ula}
use hopscotch.Packet.Build.{ipv6_header, version, parse_ipv6}
use hopscotch.Packet.Build.Laws.{to16_fixed}
use hopscotch.Packet.Header.{IsIp6, parse_ipv6-packet, src-packet, drop-packet, length-packet}
use hopscotch.Exit.{
  encapsulate_exit, decapsulate_exit, inner_header, next_header_ipv4, next_header_ipv6,
}

pub ip_equal_self : (ip : Bytes) → ip_equal ip ip ≡ true
unfolding ip_equal
ip_equal_self ip = ground arith

module _ (src dst inner : Bytes) (src_ip : IsIp6 src) (dst_ip : IsIp6 dst)
    (some_inner : 1 ≤ length inner) where
  built :
      (nh : ℕ)
      → inner_header (version inner) ≡ some nh
      → encapsulate_exit src dst inner ≡ ipv6_header (length inner) nh 64 src dst ++ inner
  unfolding encapsulate_exit
  built nh e =
      let some_bytes : ltb (length inner) 1 ≡ false = ground arith in
      rw (some_bytes, e, to16_fixed src src_ip.0, to16_fixed dst dst_ip.0, src_ip.0, dst_ip.0)

  unwrapped :
      (nh : ℕ)
      → is_mesh_ula src ≡ true
      → ((nh == next_header_ipv4) && (version inner == 4))
          || ((nh == next_header_ipv6) && (version inner == 6))
        ≡ true
      → decapsulate_exit (ipv6_header (length inner) nh 64 src dst ++ inner) dst ≡ some (src, inner)
  unfolding decapsulate_exit
  unwrapped nh mesh ver =
      let long = length-packet (length inner) nh 64 src dst src_ip dst_ip inner in
      rw
        (
          parse_ipv6-packet (length inner) nh 64 src dst src_ip dst_ip inner,
          src-packet (length inner) nh 64 src dst src_ip dst_ip inner,
          drop-packet (length inner) nh 64 src dst src_ip dst_ip inner,
          ip_equal_self dst,
          mesh,
          decapsulate_exit,
        )
        (ground (arith, long))

  -- A nonempty packet of IP version 4 or 6 that a node with a mesh address wraps for `dst` is
  -- unwrapped there, with the address of that node; both addresses have 16 bytes.
  pub decapsulate_exit-encapsulate_exit :
      is_mesh_ula src ≡ true
      → (version inner ≡ 4) ⊎ (version inner ≡ 6)
      → decapsulate_exit (encapsulate_exit src dst inner) dst ≡ some (src, inner)
  decapsulate_exit-encapsulate_exit mesh ver = elim ver [
    | inl v4 ↦
        rw (built next_header_ipv4 (rw v4 refl)) (unwrapped next_header_ipv4 mesh (rw v4 refl))
    | inr v6 ↦
        rw (built next_header_ipv6 (rw v6 refl)) (unwrapped next_header_ipv6 mesh (rw v6 refl))
  ]

-- Whatever is wrapped for `dst` is a packet for `dst`, with a hop limit of 64.
pub parse_ipv6-encapsulate_exit :
    (src dst inner : Bytes)
    → IsIp6 src
    → IsIp6 dst
    → (length (encapsulate_exit src dst inner) == 0) ≡ false
    → parse_ipv6 (encapsulate_exit src dst inner) ≡ some (dst, 64)
unfolding encapsulate_exit
parse_ipv6-encapsulate_exit src dst inner src_ip dst_ip full =
    elim (Bool-cases (ltb (length inner) 1)) [
      | inl short ↦ absurd (ground (arith, rw (short, encapsulate_exit) at full))
      | inr some_inner ↦ elim (Option-cases (inner_header (version inner))) [
        | inl bad ↦ absurd (ground (arith, full, some_inner, bad))
        | inr (nh, good) ↦
            ap parse_ipv6 (built src dst inner src_ip dst_ip (ground arith) nh good)
            ∙ parse_ipv6-packet (length inner) nh 64 src dst src_ip dst_ip inner
      ]
    ]
