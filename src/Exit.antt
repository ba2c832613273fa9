-- ===== src/Exit.antt =====
-- internal/node/exit.go and the client table of exit_egress.go: the tunnel between an exit and its
-- clients. The mutex around the table is left out: it is held for one operation at a time.
pub mod Tunnel
pub mod Clients
mod Tests
use hopscotch.Common.{
  ℕ, ◌+◌, ◌*◌, ◌/◌, ◌%◌, Bool, true, false, not, ◌&&◌, ◌||◌, Option, none, some, List, [], ◌∷◌,
  ◌++◌, ◌==◌, ltb, if◌then◌else◌, length, take, drop,
}
use hopscotch.Common.Bytes.{Bytes, at, slice, same}
use hopscotch.Common.Maps.{Assoc, lookup, insert}
use hopscotch.Ip.{to16, ip_equal, ip_string, v4_prefix}
use hopscotch.Identity.Address.{is_mesh_ula}
use hopscotch.Packet.Build.{ipv6_header, version, parse_ipv6}

abbrev pub next_header_ipv4 : ℕ
next_header_ipv4 = 4

abbrev pub next_header_ipv6 : ℕ
next_header_ipv6 = 41

-- The CGNAT address of the bytes 13, 14 and 15 of an address.
abbrev pub plumbing_of : ℕ → ℕ → ℕ → Bytes
plumbing_of u13 u14 u15 =
    v4_prefix ++ (100 ∷ (64 + u13 % 64) ∷ u14 ∷ (if u15 == 0 then 1 else u15) ∷ [])

-- nil is `[]`.
unfoldable pub plumbing_ipv4 : Bytes → Bytes
plumbing_ipv4 ula =
    let u = to16 ula in if length u == 0 then [] else plumbing_of (at u 13) (at u 14) (at u 15)

-- The next header for an inner packet of a version.
abbrev pub inner_header : ℕ → Option ℕ
inner_header ver =
    if ver == 4 then some next_header_ipv4 else if ver == 6 then some next_header_ipv6 else none

-- nil is `[]`.
unfoldable pub encapsulate_exit : Bytes → Bytes → Bytes → Bytes
encapsulate_exit src_ula dst_ula inner =
    let src = to16 src_ula in
    let dst = to16 dst_ula in
    if ltb (length inner) 1
    then []
    else if length src == 0 || length dst == 0
    then []
    else elim (inner_header (version inner)) [
      | none ↦ []
      | some nh ↦ ipv6_header (length inner) nh 64 src dst ++ inner
    ]

-- The client and the inner packet.
unfoldable pub decapsulate_exit : Bytes → Bytes → Option (Bytes × Bytes)
decapsulate_exit pkt our_ula = elim (parse_ipv6 pkt) [
  | none ↦ none
  | some (dst, _) ↦
      let nh = at pkt 6 in
      let src = slice pkt 8 24 in
      let inner = drop 40 pkt in
      if not (ip_equal dst our_ula) || ltb (length pkt) 40
      then none
      else if not (nh == next_header_ipv4) && not (nh == next_header_ipv6)
      then none
      else if not (is_mesh_ula src) || ltb (length inner) 1
      then none
      else if (nh == next_header_ipv4 && not (version inner == 4))
          || (nh == next_header_ipv6 && not (version inner == 6))
      then none
      else some (src, inner)
]

-- map[string]net.IP, of the clients by the text of their plumbing address.
abbrev pub Clients : Type 0
Clients = Assoc Bytes Bytes

unfoldable pub remember_exit_client : Bytes → Clients → Clients
remember_exit_client client_ula clients =
    insert same (ip_string (plumbing_ipv4 client_ula)) (to16 client_ula) clients

unfoldable pub client_ula_for_plumbing : Bytes → Clients → Option Bytes
client_ula_for_plumbing ip clients = lookup same (ip_string ip) clients
