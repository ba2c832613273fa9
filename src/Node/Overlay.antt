-- ===== src/Node/Overlay.antt =====
-- internal/node/packet.go and exit_egress.go: the handlers of overlay packets.
-- QUIC and the DNS message format are parameters: what a datagram's sending returns, whether a
-- session's queue for streams takes a packet, and the body that answers a query.
pub mod Hops
pub mod Rounds
mod Tests
use hopscotch.Common.{
  ℕ, zero, suc, ◌+◌, ◌-◌, ◌/◌, Bool, true, false, not, ◌&&◌, ◌||◌, Option, none, some, List, [],
  ◌∷◌, ◌++◌, ite, ltb, leb, ◌==◌, if◌then◌else◌, length, set,
}
use hopscotch.Common.Bytes.{Bytes, same, codes, slice, at}
use hopscotch.Ip.{ip_equal}
use hopscotch.Identity.Address.{ula, is_mesh_ula, resolver_ula, is_resolver_ula}
use hopscotch.Identity.Names
use hopscotch.Session.{Session, session_list, session_by_name, has_name}
use hopscotch.Packet.Build.{
  mtu, ipv6_header_len, version, parse_ipv6, parse_udp6, udp6, icmp_echo_reply, icmpv6_error,
  icmpv6_dest_unreach, icmpv6_packet_too_big, icmpv6_time_exceeded,
}
use hopscotch.Packet.Mss.{tcp_mss, inner_tcp_mss, clamp_tcp_mss, clamp_inner_tcp_mss}
use hopscotch.Exit.{
  plumbing_ipv4, encapsulate_exit, decapsulate_exit, remember_exit_client, client_ula_for_plumbing,
}
use hopscotch.Node.{Node, Effect}
use hopscotch.Node.Routing.{next_hop}

-- An error of a write: *quic.DatagramTooLargeError with its MaxDatagramPayloadSize (0 for one that
-- is not positive), the text "datagram support disabled", or another.
pub data WriteError : Type 0 where
  too_large : ℕ → WriteError
  disabled other : WriteError

pub data Queue : Type 0 where
  no_queue full free : Queue

pub record Network : Type 0 where
  -- s.conn != nil
  pub connected : Session → Bool
  -- s.conn.SendDatagram(pkt); nil is `none`
  pub datagram : Session → Bytes → Option WriteError
  -- s.uniQ
  pub queue : Session → Queue
  -- dns.Reply(query, lookup); nil is `[]`
  pub answer : Bytes → (Bytes → Bytes) → Bytes

abbrev pub overlay_max : ℕ
overlay_max = mtu + ipv6_header_len

abbrev pub dns_port : ℕ
dns_port = 53

abbrev pub datagram_fallback : WriteError → Bool
datagram_fallback (too_large m) = true
datagram_fallback disabled = true
datagram_fallback other = false

-- The part of writePacket behind the datagram.
abbrev pub write_stream : Network → Session → Bytes → List Effect × Option WriteError
write_stream net s pkt = elim (net.queue s) [
  | no_queue ↦ ([], some other)
  | full ↦ ([], some (too_large mtu))
  | free ↦ (Effect.queue_packet s pkt ∷ [], none)
]

unfoldable pub write_packet : Network → Session → Bytes → List Effect × Option WriteError
write_packet net s pkt =
    if not (net.connected s)
    then ([], some other)
    else if length pkt == 0
    then ([], some other)
    else if ltb overlay_max (length pkt)
    then ([], some (too_large mtu))
    else if ltb mtu (length pkt)
    then write_stream net s pkt
    else elim (net.datagram s pkt) [
      | none ↦ (Effect.send_packet s pkt ∷ [], none)
      | some e ↦ if datagram_fallback e then write_stream net s pkt else ([], some e)
    ]

unfoldable pub deliver_stack : Node → Bytes → List Effect
deliver_stack n pkt = if n.stack then Effect.inject pkt ∷ [] else []

abbrev pub write_tun : Node → Bytes → List Effect
write_tun n pkt = if n.tun then Effect.write_tun pkt ∷ [] else []

unfoldable pub deliver_tun : Node → Bytes → List Effect
unfolding deliver_stack
deliver_tun n pkt = Effect.tap_packet pkt ∷ (deliver_stack n pkt ++ write_tun n pkt)

unfoldable pub deliver_tun_raw : Node → Bytes → List Effect
deliver_tun_raw n pkt = Effect.tap_packet pkt ∷ write_tun n pkt

-- nil is `[]`.
unfoldable pub overlay_ip : Node → Bytes → Bytes
overlay_ip n raw =
    let name = Names.to_lower raw in
    ite (same name (codes "dns")) resolver_ula (
      if has_name n.names name
      then ula n.id
      else elim (session_by_name n.sessions name) [ none ↦ [] | some s ↦ ula s.id ])

unfoldable pub resolved_exit_ula : Node → Node × Bytes
resolved_exit_ula n =
    ite (same n.exit_ula [])
      (ite (same n.exit_node []) (n, [])
        (elim (Names.parse_name n.exit_node) [
          | Names.err _ ↦ (n, [])
          | Names.ok name ↦ (record n { exit_ula = overlay_ip n name }, overlay_ip n name)
        ]))
      (n, n.exit_ula)

-- nil is `[]`.
unfoldable pub dns_reply : Network → Node → Bytes → Bytes
dns_reply net n pkt = elim (parse_udp6 pkt) [
  | none ↦ []
  | some u ↦
      let body = net.answer u.payload (overlay_ip n) in
      if not (u.dport == dns_port)
      then []
      else if length body == 0
      then []
      else udp6 u.dst u.src u.dport u.sport body
]

unfoldable pub send_icmp_error : Network → Node → Option Session → Bytes → ℕ → ℕ → ℕ → List Effect
unfolding deliver_tun
send_icmp_error net n from pkt typ code param =
    let reply = icmpv6_error pkt (ula n.id) typ code param in
    if length reply == 0
    then []
    else elim from [ none ↦ deliver_tun n reply | some s ↦ (write_packet net s reply).0 ]

unfoldable pub send_packet_too_big :
    Network → Node → Option Session → Bytes → WriteError → List Effect
unfolding send_icmp_error
send_packet_too_big net n from pkt (too_large m) =
    send_icmp_error net n from pkt icmpv6_packet_too_big 0 (if ltb 0 m && ltb m mtu then m else mtu)
send_packet_too_big net n from pkt disabled = []
send_packet_too_big net n from pkt other = []

-- egressExit, with writeExitEgress as on Linux: the packet is written to the TUN.
unfoldable pub egress_exit : Node → Bytes → Bytes → Node × List Effect
egress_exit n client_ula inner = if length inner == 0 || length client_ula == 0 then (n, []) else (
  record n { exit_clients = remember_exit_client client_ula n.exit_clients },
  write_tun n inner,
)

-- The tunnel's end, at the start of handleIPv6: `none` where the code goes on.
unfoldable pub tunnel_end : Node → Bytes → Bytes → Option (Node × List Effect)
unfolding egress_exit deliver_tun_raw
tunnel_end n pkt dst =
    if ip_equal dst (ula n.id)
    then elim (decapsulate_exit pkt (ula n.id)) [
      | none ↦ none
      | some (client_ula, inner) ↦
          if n.exit
          then some (egress_exit n client_ula inner)
          else if not (length n.exit_node == 0)
          then some (n, deliver_tun_raw n inner)
          else none
    ]
    else none

-- A packet for the resolver.
unfoldable pub to_resolver : Network → Node → Option Session → Bytes → List Effect
unfolding deliver_tun
to_resolver net n (some from) pkt = []
to_resolver net n none pkt =
    let reply = dns_reply net n pkt in if length reply == 0 then [] else deliver_tun n reply

-- A packet for the node itself.
unfoldable pub to_self : Network → Node → Option Session → Bytes → List Effect
to_self net n none pkt = []
to_self net n (some from) pkt =
    Effect.tap_packet pkt
    ∷ (if n.stack
        then Effect.inject pkt ∷ []
        else if n.tun
        then Effect.write_tun pkt ∷ []
        else elim (icmp_echo_reply pkt) [
          | none ↦ []
          | some reply ↦ (write_packet net from reply).0
        ])

-- The last part of handleIPv6: the hop limit is settled.
unfoldable pub send_on : Network → Node → Option Session → Bytes → Bytes → List Effect
unfolding send_icmp_error
send_on net n from pkt dst =
    let clamped = clamp_tcp_mss pkt tcp_mss in
    elim (next_hop n dst from) [
      | none ↦ send_icmp_error net n from clamped icmpv6_dest_unreach 0 0
      | some next ↦ elim (write_packet net next clamped).1 [
        | none ↦ (write_packet net next clamped).0
        | some e ↦ (write_packet net next clamped).0 ++ send_packet_too_big net n from clamped e
      ]
    ]

-- pkt[7]--
abbrev pub decrement : Bytes → Bytes
decrement pkt = set pkt 7 (at pkt 7 - 1)

unfoldable pub forward : Network → Node → Option Session → Bytes → Bytes → ℕ → List Effect
unfolding send_icmp_error
forward net n none pkt dst hop = send_on net n none pkt dst
forward net n (some from) pkt dst hop =
    if leb hop 1
    then send_icmp_error net n (some from) pkt icmpv6_time_exceeded 0 0
    else send_on net n (some from) (decrement pkt) dst

-- A packet for a mesh address.
unfoldable pub to_mesh : Network → Node → Option Session → Bytes → Bytes → ℕ → List Effect
unfolding to_resolver to_self forward
to_mesh net n from pkt dst hop =
    if is_resolver_ula dst
    then to_resolver net n from pkt
    else if ip_equal dst (ula n.id)
    then to_self net n from pkt
    else forward net n from pkt dst hop

-- The part of handleExitFromTUN before it hands the outer packet to handleIPv6; nil is `[]`.
unfoldable pub wrapped : Node → Bytes → Node × Bytes
wrapped n pkt =
    let (n', exit_ula) = resolved_exit_ula n in
    (
      n',
      ite (same exit_ula []) []
          (encapsulate_exit (ula n.id) exit_ula (clamp_inner_tcp_mss pkt inner_tcp_mss)),
    )

abbrev is_local : Option Session → Bool
is_local none = true
is_local (some s) = false

-- A packet for no mesh address is wrapped, and the outer packet handled in its place: one round
-- more, as the exit's address lies in the mesh.
unfoldable pub handle_ipv6 : ℕ → Network → Node → Option Session → Bytes → Node × List Effect
handle_ipv6 zero net n from pkt = (n, [])
handle_ipv6 (suc fuel) net n from pkt =
    let w = wrapped n pkt in
    let again = handle_ipv6 fuel net w.0 none w.1 in
    elim (parse_ipv6 pkt) [
      | none ↦ (n, [])
      | some (dst, hop) ↦ elim (tunnel_end n pkt dst) [
        | some r ↦ r
        | none ↦
            if is_mesh_ula dst
            then (n, to_mesh net n from pkt dst hop)
            else if is_local from && not (length n.exit_node == 0)
            then if length w.1 == 0 then (w.0, []) else again
            else (n, [])
      ]
    ]

unfoldable pub handle_exit_from_tun : Network → Node → Option Session → Bytes → Node × List Effect
handle_exit_from_tun net n from pkt =
    let w = wrapped n pkt in
    if not (is_local from)
    then (n, [])
    else if length w.1 == 0
    then (w.0, [])
    else handle_ipv6 2 net w.0 none w.1

unfoldable pub handle_packet : Network → Node → Option Session → Bytes → Node × List Effect
handle_packet net n from [] = (n, [])
handle_packet net n from (b ∷ bs) =
    if b / 16 == 4
    then handle_exit_from_tun net n from (b ∷ bs)
    else if b / 16 == 6
    then handle_ipv6 2 net n from (b ∷ bs)
    else (n, [])

-- The client of a packet that came back: by its plumbing address, or among the sessions.
client_among : Bytes → List Session → Option Bytes
client_among dst [] = none
client_among dst (s ∷ ss) =
    let rest = client_among dst ss in
    if ip_equal (plumbing_ipv4 (ula s.id)) dst then some (ula s.id) else rest

unfoldable pub returning_client : Node → Bytes → Option Bytes
unfolding client_among
returning_client n dst = elim (client_ula_for_plumbing dst n.exit_clients) [
  | some u ↦ some u
  | none ↦ client_among dst (session_list n.sessions)
]

-- handleExitTUNIngress, with whether it took the packet.
unfoldable pub handle_exit_tun_ingress : Network → Node → Bytes → (Node × List Effect) × Bool
unfolding returning_client
handle_exit_tun_ingress net n pkt =
    if not n.exit || length pkt == 0
    then ((n, []), false)
    else if version pkt == 4
    then if ltb (length pkt) 20
      then ((n, []), true)
      else elim (returning_client n (slice pkt 16 20)) [
        | none ↦ ((n, []), true)
        | some client ↦
            let outer = encapsulate_exit (ula n.id) client pkt in
            if length outer == 0 then ((n, []), true) else (handle_ipv6 2 net n none outer, true)
      ]
    else ((n, []), not (version pkt == 6))

-- The body of tunLoop behind ReadPacket.
unfoldable pub tun_packet : Network → Node → Bytes → Node × List Effect
tun_packet net n pkt =
    let (r, taken) = handle_exit_tun_ingress net n pkt in
    if taken then r else handle_packet net n none pkt
