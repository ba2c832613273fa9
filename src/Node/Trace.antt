-- ===== src/Node/Trace.antt =====
-- internal/node/traceroute.go: the address of a destination, and the hops on the way to it.
-- What an echo over the mesh answers, and the packets that the tap gives before the deadline of each
-- probe, are arguments; round-trip times, contexts and the TUN for the time of the run are left out.
pub mod Resolve
pub mod Path
mod Tests
use hopscotch.Common.{
  ℕ, zero, suc, ◌+◌, ◌-◌, Bool, true, false, not, ◌&&◌, ◌||◌, Option, none, some, List, [], ◌∷◌,
  ◌++◌, ite, if◌then◌else◌, ◌==◌, ltb, length, take, drop,
}
use hopscotch.Common.Bytes.{Bytes, same, codes, at, slice}
use hopscotch.Common.Int.{ℤ, pos, negsuc}
use hopscotch.Ip.{parse_ip, to16, ip_equal, ip_string}
use hopscotch.Identity.Address.{ula, is_mesh_ula}
use hopscotch.Identity.Hex.{id_short}
use hopscotch.Identity.Names
use hopscotch.Session.{Session, session_list}
use hopscotch.Packet.Build.{
  ipv6_header_len, icmpv6_time_exceeded, icmpv6_echo_reply, icmpv6_dest_unreach,
  ipv6_icmp_echo_trace,
}
use hopscotch.Node.{Node}
use hopscotch.Node.Echo.{hop_name}
use hopscotch.Node.Overlay.{overlay_ip}

-- strings.CutSuffix; `none` where the suffix is not there.
unfoldable pub cut_suffix : Bytes → Bytes → Option Bytes
cut_suffix suf s =
    let n = length s - length suf in
    if ltb (length s) (length suf) then none else ite (same (drop n s) suf) (some (take n s)) none

-- strings.TrimSuffix
unfoldable pub trim_suffix : Bytes → Bytes → Bytes
trim_suffix suf s = elim (cut_suffix suf s) [ none ↦ s | some cut ↦ cut ]

pub data ResolveError : Type 0 where
  not_mesh no_name no_echo no_ula : ResolveError

pub data Resolved : Type 0 where
  ok : Bytes → Resolved
  err : ResolveError → Resolved

-- The name that a destination is looked up under.
unfoldable pub overlay_name : Bytes → Names.Parsed Bytes
overlay_name dest =
    let name = Names.to_lower dest in
    let short : Bytes = elim (cut_suffix (codes ".hopscotch") name) [
      | none ↦ name
      | some cut ↦ cut
    ] in
    Names.parse_name (trim_suffix (codes ".") short)

-- A literal must be an address of the mesh.
unfoldable pub literal : Bytes → Resolved
literal ip = if not (is_mesh_ula ip) then Resolved.err not_mesh else Resolved.ok (to16 ip)

-- `echo` is the address in the reply to an echo of the name, as a text; an error is `none`.
unfoldable pub echoed : Option Bytes → Resolved
echoed none = Resolved.err no_echo
echoed (some text) = elim (parse_ip text) [
  | none ↦ Resolved.err no_ula
  | some ip ↦ if not (is_mesh_ula ip) then Resolved.err no_ula else Resolved.ok (to16 ip)
]

unfoldable pub resolve_ula : (Bytes → Option Bytes) → Node → Bytes → Resolved
resolve_ula echo n dest = elim (parse_ip dest) [
  | some ip ↦ literal ip
  | none ↦ elim (overlay_name dest) [
    | Names.err e ↦ Resolved.err no_name
    | Names.ok name ↦
        ite (same (overlay_ip n name) []) (echoed (echo name)) (Resolved.ok (overlay_ip n name))
  ]
]

-- With local knowledge only.
unfoldable pub resolve_overlay_dest : Node → Bytes → Resolved
resolve_overlay_dest n dest = elim (parse_ip dest) [
  | some ip ↦ literal ip
  | none ↦ elim (overlay_name dest) [
    | Names.err e ↦ Resolved.err no_name
    | Names.ok name ↦
        ite (same (overlay_ip n name) []) (Resolved.err no_ula) (Resolved.ok (overlay_ip n name))
  ]
]

abbrev session_name : Session → Bytes
session_name s = elim s.names [ [] ↦ id_short s.id | name ∷ names ↦ name ]

name_among : Bytes → List Session → Bytes
name_among dst [] = []
name_among dst (s ∷ ss) =
    let rest = name_among dst ss in if ip_equal (ula s.id) dst then session_name s else rest

unfoldable pub name_for_ula : Node → Bytes → Bytes
unfolding name_among
name_for_ula n dst =
    if ip_equal dst (ula n.id) then hop_name n else name_among dst (session_list n.sessions)

pub data HopReply : Type 0 where
  none_yet time_exceeded echo_reply dest_unreach : HopReply

pub record TraceHop : Type 0 where
  pub ttl : ℕ
  pub name : Bytes
  pub ula : Bytes
  pub timeout : Bool
  pub reply : HopReply

pub record TraceResult : Type 0 where
  pub hops : List TraceHop
  pub reach : Bool

-- What the switch on the ICMPv6 type says: the reply, or to wait on.
abbrev pub reply_of : ℕ → HopReply
reply_of t =
    if t == icmpv6_time_exceeded
    then time_exceeded
    else if t == icmpv6_echo_reply
    then echo_reply
    else if t == icmpv6_dest_unreach
    then dest_unreach
    else none_yet

-- A packet of the tap that is for the node names its sender, even if it ends no wait.
abbrev pub heard_from : Node → TraceHop → Bytes → TraceHop
heard_from n hop pkt = record hop {
  ula = ip_string (slice pkt 8 24);
  name = name_for_ula n (slice pkt 8 24);
  reply = reply_of (at pkt 40);
}

-- The wait for a probe's answer, over the packets of the tap up to the deadline.
unfoldable pub await : Node → TraceHop → List Bytes → TraceHop
await n hop [] = record hop { timeout = true }
await n hop (pkt ∷ pkts) =
    let hop' = heard_from n hop pkt in
    let later = await n hop' pkts in
    let skipped = await n hop pkts in
    if ltb (length pkt) (ipv6_header_len + 1)
    then skipped
    else if not (ip_equal (slice pkt 24 40) (ula n.id))
    then skipped
    else elim hop'.reply [
      | none_yet ↦ later
      | time_exceeded ↦ hop'
      | echo_reply ↦ hop'
      | dest_unreach ↦ hop'
    ]

abbrev pub new_hop : ℕ → TraceHop
new_hop ttl = record { ttl = ttl; name = []; ula = []; timeout = false; reply = none_yet }

abbrev pub reached : HopReply → Bool
reached none_yet = false
reached time_exceeded = false
reached echo_reply = true
reached dest_unreach = false

-- `fuel` more probes, from the hop limit `ttl` on; `tap` gives the packets for each.
unfoldable pub trace_loop : Node → (ℕ → List Bytes) → ℕ → ℕ → TraceResult
trace_loop n tap zero ttl = record { hops = []; reach = false }
trace_loop n tap (suc fuel) ttl =
    let hop = await n (new_hop ttl) (tap ttl) in
    let rest = trace_loop n tap fuel (suc ttl) in
    if reached hop.reply
    then record { hops = hop ∷ []; reach = true }
    else record { hops = hop ∷ rest.hops; reach = rest.reach }

-- The bounds of TraceRoute on maxTTL.
unfoldable pub max_ttl : ℤ → ℕ
max_ttl (pos n) = if n == 0 then 32 else if ltb 255 n then 255 else n
max_ttl (negsuc n) = 32

unfoldable pub trace_route :
    (Bytes → Option Bytes) → Node → (Bytes → ℕ → List Bytes) → Bytes → ℤ → Option TraceResult
trace_route echo n tap dest max = elim (resolve_ula echo n dest) [
  | Resolved.err e ↦ none
  | Resolved.ok dst ↦ some (trace_loop n (tap dst) (max_ttl max) 1)
]
