-- ===== src/Node/Trace/Tests.antt =====
-- Runs of a traceroute, and the theorems at concrete inputs.
use hopscotch.Common.{
  ℕ, ◌≡◌, refl, true, none, Option, List, [], ◌∷◌, ◌++◌, replicate, ℕ_discrete, map, ◌==◌,
  if◌then◌else◌,
}
use hopscotch.Common.Bytes.{Bytes, same, codes}
use hopscotch.Ip.{parse_ip, ip_equal, ip_string}
use hopscotch.Identity.Address.{ula, is_mesh_ula}
use hopscotch.Identity.Names
use hopscotch.Session.{session_by_name}
use hopscotch.Node.Overlay.{overlay_ip}
use hopscotch.Node.Tests.{a, b, c, node_a}
use hopscotch.Node.Trace.{
  ResolveError, Resolved, cut_suffix, trim_suffix, overlay_name, literal, echoed, resolve_ula,
  resolve_overlay_dest, HopReply, TraceHop, await, trace_loop, name_for_ula,
}
use hopscotch.Node.Trace.Resolve.{IsMesh, resolve_ula-IsMesh}

-- What a run computes with.
runs : Unit {0}
unfolding cut_suffix trim_suffix overlay_name literal echoed resolve_ula resolve_overlay_dest await
    trace_loop name_for_ula parse_ip ip_equal ip_string ula is_mesh_ula overlay_ip session_by_name
    Names.parse_name Names.to_lower Names.trim_space same ℕ_discrete
runs = tt

abbrev no_echo : Bytes → Option Bytes
no_echo name = none

resolved_b : resolve_overlay_dest node_a (codes "b.hopscotch") ≡ Resolved.ok (ula b)
unfolding runs
resolved_b = refl

-- The dot at the end of a fully qualified name hides the zone from the test for it.
not_resolved : resolve_ula no_echo node_a (codes "b.hopscotch.") ≡ Resolved.err ResolveError.no_name
unfolding runs
not_resolved = refl

-- A reply of `from` to the node `a`, of the given ICMPv6 type.
abbrev packet : Bytes → ℕ → Bytes
packet from kind = replicate 8 0 ++ (ula from ++ (ula a ++ (kind ∷ [])))

-- The first probe runs out at `b`, the second one gets no answer, and the third reaches `c`.
abbrev tap : ℕ → List Bytes
tap ttl =
    if ttl == 1 then packet b 135 ∷ packet b 3 ∷ [] else if ttl == 3 then packet c 129 ∷ [] else []

replies :
    map (λ (h : TraceHop). h.reply) (trace_loop node_a tap 8 1).hops
    ≡ HopReply.time_exceeded ∷ HopReply.none_yet ∷ HopReply.echo_reply ∷ []
unfolding runs
replies = refl

reached_c : (trace_loop node_a tap 8 1).reach ≡ true
unfolding runs
reached_c = refl

resolve_ula-IsMesh_example : IsMesh (resolve_ula no_echo node_a (codes "b.hopscotch"))
resolve_ula-IsMesh_example =
    resolve_ula-IsMesh no_echo node_a (codes "b.hopscotch") refl (refl, (refl, tt))
