-- ===== src/Node/Overlay/Tests.antt =====
-- Runs of the handlers of packets, and the theorems at concrete inputs.
use hopscotch.Common.{◌≡◌, refl, true, none, some, [], ◌∷◌, ◌++◌, length, replicate, arith}
use hopscotch.Common.Bytes.{Bytes, codes}
use hopscotch.Identity.Address.{ula}
use hopscotch.Identity.Names
use hopscotch.Packet.Build.{ipv6_header, parse_ipv6}
use hopscotch.Packet.Mss.{clamp_tcp_mss, tcp_mss}
use hopscotch.Node.{Node}
use hopscotch.Node.Tests.{c, to_b, to_c, node_a, turned}
use hopscotch.Node.Overlay.{Network, Queue, write_packet, forward, decrement}
use hopscotch.Node.Overlay.Hops.{forward_hops}

-- Every datagram is taken, and no query answered.
abbrev net : Network
net = record {
  connected = λ s. true;
  datagram = λ s pkt. none;
  queue = λ s. Queue.free;
  answer = λ query find. [];
}

-- A packet from `b` to `c`.
abbrev transit : Bytes
transit = ipv6_header 0 59 5 (0xfd ∷ replicate 15 2) (ula c)

addressed : parse_ipv6 transit ≡ some (ula c, 5)
unfolding parse_ipv6 ula
addressed = refl

taken : (write_packet net to_c (clamp_tcp_mss (decrement transit) tcp_mss)).1 ≡ none
unfolding write_packet clamp_tcp_mss ula
taken = refl

forward_hops_example :
    (out : Bytes) × (forward net node_a (some to_b) transit (ula c) 5
      ≡ (write_packet net to_c out).0)
    × (parse_ipv6 out ≡ some (ula c, 4))
    × (length out ≡ length transit)
forward_hops_example =
    forward_hops net node_a to_b to_c transit (ula c) 5 addressed (omega arith) turned taken

-- `a` sends its packets for other networks to the exit `c`.
abbrev client : Node
client = record node_a { exit_node = codes "c" }

-- A packet for 2001:db8::1.
abbrev global : Bytes
global =
    ipv6_header 0 59 64 (0xfd ∷ replicate 15 1)
      (0x20 ∷ 1 ∷ 0x0d ∷ 0xb8 ∷ (replicate 11 0 ++ (1 ∷ [])))
