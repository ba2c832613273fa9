-- ===== src/Node/Tests.antt =====
-- Runs of a node, and the theorems at concrete inputs.
use hopscotch.Common.{◌≡◌, refl, true, false, some, [], ◌∷◌, replicate, ℕ_discrete, ◌⊎◌}
use hopscotch.Common.Bytes.{Bytes, codes, same}
use hopscotch.Common.Int.{pos}
use hopscotch.Common.Maps.{lookup}
use hopscotch.Identity.Address.{ula}
use hopscotch.Ip.{ip_string, ip_equal}
use hopscotch.Session.{Session, is_session, session_of}
use hopscotch.Route.{Rib, fresh}
use hopscotch.Node.{Node}
use hopscotch.Node.Routing.{next_hop, route_next_hop}
use hopscotch.Node.Routing.Horizon.{next_hop_lem}

abbrev pub a : Bytes
a = replicate 32 1

abbrev pub b : Bytes
b = replicate 32 2

abbrev pub c : Bytes
c = replicate 32 3

-- What a run computes with.
runs : Unit {0}
unfolding lookup ip_string ip_equal ula next_hop route_next_hop session_of same ℕ_discrete
runs = tt

abbrev pub to_b : Session
to_b = record { handle = 1; id = b; names = codes "b" ∷ []; addr = []; underlay_ip = [] }

abbrev pub to_c : Session
to_c = record { handle = 2; id = c; names = codes "c" ∷ []; addr = []; underlay_ip = [] }

abbrev pub text_b : Bytes
text_b = codes "fd02:202:202:0:202:202:202:202"

abbrev pub text_c : Bytes
text_c = codes "fd03:303:303:0:303:303:303:303"

-- `b` is a neighbour, and `c` is reached through it at two hops.
abbrev pub table : Rib
table = (text_b, fresh b (pos 1)) ∷ (text_c, fresh b (pos 2)) ∷ []

abbrev pub node_a : Node
node_a = record {
  id = a;
  names = codes "a" ∷ [];
  exit = false;
  exit_node = [];
  sessions = (b, to_b) ∷ (c, to_c) ∷ [];
  routes = table;
  rpc_seq = 0;
  echo_wait = [];
  exit_ula = [];
  exit_clients = [];
  tun = false;
  stack = false;
}

-- A packet from `b` for `c` leaves over the session of `c`, though the table names `b`.
pub turned : next_hop node_a (ula c) (some to_b) ≡ some to_c
unfolding runs
turned = refl

next_hop_lem_example :
    (is_session (some to_b) to_c ≡ false)
    × ((route_next_hop node_a (ula c) ≡ some to_c) ⊎ (ip_equal (ula c) (ula c) ≡ true))
next_hop_lem_example = next_hop_lem node_a (ula c) (some to_b) to_c turned
