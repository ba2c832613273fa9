-- ===== src/Node/Network/Tests.antt =====
-- A run of three nodes in a row: `a` learns of `c` from `b`.
use hopscotch.Common.{◌≡◌, refl, false, some, [], ◌∷◌, ◌++◌, take, drop, ℕ_discrete, Bool}
use hopscotch.Common.Bytes.{Bytes, same}
use hopscotch.Common.Int.{pos, ◌+ℤ◌}
use hopscotch.Common.Maps.{lookup, insert, delete}
use hopscotch.Ip.{parse_ip, ip_string}
use hopscotch.Identity.Address.{ula, is_mesh_ula, is_resolver_ula}
use hopscotch.Session.{Session, session_of}
use hopscotch.Route.{
  fresh, advert_key, is_default_route_dest, update_rib, ensure_direct, apply_adverts, apply_advert,
  apply_metric, age, age_entry, exported,
}
use hopscotch.Route.Step.{address}
use hopscotch.Node.{Node}
use hopscotch.Node.Routing.{
  on_session_up, handle_routes, routes_message, advertisement, send_routes_to, advertise_routes,
  log_routes, announce,
}
use hopscotch.Node.Peering.{register, start_session}
use hopscotch.Node.Tests.{a, b, c, text_c}
use hopscotch.Node.Network.{Flight, Net, after, Step, Reach, Via}
use hopscotch.Node.Network.Reachable.{IsFresh, reachable_route}

data Link : Bytes → Bytes → Type 0 where
  a_b : Link a b
  b_a : Link b a
  b_c : Link b c

abbrev new_node : Bytes → Node
new_node u = record {
  id = u;
  names = [];
  exit = false;
  exit_node = [];
  sessions = [];
  routes = [];
  rpc_seq = 0;
  echo_wait = [];
  exit_ula = [];
  exit_clients = [];
  tun = false;
  stack = false;
}

abbrev no_exit : Bytes → Bool
no_exit u = false

abbrev start : Net
start = record { node = new_node; flights = [] }

abbrev session : Bytes → Session
session u = record { handle = 1; id = u; names = []; addr = []; underlay_ip = [] }

-- What a run computes with.
runs : Unit {0}
unfolding update_rib ensure_direct age age_entry apply_adverts apply_advert apply_metric lookup
    insert delete ◌+ℤ◌ advert_key parse_ip ip_string is_mesh_ula is_resolver_ula same
    is_default_route_dest ula ℕ_discrete on_session_up handle_routes advertisement send_routes_to
    advertise_routes log_routes announce register start_session session_of exported
runs = tt

canonical : (u v : Bytes) → Link u v → advert_key (address v) ≡ some (address v)
unfolding runs
canonical _ _ a_b = refl
canonical _ _ b_a = refl
canonical _ _ b_c = refl

abbrev up_c : Net
up_c = after b (start_session (start.node b) (session c)) start

abbrev up_b : Net
up_b = after b (start_session (up_c.node b) (session a)) up_c

-- The routes of `b`, on their way to `a`.
abbrev routes_b : Flight
routes_b = record {
  from = b;
  to = a;
  message = routes_message (advertisement (up_b.node b) (session a));
}

abbrev learned : Net
learned =
    after a (handle_routes (up_b.node a) (session b) routes_b.message 5)
      (record up_b { flights = take 2 up_b.flights ++ drop 3 up_b.flights })

under_way : up_b.flights ≡ take 2 up_b.flights ++ routes_b ∷ drop 3 up_b.flights
unfolding runs
under_way = refl

run : Reach Link no_exit start learned
run =
    Reach.step_on
      (Reach.step_on (Reach.step_on Reach.here (Step.up b (session c) b_c))
        (Step.up b (session a) b_a))
      (Step.arrive (take 2 up_b.flights) (drop 3 up_b.flights) routes_b (session b) 5 under_way refl
        a_b)

start-IsFresh : IsFresh no_exit start
start-IsFresh = record {
  named = λ u. refl;
  exits = λ u. refl;
  no_routes = λ u. refl;
  no_flights = refl;
}

learned_c : lookup same text_c (learned.node a).routes ≡ some (fresh b (pos 2))
unfolding runs
learned_c = refl

reachable_route_example : Via Link no_exit a text_c b (pos 2)
reachable_route_example =
    reachable_route Link no_exit canonical start learned start-IsFresh run a text_c
      (fresh b (pos 2)) learned_c
