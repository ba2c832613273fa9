-- ===== src/Node/Routing.antt =====
-- internal/node/route.go: the handlers around the routing table.
pub mod Horizon
use hopscotch.Common.{
  ℕ, Bool, true, false, not, ◌&&◌, ◌||◌, Option, none, some, List, [], ◌∷◌, ◌++◌, map, ite, leb,
  if◌then◌else◌,
}
use hopscotch.Common.Bytes.{Bytes, same, codes}
use hopscotch.Common.Int.{ℤ, pos, negsuc, leb_ℤ}
use hopscotch.Common.Maps.{lookup, insert}
use hopscotch.Ip.{ip_string, ip_equal}
use hopscotch.Identity.Address.{ula}
use hopscotch.Session.{Session, is_session, session_list, session_of}
use hopscotch.Route.{
  RibEntry, Rib, Advert, fresh, eq_bytes, default_route_v6, default_route_v4, route_infinity,
  update_rib, expire, drop_via, exported,
}
use hopscotch.Node.{Node, Message, Effect}

-- proto.Message{Type: "routes", Routes: routes}
abbrev pub routes_message : List Advert → Message
routes_message routes = record {
  kind = codes "routes";
  rpc = 0;
  name = [];
  origin = [];
  path = [];
  ttl = pos 0;
  failure = [];
  ula = [];
  routes = routes;
}

-- The advertisement for `s`: the node itself, the default routes of an exit, and the table under
-- split horizon.
unfoldable pub advertisement : Node → Session → List Advert
advertisement n s =
    record { dest = ip_string (ula n.id); metric = pos 0 }
      ∷ (if n.exit
          then record { dest = default_route_v6; metric = pos 0 }
            ∷ record { dest = default_route_v4; metric = pos 0 }
            ∷ []
          else [])
    ++ exported s.id n.routes

unfoldable pub send_routes_to : Node → Session → Effect
send_routes_to n s = Effect.send s (routes_message (advertisement n s))

unfoldable pub advertise_routes : Node → List Effect
unfolding send_routes_to
advertise_routes n = map (send_routes_to n) (session_list n.sessions)

-- Of logRoutes, what is not logging.
unfoldable pub log_routes : Node → List Effect
log_routes n = ite (same n.exit_node []) [] (Effect.sync_exit ∷ [])

unfoldable pub on_session_up : Node → Session → Node × List Effect
unfolding log_routes
on_session_up n s =
    let n' = record n {
      routes = insert same (ip_string (ula s.id)) (fresh s.id (pos 1)) n.routes;
    } in
    (n', log_routes n' ++ (send_routes_to n' s ∷ advertise_routes n'))

-- `changed` announces the new table.
unfoldable pub announce : Node → Bool → List Effect
unfolding log_routes
announce n changed = if changed then log_routes n ++ advertise_routes n else []

unfoldable pub on_session_down : Node → Session → Node × List Effect
unfolding announce
on_session_down n s =
    let cur = session_of n.sessions s.id in
    let (routes', changed) = drop_via s.id n.routes in
    let n' = record n { routes = routes' } in
    elim cur [
      | none ↦ (n', announce n' changed ++ (Effect.release_pin s.underlay_ip ∷ []))
      | some c ↦
          if is_session (some c) s
          then (n', announce n' changed ++ (Effect.release_pin s.underlay_ip ∷ []))
          else (n, [])
    ]

unfoldable pub handle_routes : Node → Session → Message → ℕ → Node × List Effect
unfolding announce
handle_routes n from msg now =
    let (routes', changed) = update_rib n.id from.id msg.routes now n.routes in
    let n' = record n { routes = routes' } in (n', announce n' changed)

unfoldable pub expire_stale_routes : Node → ℕ → Node × List Effect
unfolding announce
expire_stale_routes n now =
    let (routes', changed) = expire now n.routes in
    let n' = record n { routes = routes' } in (n', announce n' changed)

-- The `routes.C` case of maintainLoop.
unfoldable pub refresh_routes : Node → ℕ → Node × List Effect
refresh_routes n now =
    let (n', effects) = expire_stale_routes n now in
    (n', effects ++ (advertise_routes n' ++ ite (same n.exit_node []) [] (Effect.sync_exit ∷ [])))

-- A nil address is `[]`.
unfoldable pub route_next_hop : Node → Bytes → Option Session
route_next_hop n dst =
    if eq_bytes dst [] then none else elim (lookup same (ip_string dst) n.routes) [
      | none ↦ none
      | some e ↦ if leb_ℤ route_infinity e.metric then none else session_of n.sessions e.next
    ]

unfoldable pub route_metric : Node → Bytes → ℤ
route_metric n dst =
    if eq_bytes dst []
    then negsuc 0
    else if ip_equal dst (ula n.id)
    then pos 0
    else elim (lookup same (ip_string dst) n.routes) [ none ↦ negsuc 0 | some e ↦ e.metric ]

-- The first session but `from` whose address is `dst`.
session_at : Bytes → Option Session → List Session → Option Session
session_at dst from [] = none
session_at dst from (s ∷ ss) =
    let rest = session_at dst from ss in
    if is_session from s then rest else if ip_equal (ula s.id) dst then some s else rest

unfoldable pub next_hop : Node → Bytes → Option Session → Option Session
unfolding session_at
next_hop n dst from = elim (route_next_hop n dst) [
  | none ↦ session_at dst from (session_list n.sessions)
  | some s ↦ if is_session from s then session_at dst from (session_list n.sessions) else some s
]
