-- ===== src/Node/Peering.antt =====
-- internal/node/node.go: establish, readLoop and its end: how a session enters the node's table, is
-- replaced, and leaves. The hello that the node itself sends, and logging, are left out.
pub mod Newest
pub mod Admission
mod Tests
use hopscotch.Common.{
  ℕ, Bool, true, false, not, ◌&&◌, ◌||◌, Option, none, some, List, [], ◌∷◌, ◌++◌, ite, ◌==◌,
  if◌then◌else◌, length,
}
use hopscotch.Common.Bytes.{Bytes, same, codes, at}
use hopscotch.Common.Int.{pos}
use hopscotch.Common.Maps.{insert, delete}
use hopscotch.Ip.{parse_ip, to4, ip_equal}
use hopscotch.Identity.Names
use hopscotch.Endpoint.{split_host_port, canonical_addrs, advertise_addr}
use hopscotch.Session.{Session, is_session, session_of}
use hopscotch.Route.{eq_bytes}
use hopscotch.Node.{Node, Message, Effect}
use hopscotch.Node.Routing.{on_session_up, on_session_down, handle_routes}
use hopscotch.Node.Echo.{Link, write, handle_echo, complete_echo}

-- net.IP.IsLoopback
abbrev pub is_loopback : Bytes → Bool
is_loopback ip =
    let v4 = to4 ip in
    if length v4 == 4
    then at v4 0 == 127
    else ip_equal ip (0 ∷ 0 ∷ 0 ∷ 0 ∷ 0 ∷ 0 ∷ 0 ∷ 0 ∷ 0 ∷ 0 ∷ 0 ∷ 0 ∷ 0 ∷ 0 ∷ 0 ∷ 1 ∷ [])

-- nil is `[]`.
unfoldable pub underlay_ip_from_net_addr : Bytes → Bytes
underlay_ip_from_net_addr addr = elim (split_host_port addr) [
  | none ↦ []
  | some (host, port) ↦ elim (parse_ip host) [
    | none ↦ []
    | some ip ↦ if is_loopback ip then [] else ip
  ]
]

-- What the QUIC connection gives: whether its stream opened, the key of the certificate, its names,
-- the remote address, whether the hello was written, and the peer's first message, with the
-- addresses of its hello if it has one.
pub record Conn : Type 0 where
  pub stream : Bool
  pub key : Option Bytes
  pub uris : List (Option Names.CertUri)
  pub remote : Bytes
  pub wrote : Bool
  pub first : Option (Bytes × Option (List Bytes))

pub data Refusal : Type 0 where
  no_stream no_key to_self key_mismatch not_written not_read no_hello : Refusal

-- The critical section of establish: the newest session of a NodeID takes the place of an older one,
-- which is closed behind it.
unfoldable pub register : Node → Session → Node × List Effect
register n s = elim (session_of n.sessions s.id) [
  | none ↦ (record n { sessions = insert same s.id s n.sessions }, [])
  | some old ↦ (
    record n { sessions = insert same s.id s (delete same s.id n.sessions) },
    Effect.close_session old ∷ Effect.release_pin old.underlay_ip ∷ [],
  )
]

-- From the registration on.
unfoldable pub start_session : Node → Session → Node × List Effect
start_session n s =
    let registered = register n s in
    let up = on_session_up registered.0 s in (up.0, registered.1 ++ up.1)

-- The address under which the session is found: the dialed one, the peer's first, or the remote one.
unfoldable pub session_addr : Bytes → List Bytes → Bytes → Bytes
session_addr dialed adv remote =
    let first = advertise_addr adv in ite (same dialed []) (ite (same first []) remote first) dialed

-- The peer's identity is accepted or refused.
unfoldable pub admit : (Bytes → Bytes) → Node → Bytes → Bytes → Option Refusal × List Effect
admit digest n expect key =
    if eq_bytes (digest key) n.id
    then (some to_self, Effect.refuse (codes "self") ∷ [])
    else if not (length expect == 0) && not (eq_bytes key expect)
    then (some key_mismatch, Effect.refuse (codes "key mismatch") ∷ [])
    else (none, [])

-- The new session, and for an inbound one the pin that it takes.
unfoldable pub new_session :
    (Bytes → Bytes) → ℕ → Bool → Bytes → Bytes → Conn → Bytes → List Bytes → Session
new_session digest handle we_dialed dialed dialed_ip conn key listen = record {
  handle = handle;
  id = digest key;
  names = Names.names_from_cert conn.uris;
  addr = session_addr dialed (canonical_addrs listen) conn.remote;
  underlay_ip = if we_dialed then dialed_ip else underlay_ip_from_net_addr conn.remote;
}

-- establish: `digest` is SHA-256, `handle` the new pointer, and `dialed_ip` what
-- underlayIPFromAddr finds for `dialed`.
unfoldable pub establish :
    (Bytes → Bytes)
    → ℕ
    → Node
    → Bool
    → Bytes
    → Bytes
    → Bytes
    → Conn
    → (Node × List Effect) × Option Refusal
establish digest handle n we_dialed expect dialed dialed_ip conn =
    if not conn.stream then ((n, []), some no_stream) else elim conn.key [
      | none ↦ ((n, []), some no_key)
      | some key ↦
          let admitted = admit digest n expect key in
          elim admitted.0 [
            | some e ↦ ((n, admitted.1), some e)
            | none ↦ if not conn.wrote then ((n, []), some not_written) else elim conn.first [
              | none ↦ ((n, []), some not_read)
              | some (kind, hello) ↦ elim (ite (same kind (codes "hello")) hello none) [
                | none ↦ ((n, []), some no_hello)
                | some listen ↦
                    let s = new_session digest handle we_dialed dialed dialed_ip conn key listen in
                    let started = start_session n s in
                    (
                      (
                        started.0,
                        (if we_dialed then [] else Effect.retain_pin s.underlay_ip ∷ [])
                            ++ started.1,
                      ),
                      none,
                    )
              ]
            ]
          ]
    ]

-- The first critical section of the end of readLoop.
unfoldable pub unregister : Node → Session → Node
unregister n s =
    if is_session (session_of n.sessions s.id) s
    then record n { sessions = delete same s.id n.sessions }
    else n

-- The deferred end of readLoop.
unfoldable pub end_session : Node → Session → Node × List Effect
end_session n s =
    let down = on_session_down (unregister n s) s in (down.0, Effect.close_session s ∷ down.1)

abbrev pong : Message → Message
pong msg = record {
  kind = codes "pong";
  rpc = msg.rpc;
  name = [];
  origin = [];
  path = [];
  ttl = pos 0;
  failure = [];
  ula = [];
  routes = [];
}

-- One round of readLoop.
unfoldable pub dispatch : Link → Node → Session → Message → ℕ → Node × List Effect
dispatch link n s msg now =
    if eq_bytes msg.kind (codes "ping")
    then (n, (write link s (pong msg)).0)
    else if eq_bytes msg.kind (codes "echo")
    then handle_echo link n s msg
    else if eq_bytes msg.kind (codes "routes")
    then handle_routes n s msg now
    else if eq_bytes msg.kind (codes "echo_ok") || eq_bytes msg.kind (codes "echo_err")
    then complete_echo link n msg
    else if eq_bytes msg.kind (codes "pong")
    then (n, Effect.pending_reply s msg ∷ [])
    else (n, [])
