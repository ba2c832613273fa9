-- ===== src/Node/Peering/Tests.antt =====
-- Runs of sessions that come and go, and the theorems at concrete inputs.
use hopscotch.Common.{◌≡◌, ◌==◌, refl, true, false, some, [], ◌∷◌, ℕ_discrete, Option, List}
use hopscotch.Common.Bytes.{Bytes, codes, same}
use hopscotch.Common.Maps.{lookup, insert, delete}
use hopscotch.Ip.{parse_ip, ip_string, ip_equal}
use hopscotch.Identity.Address.{ula}
use hopscotch.Endpoint.{split_host_port, canonical_addrs, advertise_addr}
use hopscotch.Session.{Session, session_of}
use hopscotch.Route.{exported, drop_via}
use hopscotch.Node.{Node, Effect}
use hopscotch.Node.Routing.{
  on_session_up, on_session_down, advertisement, send_routes_to, advertise_routes, log_routes,
  announce,
}
use hopscotch.Node.Peering.{
  Conn, Refusal, admit, new_session, establish, register, start_session, unregister, end_session,
  session_addr, underlay_ip_from_net_addr,
}
use hopscotch.Node.Peering.Newest.{end_session-start_session}
use hopscotch.Node.Peering.Admission.{Outcome, establish_lem}
use hopscotch.Node.Tests.{a, b, c, node_a, to_b}

-- What a run computes with.
runs : Unit {0}
unfolding on_session_up on_session_down advertisement send_routes_to advertise_routes log_routes
    announce admit new_session establish register start_session unregister end_session session_addr
    underlay_ip_from_net_addr parse_ip ip_string ip_equal split_host_port exported drop_via ula
    session_of lookup insert delete same ℕ_discrete advertise_addr canonical_addrs
runs = tt

-- The digest, for a test.
abbrev digest : Bytes → Bytes
digest key = key

abbrev inbound : Option Bytes → Conn
inbound key = record {
  stream = true;
  key = key;
  uris = [];
  remote = codes "10.0.0.7:4433";
  wrote = true;
  first = some (codes "hello", some []);
}

abbrev newer : Session
newer = new_session digest 9 false [] [] (inbound (some b)) b []

abbrev accepted : Node
accepted = (establish digest 9 node_a false b [] [] (inbound (some b))).0.0

-- The host of a session that came in is its remote address.
newer_addr : newer.addr ≡ codes "10.0.0.7:4433"
unfolding runs
newer_addr = refl

accepted_b : session_of accepted.sessions b ≡ some newer
unfolding runs
accepted_b = refl

self_refused :
    (establish digest 9 node_a false [] [] [] (inbound (some a))).1 ≡ some Refusal.to_self
unfolding runs
self_refused = refl

mismatch_refused :
    (establish digest 9 node_a false c [] [] (inbound (some b))).1 ≡ some Refusal.key_mismatch
unfolding runs
mismatch_refused = refl

-- An older session with a pin of its own.
abbrev older : Session
older = record to_b { underlay_ip = 10 ∷ 0 ∷ 0 ∷ 7 ∷ [] }

abbrev before_restart : Node
before_restart = record node_a { sessions = (b, older) ∷ []; routes = [] }

abbrev restarted : Node
restarted = (start_session before_restart newer).0

-- The pin of the older session is released when it is replaced, and again when its loop ends after
-- the newer session has ended.
abbrev released : List Effect → List Bytes
released [] = []
released (Effect.release_pin ip ∷ es) = ip ∷ released es
released (_ ∷ es) = released es

released_first : released (start_session before_restart newer).1 ≡ older.underlay_ip ∷ []
unfolding runs
released_first = refl

released_again :
    released (end_session (end_session restarted newer).0 older).1 ≡ older.underlay_ip ∷ []
unfolding runs
released_again = refl

same_peer : older.id ≡ newer.id
unfolding runs
same_peer = refl

fresh : (newer.handle == older.handle) ≡ false
unfolding runs
fresh = refl

end_session-start_session_example :
    end_session restarted older ≡ (restarted, Effect.close_session older ∷ [])
end_session-start_session_example =
    end_session-start_session before_restart older newer same_peer fresh

establish_lem_example :
    Outcome digest node_a b
      (inbound (some b))
      (establish digest 9 node_a false b [] [] (inbound (some b)))
establish_lem_example = establish_lem digest 9 node_a false b [] [] (inbound (some b))
