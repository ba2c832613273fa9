-- ===== src/Node/Dial.antt =====
-- internal/node/node.go, dial and join: sessions to the configured peers.
-- A dial has two steps, up to its connection and from there on, and other dials may come between
-- them. What the dialer and the QUIC handshake give, and the underlay address of the peer
-- (underlayIPFromAddr, which asks DNS), are arguments. The wait for another dial is left out but for
-- the session that it finds.
pub mod Pinned
mod Tests
use hopscotch.Common.{
  ℕ, ◌*◌, Bool, true, false, not, ◌&&◌, ◌||◌, Option, none, some, List, [], ◌∷◌, ◌++◌, map, ite,
  if◌then◌else◌, ◌==◌, length, ltb,
}
use hopscotch.Common.Bytes.{Bytes, same, codes}
use hopscotch.Common.Maps.{Assoc, lookup, insert, delete}
use hopscotch.Endpoint.{Endpoint, to_string, is_self_addr}
use hopscotch.Endpoint
use hopscotch.Session.{Session, Sessions}
use hopscotch.Route.{eq_bytes}
use hopscotch.Node.{Node, Effect}
use hopscotch.Node.Peering.{Conn, Refusal, establish}

-- What dial reads and changes: n.advertise, n.dialing (the addresses that are true in it),
-- n.pinByAddr, and the node.
pub record DialState : Type 0 where
  pub node : Node
  pub advertise : List Bytes
  pub dialing : Assoc Bytes Bool
  pub pin_by_addr : Assoc Bytes Bytes

pub data DialError : Type 0 where
  to_self bad_endpoint no_dialer not_dialed no_handshake : DialError
  not_established : Refusal → DialError

-- The effects of the node's handlers, mux.Attach and the closing of the backend's session.
pub data DialEffect : Type 0 where
  handled : Effect → DialEffect
  attached closed_backend : DialEffect

pub data Begun : Type 0 where
  failed : DialError → Begun
  -- another call is dialing this address
  waits : Bytes → Begun
  -- the network and the address, and the text that the session is kept under
  dials : Endpoint → Bytes → Begun

abbrev is_dialing : Option Bool → Bool
is_dialing none = false
is_dialing (some b) = b

unfoldable pub begin_dial : DialState → Bytes → Bytes → (DialState × List DialEffect) × Begun
begin_dial st raw pin_ip =
    if length raw == 0 || is_self_addr st.advertise raw
    then ((st, []), failed to_self)
    else elim (Endpoint.parse raw (codes "udp")) [
      | none ↦ ((st, []), failed bad_endpoint)
      | some ep ↦
          if is_dialing (lookup same (to_string ep) st.dialing)
          then ((st, []), waits (to_string ep))
          else (
            (
              record st { dialing = insert same (to_string ep) true st.dialing },
              DialEffect.handled (Effect.retain_pin pin_ip) ∷ [],
            ),
            dials ep (to_string ep),
          )
    ]

-- What comes of a connection: no dialer of the network, an error of the dialer or of the handshake,
-- or a QUIC connection.
pub data Connected : Type 0 where
  unknown_network dial_error handshake_error : Connected
  connection : Conn → Connected

abbrev expected : Option Bytes → Bytes
expected none = []
expected (some key) = key

-- The session that was dialed, or the error.
pub data DialEnd : Type 0 where
  up : DialEnd
  down : DialError → DialEnd

-- From establish on: an error releases the pin, and a session owns it.
unfoldable pub after_establish :
    DialState
    → Bytes
    → Bytes
    → (Node × List Effect) × Option Refusal
    → (DialState × List DialEffect) × DialEnd
after_establish st addr pin_ip ((n, effects), refusal) =
    let st' : DialState = record st { node = n; dialing = delete same addr st.dialing } in
    let done = DialEffect.attached ∷ map DialEffect.handled effects in
    elim refusal [
      | none ↦ ((st', done), up)
      | some e ↦ (
        (st', done ++ DialEffect.handled (Effect.release_pin pin_ip) ∷ []),
        down (not_established e),
      )
    ]

unfoldable pub end_dial :
    (Bytes → Bytes)
    → ℕ
    → DialState
    → Bytes
    → Bytes
    → Connected
    → (DialState × List DialEffect) × DialEnd
end_dial digest handle st addr pin_ip connected =
    let ended = record st { dialing = delete same addr st.dialing } in
    let release = DialEffect.handled (Effect.release_pin pin_ip) ∷ [] in
    elim connected [
      | unknown_network ↦ ((ended, release), down no_dialer)
      | dial_error ↦ ((ended, release), down not_dialed)
      | handshake_error ↦
          ((ended, DialEffect.attached ∷ DialEffect.closed_backend ∷ release), down no_handshake)
      | connection conn ↦ after_establish st addr pin_ip (
          establish digest handle st.node true (expected (lookup same addr st.pin_by_addr)) addr
            pin_ip conn)
    ]

-- The session of an address whose connection is alive.
unfoldable pub session_by_addr : (Session → Bool) → Sessions → Bytes → Option Session
session_by_addr alive [] addr = none
session_by_addr alive ((id, s) ∷ m) addr =
    let rest = session_by_addr alive m addr in
    if eq_bytes s.addr addr && alive s then some s else rest

-- The wait of join after a round, in seconds, and the backoff from then on; by how many dials failed.
unfoldable pub next_wait : ℕ → ℕ → ℕ × ℕ
next_wait failures backoff =
    if failures == 0 then (1, 1) else (backoff, if ltb backoff 15 then backoff * 2 else backoff)
