-- ===== src/Node.antt =====
-- internal/node: the state of a node, and what a handler does to the outside.
-- A handler takes the node and returns it changed, with its effects in the order in which the code
-- performs them. Mutexes are left out: a handler's critical sections follow one another in one step.
pub mod Routing
pub mod Echo
pub mod Overlay
pub mod Pins
pub mod Peering
pub mod ExitDefaults
pub mod Trace
pub mod Dial
pub mod Lifecycle
pub mod Network
mod Tests
use hopscotch.Common.{ℕ, Bool, Option, List, [], ◌∷◌, ite}
use hopscotch.Common.Bytes.{Bytes, same}
use hopscotch.Common.Int.{ℤ}
use hopscotch.Common.Maps.{Assoc}
use hopscotch.Session.{Session, Sessions}
use hopscotch.Route.{Rib, Advert}

-- internal/proto/proto.go: the fields of Message that the handlers of this development read.
pub record Message : Type 0 where
  pub kind : Bytes
  pub rpc : ℕ
  pub name : Bytes
  pub origin : Bytes
  pub path : List Bytes
  pub ttl : ℤ
  pub failure : Bytes
  pub ula : Bytes
  pub routes : List Advert

-- An echo in flight: the session to send the reply back on (nil is `none`), and whether a caller of
-- Echo waits on a channel.
pub record EchoWait : Type 0 where
  pub back : Option Session
  pub waiting : Bool

pub record Node : Type 0 where
  pub id : Bytes
  pub names : List Bytes
  pub exit : Bool
  pub exit_node : Bytes
  pub sessions : Sessions
  pub routes : Rib
  pub rpc_seq : ℕ
  pub echo_wait : Assoc Bytes EchoWait
  -- the resolved exit (nil is `[]`), and the clients by their plumbing address
  pub exit_ula : Bytes
  pub exit_clients : Assoc Bytes Bytes
  -- whether a TUN and a userspace stack are attached
  pub tun : Bool
  pub stack : Bool

pub data Effect : Type 0 where
  -- n.write(s, m)
  send : Session → Message → Effect
  -- s.conn.SendDatagram(pkt)
  send_packet : Session → Bytes → Effect
  -- s.uniQ <- pkt
  queue_packet : Session → Bytes → Effect
  -- the packet tap, the TUN, the userspace stack
  tap_packet : Bytes → Effect
  write_tun : Bytes → Effect
  inject : Bytes → Effect
  -- a reply handed to the waiting caller of Echo
  hand_over : Bytes → Message → Effect
  -- syncExitHostDefaults, releaseUnderlayPin, closing a replaced connection
  sync_exit : Effect
  release_pin : Bytes → Effect
  close_session : Session → Effect
  -- retainUnderlayPin, refusing a connection with a reason, and the reply to a call that is pending
  retain_pin : Bytes → Effect
  refuse : Bytes → Effect
  pending_reply : Session → Message → Effect
