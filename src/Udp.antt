-- ===== src/Udp.antt =====
-- internal/backend/udp.go: one socket shared by the sessions of the addresses that send to it. A session
-- is a pointer: its handle is a serial number and the text of its remote address. The socket is left
-- out but for the datagrams that it gives.
pub mod Order
pub mod Delivery
mod Tests
use hopscotch.Common.{
  ℕ, ◌+◌, ◌≡◌, Bool, true, false, not, ◌&&◌, Option, none, some, List, [], ◌∷◌, ◌++◌, ite,
  if◌then◌else◌, ltb, length,
}
use hopscotch.Common.Bytes.{Bytes, same}
use hopscotch.Common.Maps.{Assoc, lookup, insert, delete}

pub record Handle : Type 0 where
  pub serial : ℕ
  pub raddr : Bytes

abbrev pub is_same : (g h : Handle) → Dec ((g.serial ∷ g.raddr) ≡ (h.serial ∷ h.raddr))
is_same g h = same (g.serial ∷ g.raddr) (h.serial ∷ h.raddr)

-- A datagram between the two critical sections of a round of Start, and whether its session is new.
pub record Pending : Type 0 where
  pub to : Handle
  pub bytes : Bytes
  pub fresh : Bool

-- The channels recv and closed of every session, and the number of the next one.
pub record UdpListener : Type 0 where
  pub by_addr : Assoc Bytes Handle
  pub next : ℕ
  pub recv : Handle → List Bytes
  pub closed : Handle → Bool
  pub pending : Option Pending

-- cap(recv)
abbrev pub recv_cap : ℕ
recv_cap = 32

unfoldable pub new_listener : UdpListener
new_listener = record {
  by_addr = [];
  next = 0;
  recv = λ h. [];
  closed = λ h. false;
  pending = none;
}

unfoldable pub set_recv : UdpListener → Handle → List Bytes → UdpListener
set_recv l h queue = record l { recv = λ g. ite (is_same h g) queue (l.recv g) }

-- newUDPListenSession, and its entry in the map.
unfoldable pub new_udp_session : UdpListener → Bytes → UdpListener × Handle
new_udp_session l raddr =
    let h : Handle = record { serial = l.next; raddr = raddr } in
    (
      record (set_recv l h []) {
        by_addr = insert same raddr h l.by_addr;
        next = l.next + 1;
        closed = λ g. ite (is_same h g) false (l.closed g);
      },
      h,
    )

-- session, which Dial calls.
unfoldable pub session : UdpListener → Bytes → UdpListener × Handle
session l raddr = elim (lookup same raddr l.by_addr) [
  | some h ↦ (l, h)
  | none ↦ new_udp_session l raddr
]

-- A round of Start up to the wait on the channel of sessions. The loop is one goroutine: with a
-- datagram at hand it reads none.
unfoldable pub receive : UdpListener → Bytes → Bytes → UdpListener
receive l raddr bytes = elim l.pending [
  | some p ↦ l
  | none ↦ elim (lookup same raddr l.by_addr) [
    | some h ↦ record l { pending = some record { to = h; bytes = bytes; fresh = false } }
    | none ↦
        let (l', h) = new_udp_session l raddr in
        record l' { pending = some record { to = h; bytes = bytes; fresh = true } }
  ]
]

-- The select of deliver: with room, and the session closed, either can be, as `quits` says.
unfoldable pub deliver : UdpListener → Handle → Bytes → Bool → UdpListener
deliver l h bytes quits =
    if ltb (length (l.recv h)) recv_cap && not (l.closed h && quits)
    then set_recv l h (l.recv h ++ (bytes ∷ []))
    else l

-- The end of a round of Start.
unfoldable pub end_round : UdpListener → Bool → UdpListener
end_round l quits = elim l.pending [
  | none ↦ l
  | some p ↦ record (deliver l p.to p.bytes quits) { pending = none }
]

-- The context ends while the loop offers a new session.
unfoldable pub abandon : UdpListener → UdpListener
abandon l = elim l.pending [
  | none ↦ l
  | some p ↦ if p.fresh then record l { pending = none } else l
]

pub data UdpReceived : Type 0 where
  got : Bytes → UdpReceived
  net_closed timed_out waits : UdpReceived

-- The select of Recv, by the queue; of what can be, `late` takes the timer and `quits` the closing.
unfoldable pub recv_queue :
    List Bytes → UdpListener → Handle → Bool → Bool → UdpListener × UdpReceived
recv_queue queue l h true quits = (l, timed_out)
recv_queue [] l h false quits = (l, if l.closed h then net_closed else waits)
recv_queue (b ∷ queue) l h false quits =
    if l.closed h && quits then (l, net_closed) else (set_recv l h queue, got b)

unfoldable pub udp_recv : UdpListener → Handle → Bool → Bool → UdpListener × UdpReceived
udp_recv l h late quits = recv_queue (l.recv h) l h late quits

-- The two halves of Close: the channel, and the map.
unfoldable pub mark_closed : UdpListener → Handle → UdpListener
mark_closed l h = record l { closed = λ g. ite (is_same h g) true (l.closed g) }

unfoldable pub remove : UdpListener → Handle → UdpListener
remove l h = elim (lookup same h.raddr l.by_addr) [
  | none ↦ l
  | some cur ↦ ite (is_same cur h) (record l { by_addr = delete same h.raddr l.by_addr }) l
]

-- The critical sections, in their order.
pub data UdpStep : Type 0 where
  dialing : Bytes → UdpStep
  arriving : Bytes → Bytes → UdpStep
  delivering : Bool → UdpStep
  abandoning : UdpStep
  receiving : Handle → Bool → Bool → UdpStep
  marking removing : Handle → UdpStep

-- The datagrams that a step reads, with their addresses, and those that it gives to a caller.
pub record Traffic : Type 0 where
  pub arrived : List (Bytes × Bytes)
  pub given : List (Handle × Bytes)

abbrev pub quiet : Traffic
quiet = record { arrived = []; given = [] }

abbrev given_by : Handle → UdpReceived → List (Handle × Bytes)
given_by h (got b) = (h, b) ∷ []
given_by h net_closed = []
given_by h timed_out = []
given_by h waits = []

abbrev arrived_by : Option Pending → Bytes → Bytes → List (Bytes × Bytes)
arrived_by none raddr bytes = (raddr, bytes) ∷ []
arrived_by (some p) raddr bytes = []

unfoldable pub udp_step : UdpStep → UdpListener → UdpListener × Traffic
udp_step (UdpStep.dialing raddr) l = ((session l raddr).0, quiet)
udp_step (UdpStep.arriving raddr bytes) l =
    (receive l raddr bytes, record { arrived = arrived_by l.pending raddr bytes; given = [] })
udp_step (UdpStep.delivering quits) l = (end_round l quits, quiet)
udp_step UdpStep.abandoning l = (abandon l, quiet)
udp_step (UdpStep.receiving h late quits) l =
    let (l', r) = udp_recv l h late quits in (l', record { arrived = []; given = given_by h r })
udp_step (UdpStep.marking h) l = (mark_closed l h, quiet)
udp_step (UdpStep.removing h) l = (remove l h, quiet)

unfoldable pub udp_steps : List UdpStep → UdpListener → UdpListener × Traffic
udp_steps [] l = (l, quiet)
udp_steps (s ∷ ss) l =
    let (l', now) = udp_step s l in
    let (l'', later) = udp_steps ss l' in
    (l'', record { arrived = now.arrived ++ later.arrived; given = now.given ++ later.given })
