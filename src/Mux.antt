-- ===== src/Mux.antt =====
-- internal/backend/mux.go: one packet connection over the sessions of the backends.
-- A backend session is an interface: its identity as a pointer is `handle`, and whether its Send works
-- and what its Recv returns are arguments. Read deadlines are left out but for the error that they
-- give. The channel `in` holds at most 64 datagrams; a loop that finds it full waits, so it has no
-- step then.
pub mod Order
pub mod Newest
mod Tests
use hopscotch.Common.{
  ℕ, Bool, true, false, not, Option, none, some, List, [], ◌∷◌, ◌++◌, ite, if◌then◌else◌, ◌==◌, ltb,
  length, take, min,
}
use hopscotch.Common.Bytes.{Bytes, same}
use hopscotch.Common.Maps.{Assoc, lookup, insert, delete}

-- backend.Session, with the text of its remote address.
pub record Backend : Type 0 where
  pub handle : ℕ
  pub remote : Bytes

pub record Datagram : Type 0 where
  pub bytes : Bytes
  pub addr : Bytes

pub record Mux : Type 0 where
  pub sessions : Assoc Bytes Backend
  pub queue : List Datagram
  pub closed : Bool

pub data MuxEffect : Type 0 where
  start_loop close_backend : Backend → MuxEffect
  send : Backend → Bytes → MuxEffect

-- cap(m.in)
abbrev pub queue_cap : ℕ
queue_cap = 64

unfoldable pub new_mux : Mux
new_mux = record { sessions = []; queue = []; closed = false }

unfoldable pub attach : Mux → Backend → Mux × List MuxEffect
attach m s =
    let m' = record m { sessions = insert same s.remote s m.sessions } in
    elim (lookup same s.remote m.sessions) [
      | none ↦ (m', MuxEffect.start_loop s ∷ [])
      | some old ↦
          if old.handle == s.handle
          then (m, [])
          else (m', MuxEffect.close_backend old ∷ MuxEffect.start_loop s ∷ [])
    ]

-- What Recv returns.
pub data Received : Type 0 where
  timed_out failed : Received
  got : Bytes → Received

-- How a round of readLoop ends.
pub data Round : Type 0 where
  again ended full : Round

-- One round of readLoop; when the mux is closed and there is room too, select takes either, as
-- `quits` says.
unfoldable pub read_round : Mux → Backend → Received → Bool → Mux × Round
read_round m s Received.timed_out quits = (m, if m.closed then Round.ended else Round.again)
read_round m s Received.failed quits = (m, Round.ended)
read_round m s (Received.got b) quits =
    let room = ltb (length m.queue) queue_cap in
    let taken : Mux × Round =
      (record m { queue = m.queue ++ record { bytes = b; addr = s.remote } ∷ [] }, Round.again) in
    if m.closed
    then if quits then (m, Round.ended) else if room then taken else (m, Round.ended)
    else if room
    then taken
    else (m, Round.full)

-- The deferred end of readLoop.
unfoldable pub end_loop : Mux → Backend → Mux
end_loop m s = elim (lookup same s.remote m.sessions) [
  | none ↦ m
  | some cur ↦
      if cur.handle == s.handle then record m { sessions = delete same s.remote m.sessions } else m
]

-- The select of ReadFrom, by the queue.
unfoldable pub read_queue : List Datagram → Mux → ℕ → Bool → Mux × Option (Option Datagram)
read_queue [] m size quits = (m, if m.closed then some none else none)
read_queue (d ∷ queue) m size quits =
    let taken : Mux × Option (Option Datagram) =
      (record m { queue = queue }, some (some (record d { bytes = take size d.bytes }))) in
    if m.closed then if quits then (m, some none) else taken else taken

-- What ReadFrom returns: net.ErrClosed, or what fits of a datagram. When both can be, select takes
-- either, as `quits` says; `none` is a call that waits.
unfoldable pub read_from : Mux → ℕ → Bool → Mux × Option (Option Datagram)
read_from m size quits = read_queue m.queue m size quits

pub data WriteError : Type 0 where
  nil_addr no_session send_failed : WriteError

-- The count of WriteTo, or its error. A nil address is `none`.
unfoldable pub write_to :
    Mux → Bytes → Option Bytes → Bool → (Option WriteError × ℕ) × List MuxEffect
write_to m p none works = ((some WriteError.nil_addr, 0), [])
write_to m p (some addr) works = elim (lookup same addr m.sessions) [
  | none ↦ ((some WriteError.no_session, 0), [])
  | some s ↦
      if works
      then ((none, length p), MuxEffect.send s p ∷ [])
      else ((some WriteError.send_failed, 0), MuxEffect.send s p ∷ [])
]

close_all : Assoc Bytes Backend → List MuxEffect
close_all [] = []
close_all ((key, s) ∷ m) = MuxEffect.close_backend s ∷ close_all m

unfoldable pub close : Mux → Mux × List MuxEffect
unfolding close_all
close m =
    if m.closed then (m, []) else (record m { closed = true; sessions = [] }, close_all m.sessions)

-- The calls of the loops and of the transport, in the order of their critical sections.
pub data MuxStep : Type 0 where
  attaching : Backend → MuxStep
  receiving : Backend → Received → Bool → MuxStep
  ending : Backend → MuxStep
  reading : ℕ → Bool → MuxStep
  closing : MuxStep

-- The datagrams that came in by a step, and those that it gives to its caller.
pub record Passed : Type 0 where
  pub taken : List Datagram
  pub given : List Datagram

abbrev given_by : Option (Option Datagram) → List Datagram
given_by none = []
given_by (some none) = []
given_by (some (some d)) = d ∷ []

-- What a round is done with of what Recv gave: the datagram, but not where the loop still holds it
-- and waits for room, nor where the loop ends since the mux is closed, which drops it.
abbrev taken_by : Bool → Backend → Received → Round → List Datagram
taken_by closed s Received.timed_out round = []
taken_by closed s Received.failed round = []
taken_by closed s (Received.got b) Round.again = record { bytes = b; addr = s.remote } ∷ []
taken_by closed s (Received.got b) Round.full = []
taken_by true s (Received.got b) Round.ended = []
taken_by false s (Received.got b) Round.ended = record { bytes = b; addr = s.remote } ∷ []

unfoldable pub mux_step : MuxStep → Mux → Mux × Passed
mux_step (MuxStep.attaching s) m = ((attach m s).0, record { taken = []; given = [] })
mux_step (MuxStep.receiving s received quits) m =
    let (m', round) = read_round m s received quits in
    (m', record { taken = taken_by m.closed s received round; given = [] })
mux_step (MuxStep.ending s) m = (end_loop m s, record { taken = []; given = [] })
mux_step (MuxStep.reading size quits) m =
    let (m', result) = read_from m size quits in
    (m', record { taken = []; given = given_by result })
mux_step MuxStep.closing m = ((close m).0, record { taken = []; given = [] })

unfoldable pub mux_steps : List MuxStep → Mux → Mux × Passed
mux_steps [] m = (m, record { taken = []; given = [] })
mux_steps (s ∷ ss) m =
    let (m', now) = mux_step s m in
    let (m'', later) = mux_steps ss m' in
    (m'', record { taken = now.taken ++ later.taken; given = now.given ++ later.given })
