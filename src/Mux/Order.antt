-- ===== src/Mux/Order.antt =====
-- Datagrams leave the mux in the order in which the loops of its sessions put them in.
use hopscotch.Common.{
  ℕ, ◌≤◌, ◌≡◌, refl, sym, ap, ◌∙◌, Bool, true, false, Option, none, some, List, [], ◌∷◌, ◌++◌,
  append-nil, append_assoc, if◌then◌else◌, ltb, ltb→lt, length, length-append, take, arith,
}
use hopscotch.Common.Bytes.{Bytes}
use hopscotch.Mux.{
  Backend, Datagram, Mux, queue_cap, attach, Received, Round, read_round, end_loop, read_queue,
  read_from, close, MuxStep, Passed, given_by, taken_by, mux_step, mux_steps,
}

-- What the callers get is what was in the queue, cut to the size of their buffers.
pub data Copies : List Datagram → List Datagram → Type 0 where
  no_more : Copies [] []
  copied :
      {given dequeued : List Datagram} (d : Datagram) (size : ℕ)
      → Copies given dequeued
      → Copies (record d { bytes = take size d.bytes } ∷ given) (d ∷ dequeued)

Copies-append : {a b c d : List Datagram} → Copies a b → Copies c d → Copies (a ++ c) (b ++ d)
Copies-append Copies.no_more h = h
Copies-append (Copies.copied d size g) h = Copies.copied d size (Copies-append g h)

-- What was in the queue and what came in is what left and what is still there, in that order.
pub record InOrder (m : Mux) (r : Mux × Passed) : Type 0 where
  pub dequeued : List Datagram
  pub copies : Copies r.1.given dequeued
  pub order : m.queue ++ r.1.taken ≡ dequeued ++ r.0.queue
  pub bounded : length m.queue ≤ queue_cap → length r.0.queue ≤ queue_cap

nothing_moved :
    (m m' : Mux) → m'.queue ≡ m.queue → InOrder m (m', record { taken = []; given = [] })
nothing_moved m m' e = record {
  dequeued = [];
  copies = Copies.no_more;
  order = append-nil m.queue ∙ sym e;
  bounded = λ h. rw e h;
}

queue-attach : (m : Mux) (s : Backend) → (attach m s).0.queue ≡ m.queue
unfolding attach
queue-attach m s = ground arith

queue-end_loop : (m : Mux) (s : Backend) → (end_loop m s).queue ≡ m.queue
unfolding end_loop
queue-end_loop m s = ground arith

queue-close : (m : Mux) → (close m).0.queue ≡ m.queue
unfolding close
queue-close m = ground arith

abbrev round_passed : Bool → Backend → Received → Mux × Round → Mux × Passed
round_passed closed s received r =
    (r.0, record { taken = taken_by closed s received r.1; given = [] })

-- A round adds to the end of the queue what Recv gave, where there is room.
enqueue :
    (closed : Bool) (m : Mux) (s : Backend) (b : Bytes)
    → ltb (length m.queue) queue_cap ≡ true
    → InOrder m (
        round_passed closed s
          (Received.got b)
          (record m { queue = m.queue ++ record { bytes = b; addr = s.remote } ∷ [] }, Round.again))
enqueue closed m s b room = record {
  dequeued = [];
  copies = Copies.no_more;
  order = refl;
  bounded = λ _.
      omega (
        arith,
        ltb→lt _ _ room,
        length-append m.queue (record { bytes = b; addr = s.remote } ∷ []),
      );
}

abbrev picked : Bool → Bool → Bool → Mux → Mux → Mux × Round
picked closed quits room m taken =
    if closed
    then if quits then (m, Round.ended) else if room then (taken, Round.again) else (m, Round.ended)
    else if room
    then (taken, Round.again)
    else (m, Round.full)

picked-InOrder :
    (closed quits room : Bool) (m taken : Mux) (s : Backend) (b : Bytes)
    → (room ≡ true → InOrder m (round_passed closed s (Received.got b) (taken, Round.again)))
    → InOrder m (round_passed closed s (Received.got b) (picked closed quits room m taken))
picked-InOrder true true room m taken s b h = nothing_moved m m refl
picked-InOrder true false false m taken s b h = nothing_moved m m refl
picked-InOrder true false true m taken s b h = h refl
picked-InOrder false quits false m taken s b h = nothing_moved m m refl
picked-InOrder false quits true m taken s b h = h refl

read_round-InOrder :
    (m : Mux) (s : Backend) (received : Received) (quits : Bool)
    → InOrder m (round_passed m.closed s received (read_round m s received quits))
unfolding read_round
read_round-InOrder m s Received.timed_out quits = nothing_moved m m refl
read_round-InOrder m s Received.failed quits = nothing_moved m m refl
read_round-InOrder m s (Received.got b) quits =
    picked-InOrder m.closed quits (ltb (length m.queue) queue_cap) m _ s b (enqueue m.closed m s b)

abbrev read_passed : Mux × Option (Option Datagram) → Mux × Passed
read_passed r = (r.0, record { taken = []; given = given_by r.1 })

dequeue :
    (m : Mux) (d : Datagram) (queue : List Datagram) (size : ℕ)
    → m.queue ≡ d ∷ queue
    → InOrder m (
        read_passed
          (record m { queue = queue }, some (some (record d { bytes = take size d.bytes }))))
dequeue m d queue size e = record {
  dequeued = d ∷ [];
  copies = Copies.copied d size Copies.no_more;
  order = append-nil m.queue ∙ e;
  bounded = λ h. omega (arith, h, ap length e);
}

waiting :
    (closed : Bool) (m : Mux) → InOrder m (read_passed (m, if closed then some none else none))
waiting true m = nothing_moved m m refl
waiting false m = nothing_moved m m refl

chosen-InOrder :
    (closed quits : Bool) (m : Mux) (taken : Mux × Option (Option Datagram))
    → InOrder m (read_passed taken)
    → InOrder m (read_passed (if closed then if quits then (m, some none) else taken else taken))
chosen-InOrder true true m taken h = nothing_moved m m refl
chosen-InOrder true false m taken h = h
chosen-InOrder false quits m taken h = h

read_queue-InOrder :
    (queue : List Datagram) (m : Mux) (size : ℕ) (quits : Bool)
    → m.queue ≡ queue
    → InOrder m (read_passed (read_queue queue m size quits))
unfolding read_queue
read_queue-InOrder [] m size quits e = waiting m.closed m
read_queue-InOrder (d ∷ queue) m size quits e =
    chosen-InOrder m.closed quits m _ (dequeue m d queue size e)

mux_step-InOrder : (step : MuxStep) (m : Mux) → InOrder m (mux_step step m)
unfolding mux_step read_from
mux_step-InOrder (MuxStep.attaching s) m = nothing_moved m _ (queue-attach m s)
mux_step-InOrder (MuxStep.receiving s received quits) m = read_round-InOrder m s received quits
mux_step-InOrder (MuxStep.ending s) m = nothing_moved m _ (queue-end_loop m s)
mux_step-InOrder (MuxStep.reading size quits) m = read_queue-InOrder m.queue m size quits refl
mux_step-InOrder MuxStep.closing m = nothing_moved m _ (queue-close m)

-- In any run of the calls and loops of a mux, what was in its queue and what Recv gave its loops, in
-- that order, is what ReadFrom gave, cut to the size of each buffer, and what is still in the queue:
-- nothing is lost, doubled or reordered. A datagram counts once its loop goes on, or ends while the
-- mux is open; a loop that finds the queue full still holds its datagram, and one that ends since the
-- mux is closed may drop it. The queue keeps within its capacity.
pub mux_steps-InOrder : (steps : List MuxStep) (m : Mux) → InOrder m (mux_steps steps m)
unfolding mux_steps
mux_steps-InOrder [] m = nothing_moved m m refl
mux_steps-InOrder (s ∷ ss) m =
    let now = mux_step-InOrder s m in
    let later = mux_steps-InOrder ss (mux_step s m).0 in
    record {
      dequeued = now.dequeued ++ later.dequeued;
      copies = Copies-append now.copies later.copies;
      order =
          sym (append_assoc m.queue _ _)
          ∙ ap (λ q. q ++ (mux_steps ss (mux_step s m).0).1.taken) now.order
          ∙ append_assoc now.dequeued _ _
          ∙ ap (λ q. now.dequeued ++ q) later.order
          ∙ sym (append_assoc now.dequeued _ _);
      bounded = λ h. later.bounded (now.bounded h);
    }
