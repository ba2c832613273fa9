-- ===== src/Mux/Newest.antt =====
-- Where the mux sends: an abstract view of its sessions, and that the mux follows it.
use hopscotch.Common.{
  ℕ, ◌≡◌, refl, ◌∙◌, Bool, true, false, Option, none, some, List, [], ◌∷◌, ite, if◌then◌else◌,
  arith, ◌==◌,
}
use hopscotch.Common.Bytes.{Bytes, same}
use hopscotch.Common.Maps.{lookup, lookup-insert, lookup-delete}
use hopscotch.Mux.{
  Backend, Mux, MuxEffect, attach, read_round, Received, end_loop, read_from, read_queue, write_to,
  close, MuxStep, mux_step, mux_steps,
}

-- The session, by its handle, that serves each address, and whether the mux is closed.
pub record Hops : Type 0 where
  pub serves : Bytes → Option ℕ
  pub closed : Bool

abbrev is_handle : Option ℕ → ℕ → Bool
is_handle none h = false
is_handle (some g) h = g == h

-- A session serves its address from its attachment on, until another takes its place, its loop ends or
-- the mux is closed for the first time.
abbrev pub hops_step : MuxStep → Hops → Hops
hops_step (MuxStep.attaching s) v = record v {
  serves = λ a. ite (same s.remote a) (some s.handle) (v.serves a);
}
hops_step (MuxStep.receiving s received quits) v = v
hops_step (MuxStep.ending s) v = record v {
  serves = λ a.
      ite (same s.remote a) (if is_handle (v.serves a) s.handle then none else v.serves a)
        (v.serves a);
}
hops_step (MuxStep.reading size quits) v = v
hops_step MuxStep.closing v = record {
  serves = λ a. if v.closed then v.serves a else none;
  closed = true;
}

abbrev pub hops_steps : List MuxStep → Hops → Hops
hops_steps [] v = v
hops_steps (s ∷ ss) v = hops_steps ss (hops_step s v)

abbrev handle_of : Option Backend → Option ℕ
handle_of none = none
handle_of (some s) = some s.handle

-- The session that WriteTo sends over.
abbrev pub sent_over : List MuxEffect → Option ℕ
sent_over [] = none
sent_over (MuxEffect.send s p ∷ es) = some s.handle
sent_over (MuxEffect.start_loop s ∷ es) = sent_over es
sent_over (MuxEffect.close_backend s ∷ es) = sent_over es

abbrev pub hops : Mux → Hops
hops m = record { serves = λ a. handle_of (lookup same a m.sessions); closed = m.closed }

sent_over-write_to :
    (m : Mux) (p addr : Bytes) (works : Bool)
    → sent_over (write_to m p (some addr) works).1 ≡ handle_of (lookup same addr m.sessions)
unfolding write_to
sent_over-write_to m p addr works = ground arith

-- Views that agree on every address.
record Agree (v w : Hops) : Type 0 where
  serves : (a : Bytes) → v.serves a ≡ w.serves a
  closed : v.closed ≡ w.closed

hops_step-Agree : (s : MuxStep) (v w : Hops) → Agree v w → Agree (hops_step s v) (hops_step s w)
hops_step-Agree (MuxStep.attaching s) v w h = record {
  serves = λ a. rw (h.serves a) refl;
  closed = h.closed;
}
hops_step-Agree (MuxStep.receiving s received quits) v w h = h
hops_step-Agree (MuxStep.ending s) v w h = record {
  serves = λ a. rw (h.serves a) refl;
  closed = h.closed;
}
hops_step-Agree (MuxStep.reading size quits) v w h = h
hops_step-Agree MuxStep.closing v w h = record {
  serves = λ a. rw (h.serves a, h.closed) refl;
  closed = refl;
}

hops_steps-Agree :
    (ss : List MuxStep) (v w : Hops) → Agree v w → Agree (hops_steps ss v) (hops_steps ss w)
hops_steps-Agree [] v w h = h
hops_steps-Agree (s ∷ ss) v w h = hops_steps-Agree ss _ _ (hops_step-Agree s v w h)

attach-Agree :
    (m : Mux) (s : Backend) → Agree (hops (attach m s).0) (hops_step (MuxStep.attaching s) (hops m))
unfolding attach
attach-Agree m s = record {
  serves = λ a. ground (arith, lookup-insert same s.remote a s m.sessions);
  closed = ground arith;
}

end_loop-Agree :
    (m : Mux) (s : Backend) → Agree (hops (end_loop m s)) (hops_step (MuxStep.ending s) (hops m))
unfolding end_loop
end_loop-Agree m s = record {
  serves = λ a. ground (arith, lookup-delete same s.remote a m.sessions);
  closed = ground arith;
}

read_round-Agree :
    (m : Mux) (s : Backend) (received : Received) (quits : Bool)
    → Agree (hops (read_round m s received quits).0) (hops m)
unfolding read_round
read_round-Agree m s Received.timed_out quits = record { serves = λ a. refl; closed = refl }
read_round-Agree m s Received.failed quits = record { serves = λ a. refl; closed = refl }
read_round-Agree m s (Received.got b) quits = record {
  serves = λ a. ground arith;
  closed = ground arith;
}

read_from-Agree :
    (m : Mux) (size : ℕ) (quits : Bool) → Agree (hops (read_from m size quits).0) (hops m)
unfolding read_from read_queue
read_from-Agree m size quits = record { serves = λ a. ground arith; closed = ground arith }

close-Agree : (m : Mux) → Agree (hops (close m).0) (hops_step MuxStep.closing (hops m))
unfolding close lookup
close-Agree m = record { serves = λ a. ground arith; closed = ground arith }

mux_step-Agree : (s : MuxStep) (m : Mux) → Agree (hops (mux_step s m).0) (hops_step s (hops m))
unfolding mux_step
mux_step-Agree (MuxStep.attaching s) m = attach-Agree m s
mux_step-Agree (MuxStep.receiving s received quits) m = read_round-Agree m s received quits
mux_step-Agree (MuxStep.ending s) m = end_loop-Agree m s
mux_step-Agree (MuxStep.reading size quits) m = read_from-Agree m size quits
mux_step-Agree MuxStep.closing m = close-Agree m

both : (u v w : Hops) → Agree u v → Agree v w → Agree u w
both u v w g h = record { serves = λ a. g.serves a ∙ h.serves a; closed = g.closed ∙ h.closed }

mux_steps-Agree :
    (ss : List MuxStep) (m : Mux) → Agree (hops (mux_steps ss m).0) (hops_steps ss (hops m))
unfolding mux_steps
mux_steps-Agree [] m = record { serves = λ a. refl; closed = refl }
mux_steps-Agree (s ∷ ss) m =
    both _ _ _ (mux_steps-Agree ss (mux_step s m).0) (hops_steps-Agree ss _ _ (mux_step-Agree s m))

-- After any run of the calls and loops of a mux, WriteTo sends to an address over the session that the
-- abstract view of the run has there, and over none where it has none: the session attached last for
-- the address, unless its own loop has ended or the mux was closed since; the loop of a session that
-- was replaced ends without effect on it.
pub write_to-mux_steps :
    (ss : List MuxStep) (m : Mux) (p addr : Bytes) (works : Bool)
    → sent_over (write_to (mux_steps ss m).0 p (some addr) works).1
      ≡ (hops_steps ss (hops m)).serves addr
write_to-mux_steps ss m p addr works =
    sent_over-write_to (mux_steps ss m).0 p addr works ∙ (mux_steps-Agree ss m).serves addr
