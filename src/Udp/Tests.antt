-- ===== src/Udp/Tests.antt =====
-- Runs of a listener, and the theorems at concrete inputs.
use mathlib.Core.List.{Sublist}
use hopscotch.Common.{◌≡◌, refl, false, none, List, [], ◌∷◌, ◌++◌, ℕ_discrete, arith, ◌<◌, length}
use hopscotch.Common.Bytes.{Bytes, same, codes}
use hopscotch.Common.Maps.{lookup, insert, delete}
use hopscotch.Udp.{
  Handle, new_listener, set_recv, new_udp_session, session, receive, deliver, end_round, recv_queue,
  udp_recv, mark_closed, remove, UdpStep, udp_step, udp_steps,
}
use hopscotch.Udp.Order.{given_to, content, arrived_from, udp_steps-Sublist}
use hopscotch.Udp.Delivery.{end_round-receive}

abbrev near : Bytes
near = codes "10.0.0.7:4433"

abbrev far : Bytes
far = codes "[2001:db8::7]:4433"

abbrev first : Handle
first = record { serial = 0; raddr = near }

-- What a run computes with.
runs : Unit {0}
unfolding new_listener set_recv new_udp_session session receive deliver end_round recv_queue
    udp_recv mark_closed remove udp_step udp_steps lookup insert delete same ℕ_discrete
runs = tt

-- Two addresses take turns; the session of the first is closed before its last datagram comes, which
-- then has a session of its own.
abbrev steps : List UdpStep
steps =
    UdpStep.arriving near (1 ∷ [])
    ∷ UdpStep.delivering false
    ∷ UdpStep.arriving far (2 ∷ [])
    ∷ UdpStep.delivering false
    ∷ UdpStep.arriving near (3 ∷ [])
    ∷ UdpStep.delivering false
    ∷ UdpStep.receiving first false false
    ∷ UdpStep.marking first
    ∷ UdpStep.removing first
    ∷ UdpStep.arriving near (4 ∷ [])
    ∷ UdpStep.delivering false
    ∷ []

given_first : given_to first (udp_steps steps new_listener).1.given ≡ (1 ∷ []) ∷ []
unfolding runs
given_first = refl

left_first : content (udp_steps steps new_listener).0 first ≡ (3 ∷ []) ∷ []
unfolding runs
left_first = refl

left_third :
    content (udp_steps steps new_listener).0 (record { serial = 2; raddr = near }) ≡ (4 ∷ []) ∷ []
unfolding runs
left_third = refl

udp_steps-Sublist_example :
    Sublist
      (given_to first (udp_steps steps new_listener).1.given
        ++ content (udp_steps steps new_listener).0 first)
      (arrived_from near (udp_steps steps new_listener).1.arrived)
udp_steps-Sublist_example = udp_steps-Sublist steps first

is_opened : (session new_listener near).0.closed (session new_listener near).1 ≡ false
unfolding runs
is_opened = refl

has_room : length ((session new_listener near).0.recv (session new_listener near).1) < 32
unfolding runs
has_room = omega arith

idle : new_listener.pending ≡ none
unfolding runs
idle = refl

end_round-receive_example :
    (end_round (receive new_listener near (9 ∷ [])) false).recv (session new_listener near).1
    ≡ (session new_listener near).0.recv (session new_listener near).1 ++ ((9 ∷ []) ∷ [])
end_round-receive_example =
    end_round-receive new_listener near (9 ∷ []) false idle has_room is_opened
