-- ===== src/Mux/Tests.antt =====
-- Runs of a mux, and the theorems at concrete inputs.
use hopscotch.Common.{◌≡◌, refl, true, false, some, List, [], ◌∷◌, ◌++◌, ℕ_discrete}
use hopscotch.Common.Bytes.{Bytes, same, codes}
use hopscotch.Common.Maps.{lookup, insert, delete}
use hopscotch.Mux.{
  Backend, new_mux, attach, Received, read_round, end_loop, read_queue, read_from, WriteError,
  write_to, close, MuxStep, mux_step, mux_steps,
}
use hopscotch.Mux.Order.{InOrder, mux_steps-InOrder}
use hopscotch.Mux.Newest.{sent_over, hops, hops_steps, write_to-mux_steps}

abbrev addr : Bytes
addr = codes "udp:10.0.0.7:4433"

abbrev first : Backend
first = record { handle = 1; remote = addr }

abbrev second : Backend
second = record { handle = 2; remote = addr }

-- What a run computes with.
runs : Unit {0}
unfolding new_mux attach read_round end_loop read_queue read_from write_to close mux_step mux_steps
    lookup insert delete same ℕ_discrete
runs = tt

-- The second session takes the place of the first, whose loop ends afterwards.
abbrev steps : List MuxStep
steps =
    MuxStep.attaching first
    ∷ MuxStep.receiving first (Received.got (1 ∷ 2 ∷ 3 ∷ [])) false
    ∷ MuxStep.attaching second
    ∷ MuxStep.receiving second (Received.got (4 ∷ [])) false
    ∷ MuxStep.ending first
    ∷ MuxStep.reading 2 false
    ∷ []

given : (mux_steps steps new_mux).1.given ≡ record { bytes = 1 ∷ 2 ∷ []; addr = addr } ∷ []
unfolding runs
given = refl

sent_over_second :
    sent_over (write_to (mux_steps steps new_mux).0 (9 ∷ []) (some addr) true).1 ≡ some 2
unfolding runs
sent_over_second = refl

closed_mux :
    (write_to (mux_steps (steps ++ (MuxStep.closing ∷ [])) new_mux).0 (9 ∷ []) (some addr) true).0
    ≡ (some WriteError.no_session, 0)
unfolding runs
closed_mux = refl

mux_steps-InOrder_example : InOrder new_mux (mux_steps steps new_mux)
mux_steps-InOrder_example = mux_steps-InOrder steps new_mux

write_to-mux_steps_example :
    sent_over (write_to (mux_steps steps new_mux).0 (9 ∷ []) (some addr) true).1
    ≡ (hops_steps steps (hops new_mux)).serves addr
write_to-mux_steps_example = write_to-mux_steps steps new_mux (9 ∷ []) addr true
