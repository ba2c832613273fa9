-- ===== src/Node/Pins/Tests.antt =====
-- Runs of the host routes, and the theorem at a concrete input.
use hopscotch.Common.{◌≡◌, ◌+◌, refl, true, false, none, some, List, [], ◌∷◌, ℕ_discrete}
use hopscotch.Common.Bytes.{Bytes, codes, same}
use hopscotch.Common.Maps.{lookup, insert, delete}
use hopscotch.Node.Pins.{
  PinEffect, PinState, PinStep, begin_step, end_step, release_step, clear_step, pin_steps, pin_step,
  begin_retain, end_retain, release, clear_underlay_pins,
}
use hopscotch.Node.Pins.Balance.{pinned, reverted, held, flying}
use hopscotch.Node.Pins.Runs.{pin_steps_lem}

abbrev peer : Bytes
peer = codes "192.0.2.1"

abbrev nothing : PinState
nothing = record { made = false; pins = []; in_flight = [] }

-- Two calls pin the host at once, and one lets it go.
abbrev two_dials : List PinStep
two_dials =
    begin_step true peer
    ∷ begin_step true peer
    ∷ end_step peer
    ∷ end_step peer
    ∷ release_step peer
    ∷ []

-- What a run computes with.
runs : Unit {0}
unfolding pin_steps pin_step begin_retain end_retain release clear_underlay_pins lookup insert
    delete same ℕ_discrete
runs = tt

both :
    pin_steps two_dials nothing
    ≡ some (
      record { made = true; pins = (peer, 1) ∷ []; in_flight = [] },
      PinEffect.pin_host peer ∷ PinEffect.pin_host peer ∷ PinEffect.revert peer ∷ [],
    )
unfolding runs
both = refl

-- A node that is closed while PinHost runs writes to a nil map.
closed : pin_steps (begin_step true peer ∷ clear_step ∷ end_step peer ∷ []) nothing ≡ none
unfolding runs
closed = refl

pin_steps_lem_example :
    (r : PinState × List PinEffect) × (pin_steps two_dials nothing ≡ some r)
    × (pinned peer r.1 + (held peer nothing.pins + flying peer nothing.in_flight)
        ≡ reverted peer r.1 + (held peer r.0.pins + flying peer r.0.in_flight))
pin_steps_lem_example = pin_steps_lem peer two_dials nothing refl refl tt
