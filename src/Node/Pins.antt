-- ===== src/Node/Pins.antt =====
-- internal/node/underlay_pin.go: host routes for the underlay, shared by the sessions of one host.
-- retainUnderlayPin lets its lock go while tun.PinHost runs: its two critical sections are two
-- steps, and any steps of other calls may come between them.
pub mod Balance
pub mod Runs
mod Tests
use hopscotch.Common.{
  ℕ, zero, suc, ◌+◌, ◌-◌, Bool, true, false, Option, none, some, List, [], ◌∷◌, ◌++◌, ite, ltb,
  ◌==◌, if◌then◌else◌, length,
}
use hopscotch.Common.Bytes.{Bytes, same}
use hopscotch.Common.Maps.{Assoc, lookup, insert, delete}
use hopscotch.Ip.{ip_string}

-- What is done to the host: tun.PinHost, and the revert that it returned.
pub data PinEffect : Type 0 where
  pin_host revert : Bytes → PinEffect

-- map[string]*underlayPin: the `refs` of each pin.
abbrev pub UnderlayPins : Type 0
UnderlayPins = Assoc Bytes ℕ

-- `made` is whether the map is there (a nil map reads as an empty one), and `in_flight` holds the
-- keys of the calls that have pinned a host and not yet taken the lock again.
pub record PinState : Type 0 where
  pub made : Bool
  pub pins : UnderlayPins
  pub in_flight : List Bytes

-- The first section of retainUnderlayPin, and PinHost, which fails if not `works`.
unfoldable pub begin_retain : Bool → Bytes → PinState → PinState × List PinEffect
begin_retain works key st = elim (lookup same key st.pins) [
  | some refs ↦ (record st { made = true; pins = insert same key (suc refs) st.pins }, [])
  | none ↦
      if works
      then (record st { made = true; in_flight = key ∷ st.in_flight }, PinEffect.pin_host key ∷ [])
      else (record st { made = true }, [])
]

-- One occurrence less.
abbrev pub remove : Bytes → List Bytes → List Bytes
remove key [] = []
remove key (k ∷ ks) = let rest = remove key ks in ite (same k key) ks (k ∷ rest)

-- The second section of retainUnderlayPin; `none` is the panic of a write to a nil map.
unfoldable pub end_retain : Bytes → PinState → Option (PinState × List PinEffect)
end_retain key st =
    let flight = remove key st.in_flight in
    elim (lookup same key st.pins) [
      | some refs ↦ some (
        record st { pins = insert same key (suc refs) st.pins; in_flight = flight },
        PinEffect.revert key ∷ [],
      )
      | none ↦
          if st.made
          then some (record st { pins = insert same key 1 st.pins; in_flight = flight }, [])
          else none
    ]

-- `p.refs > 0` after the decrement is `refs > 1` before it.
unfoldable pub release : Bytes → PinState → PinState × List PinEffect
release key st = elim (lookup same key st.pins) [
  | none ↦ (st, [])
  | some refs ↦
      if ltb 1 refs
      then (record st { pins = insert same key (refs - 1) st.pins }, [])
      else (record st { pins = delete same key st.pins }, PinEffect.revert key ∷ [])
]

reverts_of : UnderlayPins → List PinEffect
reverts_of [] = []
reverts_of ((key, refs) ∷ pins) = PinEffect.revert key ∷ reverts_of pins

unfoldable pub clear_underlay_pins : PinState → PinState × List PinEffect
unfolding reverts_of
clear_underlay_pins st = (record st { made = false; pins = [] }, reverts_of st.pins)

-- The steps of any number of calls at once; an address is given by its text. A nil address does
-- nothing and has no step.
pub data PinStep : Type 0 where
  begin_step : Bool → Bytes → PinStep
  end_step : Bytes → PinStep
  release_step : Bytes → PinStep
  clear_step : PinStep

abbrev pub flies : Bytes → List Bytes → Bool
flies key [] = false
flies key (k ∷ ks) = let rest = flies key ks in ite (same k key) true rest

-- The second section runs for a call that has left the first with a pinned host.
unfoldable pub pin_step : PinStep → PinState → Option (PinState × List PinEffect)
pin_step (begin_step works key) st = some (begin_retain works key st)
pin_step (end_step key) st = if flies key st.in_flight then end_retain key st else some (st, [])
pin_step (release_step key) st = some (release key st)
pin_step clear_step st = some (clear_underlay_pins st)

abbrev then_effects :
    List PinEffect → Option (PinState × List PinEffect) → Option (PinState × List PinEffect)
then_effects before none = none
then_effects before (some (st, after)) = some (st, before ++ after)

-- The steps in their order, up to a panic.
unfoldable pub pin_steps : List PinStep → PinState → Option (PinState × List PinEffect)
pin_steps [] st = some (st, [])
pin_steps (s ∷ ss) st = elim (pin_step s st) [
  | none ↦ none
  | some (st', effects) ↦ then_effects effects (pin_steps ss st')
]
