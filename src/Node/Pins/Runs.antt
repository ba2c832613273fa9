-- ===== src/Node/Pins/Runs.antt =====
-- Any interleaving of the calls that share the host routes.
use hopscotch.Common.{
  suc, ◌+◌, ◌≡◌, refl, Bool, true, false, ◌||◌, some, List, [], ◌∷◌, ◌++◌, arith, ◌==◌, length,
  Option-cases, Bool-cases, inl, inr,
}
use hopscotch.Common.Bytes.{Bytes, same}
use hopscotch.Common.Maps.{lookup, insert, Unique}
use hopscotch.Node.Pins.{
  PinEffect, PinState, begin_retain, end_retain, release, PinStep, begin_step, end_step,
  release_step, clear_step, pin_step, pin_steps, flies, remove,
}
use hopscotch.Node.Pins.Balance.{pinned, reverted, held, flying, Balanced, pin_step-Kept}

count-append :
    (q : Bytes) (a b : List PinEffect)
    → (pinned q (a ++ b) ≡ pinned q a + pinned q b)
      × (reverted q (a ++ b) ≡ reverted q a + reverted q b)
count-append q [] b = (omega arith, omega arith)
count-append q (PinEffect.pin_host k ∷ a) b = ground (arith, count-append q a b)
count-append q (PinEffect.revert k ∷ a) b = ground (arith, count-append q a b)

-- No state has the map of pins missing while a call is between its sections.
abbrev pub is_safe : PinState → Bool
is_safe st = length st.in_flight == 0 || st.made

abbrev pub is_clear : PinStep → Bool
is_clear (begin_step works key) = false
is_clear (end_step key) = false
is_clear (release_step key) = false
is_clear clear_step = true

abbrev pub any_clear : List PinStep → Bool
any_clear [] = false
any_clear (s ∷ ss) = is_clear s || any_clear ss

pub pin_steps-Balanced :
    (q : Bytes) (ss : List PinStep) (st : PinState) (r : PinState × List PinEffect)
    → Unique same st.pins
    → pin_steps ss st ≡ some r
    → Balanced q st r
unfolding pin_steps
pin_steps-Balanced q [] st r u h = let e : r ≡ (st, []) = cc h in rw e refl
pin_steps-Balanced q (s ∷ ss) st r u h = elim (Option-cases (pin_step s st)) [
  | inl bad ↦ absurd (ground (arith, rw (bad, pin_steps) at h))
  | inr ((st', before), now) ↦ elim (Option-cases (pin_steps ss st')) [
    | inl bad ↦ absurd (ground (arith, rw (now, bad, pin_steps) at h))
    | inr ((st'', after), later) ↦
        let kept = pin_step-Kept q s st (st', before) u now in
        let rest = pin_steps-Balanced q ss st' (st'', after) kept.unique later in
        let done : some (st'', before ++ after) ≡ some r = rw (now, later, pin_steps) at h in
        let e : r ≡ (st'', before ++ after) = cc done in
        rw e (
          omega (
            arith,
            kept.balanced,
            rest,
            (count-append q before after).0,
            (count-append q before after).1,
          ))
  ]
]

begin_safe :
    (works : Bool) (key : Bytes) (st : PinState) → is_safe (begin_retain works key st).0 ≡ true
unfolding begin_retain
begin_safe works key st = ground arith

release_safe : (key : Bytes) (st : PinState) → is_safe st ≡ true → is_safe (release key st).0 ≡ true
unfolding release
release_safe key st h = ground (arith, h)

flies_some : (key : Bytes) (ks : List Bytes) → flies key ks ≡ true → (length ks == 0) ≡ false
flies_some key [] h = absurd (ground (arith, h))
flies_some key (k ∷ ks) h = ground arith

end_safe :
    (key : Bytes) (st : PinState)
    → st.made ≡ true
    → (r : PinState × List PinEffect) × (end_retain key st ≡ some r) × (r.0.made ≡ true)
unfolding end_retain
end_safe key st made = elim (Option-cases (lookup same key st.pins)) [
  | inl absent ↦ (
    (record st { pins = insert same key 1 st.pins; in_flight = remove key st.in_flight }, []),
    rw (absent, made, end_retain) refl,
    made,
  )
  | inr (refs, found) ↦ (
    (
      record st { pins = insert same key (suc refs) st.pins; in_flight = remove key st.in_flight },
      PinEffect.revert key ∷ [],
    ),
    rw (found, end_retain) refl,
    made,
  )
]

safe_of_made : (st : PinState) → st.made ≡ true → is_safe st ≡ true
safe_of_made st h = ground (arith, h)

made_of_safe :
    (st : PinState) → is_safe st ≡ true → (length st.in_flight == 0) ≡ false → st.made ≡ true
made_of_safe st h e = ground (arith, h, e)

step_safe :
    (s : PinStep) (st : PinState)
    → is_clear s ≡ false
    → is_safe st ≡ true
    → (r : PinState × List PinEffect) × (pin_step s st ≡ some r) × (is_safe r.0 ≡ true)
unfolding pin_step
step_safe (begin_step works key) st calm safe =
    (begin_retain works key st, refl, begin_safe works key st)
step_safe (end_step key) st calm safe = elim (Bool-cases (flies key st.in_flight)) [
  | inl on ↦
      let (r, e, made) = end_safe key st (made_of_safe st safe (flies_some key st.in_flight on)) in
      (r, rw on e, safe_of_made r.0 made)
  | inr off ↦ ((st, []), rw off refl, safe)
]
step_safe (release_step key) st calm safe = (release key st, refl, release_safe key st safe)
step_safe clear_step st calm safe = absurd (ground (arith, calm))

steps_safe :
    (ss : List PinStep) (st : PinState)
    → any_clear ss ≡ false
    → is_safe st ≡ true
    → (r : PinState × List PinEffect) × (pin_steps ss st ≡ some r)
unfolding pin_steps
steps_safe [] st calm safe = ((st, []), refl)
steps_safe (s ∷ ss) st calm safe =
    let ((st', before), now, safe') = step_safe s st (ground (arith, calm)) safe in
    let ((st'', after), later) = steps_safe ss st' (ground (arith, calm)) safe' in
    ((st'', before ++ after), rw (now, later, pin_steps) refl)

-- Without clearUnderlayPins no interleaving panics, from a state with one pin for a key and with
-- its map made if a call is in flight; and a host's routes are balanced: it was pinned as often as
-- it was reverted, but for the pins that are held and the calls in flight.
pub pin_steps_lem :
    (q : Bytes) (ss : List PinStep) (st : PinState)
    → any_clear ss ≡ false
    → is_safe st ≡ true
    → Unique same st.pins
    → (r : PinState × List PinEffect) × (pin_steps ss st ≡ some r)
      × (pinned q r.1 + (held q st.pins + flying q st.in_flight)
          ≡ reverted q r.1 + (held q r.0.pins + flying q r.0.in_flight))
pin_steps_lem q ss st calm safe u =
    let (r, e) = steps_safe ss st calm safe in (r, e, pin_steps-Balanced q ss st r u e)
