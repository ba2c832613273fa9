-- ===== src/Node/Pins/Balance.antt =====
-- Every host route that is installed belongs to a pin that is held.
use hopscotch.Common.{
  ℕ, suc, ◌+◌, ◌-◌, ◌≡◌, refl, Bool, true, none, some, List, [], ◌∷◌, ite, arith, ltb, Option-cases,
  Bool-cases, inl, inr,
}
use hopscotch.Common.Bytes.{Bytes, same}
use hopscotch.Common.Maps.{
  lookup, insert, lookup-insert, lookup-delete, Unique, insert-Unique, delete-Unique,
}
use hopscotch.Node.Pins.{
  PinEffect, UnderlayPins, PinState, begin_retain, end_retain, release, clear_underlay_pins,
  reverts_of, PinStep, begin_step, end_step, release_step, clear_step, pin_step, remove, flies,
}

-- How often the host `q` is pinned, and how often reverted.
abbrev pub pinned : Bytes → List PinEffect → ℕ
pinned q [] = 0
pinned q (PinEffect.pin_host k ∷ es) = let rest = pinned q es in ite (same k q) (suc rest) rest
pinned q (PinEffect.revert k ∷ es) = pinned q es

abbrev pub reverted : Bytes → List PinEffect → ℕ
reverted q [] = 0
reverted q (PinEffect.pin_host k ∷ es) = reverted q es
reverted q (PinEffect.revert k ∷ es) = let rest = reverted q es in ite (same k q) (suc rest) rest

-- The pins of `q` that are held (0 or 1), and the calls for `q` between their sections.
abbrev pub held : Bytes → UnderlayPins → ℕ
held q pins = elim (lookup same q pins) [ none ↦ 0 | some refs ↦ 1 ]

abbrev pub flying : Bytes → List Bytes → ℕ
flying q [] = 0
flying q (k ∷ ks) = let rest = flying q ks in ite (same k q) (suc rest) rest

flying-remove :
    (q key : Bytes) (ks : List Bytes)
    → flies key ks ≡ true
    → flying q ks ≡ flying q (remove key ks) + ite (same key q) 1 0
flying-remove q key [] h = absurd (ground (arith, h))
flying-remove q key (k ∷ ks) h = ground (arith, flying-remove q key ks)

-- A step keeps the balance of `q`.
abbrev pub Balanced : Bytes → PinState → PinState × List PinEffect → Type 0
Balanced q st r =
    pinned q r.1 + (held q st.pins + flying q st.in_flight)
    ≡ reverted q r.1 + (held q r.0.pins + flying q r.0.in_flight)

-- What a step keeps: the balance, and that each key stands once.
pub record Kept (q : Bytes) (st : PinState) (r : PinState × List PinEffect) : Type 0 where
  pub balanced : Balanced q st r
  pub unique : Unique same r.0.pins

begin_retain-Kept :
    (q : Bytes) (works : Bool) (key : Bytes) (st : PinState)
    → Unique same st.pins
    → Kept q st (begin_retain works key st)
unfolding begin_retain
begin_retain-Kept q works key st u = elim (Option-cases (lookup same key st.pins)) [
  | inl absent ↦ elim (Bool-cases works) [
    | inl on ↦ rw (absent, on, begin_retain) (record { balanced = ground arith; unique = u })
    | inr off ↦ rw (absent, off, begin_retain) (record { balanced = ground arith; unique = u })
  ]
  | inr (refs, found) ↦
      rw (found, begin_retain)
        (record {
          balanced = ground (arith, found, lookup-insert same key q (suc refs) st.pins);
          unique = insert-Unique same key (suc refs) st.pins u;
        })
]

-- The end of a call of retainUnderlayPin, where it does not panic.
end_retain-Kept :
    (q key : Bytes) (st : PinState) (r : PinState × List PinEffect)
    → Unique same st.pins
    → flies key st.in_flight ≡ true
    → end_retain key st ≡ some r
    → Kept q st r
unfolding end_retain
end_retain-Kept q key st r u on h =
    let flight = flying-remove q key st.in_flight on in
    let rest = remove key st.in_flight in
    elim (Option-cases (lookup same key st.pins)) [
      | inl absent ↦ elim (Bool-cases st.made) [
        | inl made ↦
            let pins' = insert same key 1 st.pins in
            let done : some (record { made = true; pins = pins'; in_flight = rest }, []) ≡ some r =
              rw (absent, made, end_retain) at h in
            let e : r ≡ (record { made = true; pins = pins'; in_flight = rest }, []) = cc done in
            rw e (record {
              balanced = ground (arith, flight, absent, lookup-insert same key q 1 st.pins);
              unique = insert-Unique same key 1 st.pins u;
            })
        | inr unmade ↦ absurd (ground (arith, rw (absent, unmade, end_retain) at h))
      ]
      | inr (refs, found) ↦
          let pins' = insert same key (suc refs) st.pins in
          let done : some (record st { pins = pins'; in_flight = rest }, PinEffect.revert key ∷ [])
              ≡ some r =
            rw (found, end_retain) at h in
          let e : r ≡ (record st { pins = pins'; in_flight = rest }, PinEffect.revert key ∷ []) =
            cc done in
          rw e (record {
            balanced = ground (arith, flight, found, lookup-insert same key q (suc refs) st.pins);
            unique = insert-Unique same key (suc refs) st.pins u;
          })
    ]

release-Kept : (q key : Bytes) (st : PinState) → Unique same st.pins → Kept q st (release key st)
unfolding release
release-Kept q key st u = elim (Option-cases (lookup same key st.pins)) [
  | inl absent ↦ rw (absent, release) (record { balanced = ground arith; unique = u })
  | inr (refs, found) ↦ elim (Bool-cases (ltb 1 refs)) [
    | inl more ↦
        rw (found, more, release)
          (record {
            balanced = ground (arith, found, lookup-insert same key q (refs - 1) st.pins);
            unique = insert-Unique same key (refs - 1) st.pins u;
          })
    | inr last ↦
        rw (found, last, release)
          (record {
            balanced = ground (arith, found, lookup-delete same key q st.pins);
            unique = delete-Unique same key st.pins u;
          })
  ]
]

-- One revert for each pin that is held.
reverted-reverts_of :
    (q : Bytes) (pins : UnderlayPins)
    → Unique same pins
    → (reverted q (reverts_of pins) ≡ held q pins) × (pinned q (reverts_of pins) ≡ 0)
unfolding reverts_of lookup
reverted-reverts_of q [] h = (refl, refl)
reverted-reverts_of q ((k, refs) ∷ pins) h = ground (arith, reverted-reverts_of q pins h.1, h.0)

clear-Kept : (q : Bytes) (st : PinState) → Unique same st.pins → Kept q st (clear_underlay_pins st)
unfolding clear_underlay_pins
clear-Kept q st u =
    let (a, b) = reverted-reverts_of q st.pins u in
    record { balanced = unfold lookup in omega (arith, a, b); unique = tt }

pub pin_step-Kept :
    (q : Bytes) (s : PinStep) (st : PinState) (r : PinState × List PinEffect)
    → Unique same st.pins
    → pin_step s st ≡ some r
    → Kept q st r
unfolding pin_step
pin_step-Kept q (begin_step works key) st r u h =
    let e : r ≡ begin_retain works key st = cc h in rw e (begin_retain-Kept q works key st u)
pin_step-Kept q (end_step key) st r u h = elim (Bool-cases (flies key st.in_flight)) [
  | inl on ↦ end_retain-Kept q key st r u on (rw on at h)
  | inr off ↦
      let done : some (st, []) ≡ some r = rw off at h in
      let e : r ≡ (st, []) = cc done in rw e (record { balanced = refl; unique = u })
]
pin_step-Kept q (release_step key) st r u h =
    let e : r ≡ release key st = cc h in rw e (release-Kept q key st u)
pin_step-Kept q clear_step st r u h =
    let e : r ≡ clear_underlay_pins st = cc h in rw e (clear-Kept q st u)
