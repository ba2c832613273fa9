-- ===== src/Node/Dial/Pinned.antt =====
-- A dial that fails gives back the pin that it took.
use hopscotch.Common.{
  ℕ, ◌≡◌, refl, ap, sym, ◌∙◌, true, Option, none, some, List, [], ◌∷◌, ◌++◌, append_assoc, map,
  arith, inl, inr,
}
use hopscotch.Common.Bytes.{Bytes, same}
use hopscotch.Common.Maps.{lookup, delete, lookup-delete}
use hopscotch.Endpoint.{Endpoint}
use hopscotch.Node.{Node, Effect}
use hopscotch.Node.Peering.{Conn, Refusal}
use hopscotch.Node.Peering.Admission.{pins, Outcome, establish_lem}
use hopscotch.Node.Dial.{
  DialState, DialError, DialEffect, Begun, begin_dial, Connected, DialEnd, expected,
  after_establish, end_dial,
}

-- The pins among the effects of a dial.
abbrev pub dial_pins : List DialEffect → List Effect
dial_pins [] = []
dial_pins (DialEffect.handled e ∷ es) = pins (e ∷ []) ++ dial_pins es
dial_pins (DialEffect.attached ∷ es) = dial_pins es
dial_pins (DialEffect.closed_backend ∷ es) = dial_pins es

-- What a dial that failed leaves: the node, no dial of the address under way, and its pin given back.
pub record Undone (st : DialState) (addr pin_ip : Bytes) (r : DialState × List DialEffect)
    : Type 0 where
  pub node : r.0.node ≡ st.node
  pub not_dialing : lookup same addr r.0.dialing ≡ none
  pub released : dial_pins r.1 ≡ Effect.release_pin pin_ip ∷ []

pins-cons : (e : Effect) (es : List Effect) → pins (e ∷ es) ≡ pins (e ∷ []) ++ pins es
pins-cons (Effect.retain_pin ip) es = refl
pins-cons (Effect.release_pin ip) es = refl
pins-cons (Effect.send s m) es = refl
pins-cons (Effect.send_packet s p) es = refl
pins-cons (Effect.queue_packet s p) es = refl
pins-cons (Effect.tap_packet p) es = refl
pins-cons (Effect.write_tun p) es = refl
pins-cons (Effect.inject p) es = refl
pins-cons (Effect.hand_over k m) es = refl
pins-cons Effect.sync_exit es = refl
pins-cons (Effect.close_session s) es = refl
pins-cons (Effect.refuse why) es = refl
pins-cons (Effect.pending_reply s m) es = refl

dial_pins-handled :
    (es : List Effect) (ds : List DialEffect)
    → dial_pins (map DialEffect.handled es ++ ds) ≡ pins es ++ dial_pins ds
dial_pins-handled [] ds = refl
dial_pins-handled (e ∷ es) ds =
    ap (λ q. pins (e ∷ []) ++ q) (dial_pins-handled es ds)
    ∙ sym (append_assoc (pins (e ∷ [])) (pins es) (dial_pins ds))
    ∙ ap (λ q. q ++ dial_pins ds) (sym (pins-cons e es))

deleted : (st : DialState) (addr : Bytes) → lookup same addr (delete same addr st.dialing) ≡ none
deleted st addr = ground (arith, lookup-delete same addr addr st.dialing)

after_establish-Undone :
    (digest : Bytes → Bytes) (expect : Bytes) (conn : Conn) (st : DialState) (addr pin_ip : Bytes)
    (r : (Node × List Effect) × Option Refusal) (why : DialError)
    → Outcome digest st.node expect conn r
    → (after_establish st addr pin_ip r).1 ≡ DialEnd.down why
    → Undone st addr pin_ip (after_establish st addr pin_ip r).0
unfolding after_establish
after_establish-Undone digest expect conn st addr pin_ip ((n, es), none) why h failed =
    absurd (cc failed)
after_establish-Undone digest expect conn st addr pin_ip ((n, es), some e) why (inl h) failed =
    record {
      node = h.unchanged;
      not_dialing = deleted st addr;
      released =
          dial_pins-handled es (DialEffect.handled (Effect.release_pin pin_ip) ∷ [])
          ∙ ap (λ q. q ++ Effect.release_pin pin_ip ∷ []) h.no_pins;
    }
after_establish-Undone digest expect conn st addr pin_ip ((n, es), some e) why (inr h) failed =
    absurd (cc h.accepted)

end_dial-Undone :
    (digest : Bytes → Bytes) (handle : ℕ) (st : DialState) (addr pin_ip : Bytes)
    (connected : Connected) (why : DialError)
    → (end_dial digest handle st addr pin_ip connected).1 ≡ DialEnd.down why
    → Undone st addr pin_ip (end_dial digest handle st addr pin_ip connected).0
unfolding end_dial
end_dial-Undone digest handle st addr pin_ip Connected.unknown_network why failed = record {
  node = refl;
  not_dialing = deleted st addr;
  released = refl;
}
end_dial-Undone digest handle st addr pin_ip Connected.dial_error why failed = record {
  node = refl;
  not_dialing = deleted st addr;
  released = refl;
}
end_dial-Undone digest handle st addr pin_ip Connected.handshake_error why failed = record {
  node = refl;
  not_dialing = deleted st addr;
  released = refl;
}
end_dial-Undone digest handle st addr pin_ip (Connected.connection conn) why failed =
    let expect = expected (lookup same addr st.pin_by_addr) in
    after_establish-Undone digest expect conn st addr pin_ip _ why
      (establish_lem digest handle st.node true expect addr pin_ip conn) failed

node-begin_dial :
    (st : DialState) (raw pin_ip : Bytes) → (begin_dial st raw pin_ip).0.0.node ≡ st.node
unfolding begin_dial
node-begin_dial st raw pin_ip = ground arith

dial_pins-begin_dial :
    (st : DialState) (raw pin_ip : Bytes) (ep : Endpoint) (addr : Bytes)
    → (begin_dial st raw pin_ip).1 ≡ Begun.dials ep addr
    → dial_pins (begin_dial st raw pin_ip).0.1 ≡ Effect.retain_pin pin_ip ∷ []
unfolding begin_dial
dial_pins-begin_dial st raw pin_ip ep addr h = ground (arith, h)

-- What a whole dial that failed has done: the node is as before, no dial of the address is under way,
-- and the pin was taken once and given back once.
pub record Failed (st : DialState) (addr pin_ip : Bytes) (first last : DialState × List DialEffect)
    : Type 0 where
  pub node : last.0.node ≡ st.node
  pub not_dialing : lookup same addr last.0.dialing ≡ none
  pub took : dial_pins first.1 ≡ Effect.retain_pin pin_ip ∷ []
  pub gave : dial_pins last.1 ≡ Effect.release_pin pin_ip ∷ []

-- A dial that begins and fails, without a dialer of the network, by an error of the dialer or of the
-- handshake, or by a refusal of establish, leaves the node as it was and no dial of the address under
-- way, and gives back the one pin that it took. Nothing else happens to the node between its two
-- steps.
pub end_dial-begin_dial :
    (digest : Bytes → Bytes) (handle : ℕ) (st : DialState) (raw pin_ip : Bytes) (ep : Endpoint)
    (addr : Bytes) (connected : Connected) (why : DialError)
    → (begin_dial st raw pin_ip).1 ≡ Begun.dials ep addr
    → (end_dial digest handle (begin_dial st raw pin_ip).0.0 addr pin_ip connected).1
      ≡ DialEnd.down why
    → Failed st addr pin_ip
        (begin_dial st raw pin_ip).0
        (end_dial digest handle (begin_dial st raw pin_ip).0.0 addr pin_ip connected).0
end_dial-begin_dial digest handle st raw pin_ip ep addr connected why begun failed =
    let u =
      end_dial-Undone digest handle (begin_dial st raw pin_ip).0.0 addr pin_ip connected why
        failed in
    record {
      node = u.node ∙ node-begin_dial st raw pin_ip;
      not_dialing = u.not_dialing;
      took = dial_pins-begin_dial st raw pin_ip ep addr begun;
      gave = u.released;
    }
