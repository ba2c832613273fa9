-- ===== src/Udp/Delivery.antt =====
-- What arrives from an address is put into the queue of the session that Dial gives for it.
use hopscotch.Common.{
  ◌<◌, ◌≡◌, refl, Bool, true, false, Option, none, some, List, [], ◌∷◌, ◌++◌, ite, lt→ltb, length,
}
use hopscotch.Common.Bytes.{Bytes, same}
use hopscotch.Common.Maps.{lookup}
use hopscotch.Udp.{
  Handle, is_same, UdpListener, recv_cap, set_recv, new_udp_session, session, receive, deliver,
  end_round,
}

recv-set_recv :
    (l : UdpListener) (h : Handle) (queue : List Bytes) → (set_recv l h queue).recv h ≡ queue
unfolding set_recv
recv-set_recv l h queue = elim (is_same h h) as (λ d. ite d queue (l.recv h) ≡ queue) [
  | yes e ↦ refl
  | no other ↦ absurd (other refl)
]

recv-deliver :
    (l : UdpListener) (h : Handle) (b : Bytes) (quits : Bool)
    → length (l.recv h) < recv_cap
    → l.closed h ≡ false
    → (deliver l h b quits).recv h ≡ l.recv h ++ (b ∷ [])
unfolding deliver
recv-deliver l h b quits room opened =
    rw (lt→ltb (length (l.recv h)) recv_cap room, opened) (recv-set_recv l h (l.recv h ++ (b ∷ [])))

abbrev is_new : Option Handle → Bool
is_new none = true
is_new (some h) = false

-- The round holds the datagram for the session that Dial gives.
receive_idle :
    (l : UdpListener) (a b : Bytes)
    → l.pending ≡ none
    → let (l', h) = session l a in
      receive l a b ≡ record l' {
        pending = some record { to = h; bytes = b; fresh = is_new (lookup same a l.by_addr) };
      }
unfolding session receive
receive_idle l a b idle =
    elim l.pending
        as (λ o.
          o ≡ none
          → let r : UdpListener × Handle = elim (lookup same a l.by_addr) [
            | some h ↦ (l, h)
            | none ↦ new_udp_session l a
          ] in
            (elim o [
              | some p ↦ l
              | none ↦ elim (lookup same a l.by_addr) [
                | some h ↦ record l { pending = some record { to = h; bytes = b; fresh = false } }
                | none ↦
                    let (l', h) = new_udp_session l a in
                    record l' { pending = some record { to = h; bytes = b; fresh = true } }
              ]
            ])
            ≡ record r.0 {
              pending =
                  some record { to = r.1; bytes = b; fresh = is_new (lookup same a l.by_addr) };
            }) [
              | some p ↦ λ e. absurd (cc e)
              | none ↦ λ e.
                  elim (lookup same a l.by_addr)
                    as (λ o.
                      let r : UdpListener × Handle = elim o [
                        | some h ↦ (l, h)
                        | none ↦ new_udp_session l a
                      ] in
                      (elim o [
                        | some h ↦ record l {
                          pending = some record { to = h; bytes = b; fresh = false };
                        }
                        | none ↦
                            let (l', h) = new_udp_session l a in
                            record l' { pending = some record { to = h; bytes = b; fresh = true } }
                      ])
                      ≡ record r.0 {
                        pending = some record { to = r.1; bytes = b; fresh = is_new o };
                      }) [ some h ↦ refl | none ↦ refl ]
            ]
      idle

-- A datagram from an address, when the loop holds none, goes to the end of the queue of the session
-- that Dial gives for that address, be it there or new, if that session is open and its queue has room.
pub end_round-receive :
    (l : UdpListener) (a b : Bytes) (quits : Bool)
    → l.pending ≡ none
    → let (l', h) = session l a in
      length (l'.recv h) < recv_cap
      → l'.closed h ≡ false
      → (end_round (receive l a b) quits).recv h ≡ l'.recv h ++ (b ∷ [])
unfolding end_round
end_round-receive l a b quits idle room opened =
    rw (receive_idle l a b idle)
      (recv-deliver (record (session l a).0 { pending = _ }) (session l a).1 b quits room opened)
