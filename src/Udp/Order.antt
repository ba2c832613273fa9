-- ===== src/Udp/Order.antt =====
-- A session of the listener receives datagrams of its own address only, in their order.
use mathlib.Core.Path.{ap₂, subst}
use mathlib.Core.List.{Sublist, nil-sublist}
use mathlib.Core.List.Sublist as Sub
use hopscotch.Common.{
  ◌≡◌, refl, sym, ap, ◌∙◌, Bool, true, false, ◌&&◌, Option, none, some, List, [], ◌∷◌, ◌++◌,
  append-nil, append_assoc, ite, if◌then◌else◌, arith,
}
use hopscotch.Common.Bytes.{Bytes, same}
use hopscotch.Common.Maps.{lookup, delete, lookup-insert, lookup-delete}
use hopscotch.Udp.{
  Handle, is_same, Pending, UdpListener, new_listener, set_recv, new_udp_session, session, receive,
  deliver, end_round, abandon, UdpReceived, recv_queue, udp_recv, mark_closed, remove, UdpStep,
  Traffic, quiet, given_by, arrived_by, udp_step, udp_steps,
}

-- What a session gave to its caller.
abbrev pub given_to : Handle → List (Handle × Bytes) → List Bytes
given_to h [] = []
given_to h ((g, b) ∷ given) = ite (is_same g h) (b ∷ given_to h given) (given_to h given)

-- What the socket gave from an address.
abbrev pub arrived_from : Bytes → List (Bytes × Bytes) → List Bytes
arrived_from a [] = []
arrived_from a ((c, b) ∷ arrived) =
    ite (same c a) (b ∷ arrived_from a arrived) (arrived_from a arrived)

given_to-append :
    (h : Handle) (xs ys : List (Handle × Bytes))
    → given_to h (xs ++ ys) ≡ given_to h xs ++ given_to h ys
given_to-append h [] ys = refl
given_to-append h ((g, b) ∷ xs) ys = ground (arith, given_to-append h xs ys)

arrived_from-append :
    (a : Bytes) (xs ys : List (Bytes × Bytes))
    → arrived_from a (xs ++ ys) ≡ arrived_from a xs ++ arrived_from a ys
arrived_from-append a [] ys = refl
arrived_from-append a ((c, b) ∷ xs) ys = ground (arith, arrived_from-append a xs ys)

-- What is on its way to a session.
abbrev pending_to : Handle → Option Pending → List Bytes
pending_to h none = []
pending_to h (some p) = ite (is_same p.to h) (p.bytes ∷ []) []

abbrev pub content : UdpListener → Handle → List Bytes
content l h = l.recv h ++ pending_to h l.pending

-- The map has sessions of their addresses.
abbrev pub IsKeyed : UdpListener → Type 0
IsKeyed l = (a : Bytes) (h : Handle) → lookup same a l.by_addr ≡ some h → h.raddr ≡ a

record InOrder (l : UdpListener) (r : UdpListener × Traffic) : Type 0 where
  keyed : IsKeyed r.0
  order :
      (h : Handle)
      → Sublist
          (given_to h r.1.given ++ content r.0 h)
          (content l h ++ arrived_from h.raddr r.1.arrived)

-- A step that moves no datagram to a caller, and reads none.
still :
    (l l' : UdpListener)
    → IsKeyed l'
    → ((h : Handle) → Sublist (content l' h) (content l h))
    → InOrder l (l', quiet)
still l l' keyed sub = record { keyed = keyed; order = λ h. rw append-nil (sub h) }

same_handle : (g h : Handle) → (g.serial ∷ g.raddr) ≡ (h.serial ∷ h.raddr) → g.raddr ≡ h.raddr
same_handle g h e = cc e

some_handle : {g h : Handle} → some g ≡ some h → g ≡ h
some_handle e = cc e

new_session-IsKeyed : (l : UdpListener) (a : Bytes) → IsKeyed l → IsKeyed (new_udp_session l a).0
unfolding new_udp_session set_recv
new_session-IsKeyed l a keyed c h e =
    let new : Handle = record { serial = l.next; raddr = a } in
    let entry = lookup-insert same a c new l.by_addr in
    elim (same a c) as (λ d. ite d (some new) (lookup same c l.by_addr) ≡ some h → h.raddr ≡ c) [
      | yes to ↦ λ is_new. rw (← to) (ap (λ g. g.raddr) (sym (some_handle is_new)))
      | no other ↦ keyed c h
    ]
      (sym entry ∙ e)

new_session-content :
    (l : UdpListener) (a : Bytes) (h : Handle)
    → Sublist (content (new_udp_session l a).0 h) (content l h)
unfolding new_udp_session set_recv
new_session-content l a h =
    elim (is_same (new_udp_session l a).1 h)
      as (λ d. Sublist (ite d [] (l.recv h) ++ pending_to h l.pending) (content l h)) [
        | yes e ↦ Sub.append (nil-sublist (l.recv h)) (Sub.refl _)
        | no other ↦ Sub.refl _
      ]

handle_eq : (g h : Handle) → (g.serial ∷ g.raddr) ≡ (h.serial ∷ h.raddr) → g ≡ h
handle_eq g h e = ap₂ (λ s r. record { serial = s; raddr = r }) (cc e) (same_handle g h e)

prefix-Sublist : (xs ys : List Bytes) → Sublist xs (xs ++ ys)
prefix-Sublist xs ys =
    subst (λ zs. Sublist zs (xs ++ ys)) (append-nil xs) (Sub.append (Sub.refl xs) (nil-sublist ys))

deliver_if :
    (goes : Bool) (l : UdpListener) (p : Pending) (h : Handle)
    → Sublist
        ((if goes then set_recv l p.to (l.recv p.to ++ (p.bytes ∷ [])) else l).recv h)
        (l.recv h ++ pending_to h (some p))
unfolding set_recv
deliver_if false l p h = prefix-Sublist (l.recv h) _
deliver_if true l p h =
    elim (is_same p.to h)
      as (λ d.
        Sublist (ite d (l.recv p.to ++ (p.bytes ∷ [])) (l.recv h))
          (l.recv h ++ ite d (p.bytes ∷ []) [])) [
            | yes e ↦ rw (handle_eq p.to h e) (Sub.refl _)
            | no other ↦ prefix-Sublist (l.recv h) []
          ]

end_round-content :
    (l : UdpListener) (quits : Bool) (h : Handle)
    → Sublist (content (end_round l quits) h) (content l h)
unfolding end_round deliver
end_round-content l quits h =
    elim l.pending
        as (λ o.
          l.pending ≡ o
          → Sublist
              (content
                (elim o [
                  | none ↦ l
                  | some p ↦ record (deliver l p.to p.bytes quits) { pending = none }
                ])
                h)
              (l.recv h ++ pending_to h o)) [
                | none ↦ λ e. rw e (Sub.refl _)
                | some p ↦ λ e. rw append-nil (deliver_if _ l p h)
              ]
      refl

end_round-by_addr : (l : UdpListener) (quits : Bool) → (end_round l quits).by_addr ≡ l.by_addr
unfolding end_round deliver set_recv
end_round-by_addr l quits = ground arith

dropped_if :
    (fresh : Bool) (l : UdpListener) (h : Handle)
    → Sublist (content (if fresh then record l { pending = none } else l) h) (content l h)
dropped_if true l h = rw append-nil (prefix-Sublist (l.recv h) _)
dropped_if false l h = Sub.refl _

abandon-content : (l : UdpListener) (h : Handle) → Sublist (content (abandon l) h) (content l h)
unfolding abandon
abandon-content l h =
    elim l.pending
      as (λ o.
        Sublist
          (content
            (elim o [ none ↦ l | some p ↦ if p.fresh then record l { pending = none } else l ]) h)
          (content l h)) [ none ↦ Sub.refl _ | some p ↦ dropped_if p.fresh l h ]

abandon-by_addr : (l : UdpListener) → (abandon l).by_addr ≡ l.by_addr
unfolding abandon
abandon-by_addr l = ground arith

-- A datagram is on its way to a session of the address that it came from.
pending-arrived :
    (g h : Handle) (a b : Bytes)
    → g.raddr ≡ a
    → Sublist (ite (is_same g h) (b ∷ []) []) (arrived_from h.raddr ((a, b) ∷ []))
pending-arrived g h a b e =
    elim (is_same g h) as (λ d. Sublist (ite d (b ∷ []) []) (arrived_from h.raddr ((a, b) ∷ []))) [
      | no other ↦ nil-sublist _
      | yes is ↦ elim (same a h.raddr) as (λ d. Sublist (b ∷ []) (ite d (b ∷ []) [])) [
        | yes to ↦ Sub.refl _
        | no away ↦ absurd (away (sym e ∙ same_handle g h is))
      ]
    ]

receive-InOrder :
    (l : UdpListener) (a b : Bytes)
    → IsKeyed l
    → InOrder l (receive l a b, record { arrived = arrived_by l.pending a b; given = [] })
unfolding receive
receive-InOrder l a b keyed =
    elim l.pending
        as (λ o.
          l.pending ≡ o
          → InOrder l (
            elim o [
              | some p ↦ l
              | none ↦ elim (lookup same a l.by_addr) [
                | some h ↦ record l { pending = some record { to = h; bytes = b; fresh = false } }
                | none ↦
                    let (l', h) = new_udp_session l a in
                    record l' { pending = some record { to = h; bytes = b; fresh = true } }
              ]
            ],
            record { arrived = arrived_by o a b; given = [] },
          )) [
            | some p ↦ λ e. still l l keyed (λ h. Sub.refl _)
            | none ↦ λ e.
                elim (lookup same a l.by_addr)
                    as (λ o.
                      lookup same a l.by_addr ≡ o
                      → InOrder l (
                        elim o [
                          | some h ↦ record l {
                            pending = some record { to = h; bytes = b; fresh = false };
                          }
                          | none ↦
                              let (l', h) = new_udp_session l a in
                              record l' {
                                pending = some record { to = h; bytes = b; fresh = true };
                              }
                        ],
                        record { arrived = (a, b) ∷ []; given = [] },
                      )) [
                        | some g ↦ λ found. record {
                          keyed = keyed;
                          order = λ h.
                              Sub.append (prefix-Sublist (l.recv h) _)
                                (pending-arrived g h a b (keyed a g found));
                        }
                        | none ↦ λ absent. record {
                          keyed = new_session-IsKeyed l a keyed;
                          order = λ h.
                              Sub.append
                                (Sub.trans (prefix-Sublist _ _) (new_session-content l a h))
                                (pending-arrived (new_udp_session l a).1 h a b
                                  (unfold new_udp_session in refl));
                        }
                      ]
                  refl
          ]
      refl

session-InOrder : (l : UdpListener) (a : Bytes) → IsKeyed l → InOrder l ((session l a).0, quiet)
unfolding session
session-InOrder l a keyed =
    elim (lookup same a l.by_addr)
      as (λ o.
        let r : UdpListener × Handle = elim o [ some h ↦ (l, h) | none ↦ new_udp_session l a ] in
        InOrder l (r.0, quiet)) [
          | some h ↦ still l l keyed (λ h. Sub.refl _)
          | none ↦ still l _ (new_session-IsKeyed l a keyed) (new_session-content l a)
        ]

taken-content :
    (l : UdpListener) (g h : Handle) (b : Bytes) (queue : List Bytes)
    → l.recv g ≡ b ∷ queue
    → Sublist (given_to h ((g, b) ∷ []) ++ content (set_recv l g queue) h) (content l h)
unfolding set_recv
taken-content l g h b queue e =
    elim (is_same g h)
      as (λ d.
        Sublist (ite d (b ∷ []) [] ++ (ite d queue (l.recv h) ++ pending_to h l.pending))
          (content l h)) [
            | no other ↦ Sub.refl _
            | yes is ↦ rw (← handle_eq g h is, e) (Sub.refl _)
          ]

recv_queue-InOrder :
    (queue : List Bytes) (l : UdpListener) (g : Handle) (late quits : Bool)
    → l.recv g ≡ queue
    → IsKeyed l
    → let r = recv_queue queue l g late quits in
      InOrder l (r.0, record { arrived = []; given = given_by g r.1 })
unfolding recv_queue set_recv
recv_queue-InOrder queue l g true quits e keyed = still l l keyed (λ h. Sub.refl _)
recv_queue-InOrder [] l g false quits e keyed =
    elim (l.closed g)
      as (λ c. InOrder l (
        l,
        record {
          arrived = [];
          given = given_by g (if c then UdpReceived.net_closed else UdpReceived.waits);
        },
      )) [ true ↦ still l l keyed (λ h. Sub.refl _) | false ↦ still l l keyed (λ h. Sub.refl _) ]
recv_queue-InOrder (b ∷ queue) l g false quits e keyed =
    elim (l.closed g && quits)
      as (λ c.
        let r : UdpListener × UdpReceived =
          if c then (l, UdpReceived.net_closed) else (set_recv l g queue, UdpReceived.got b) in
        InOrder l (r.0, record { arrived = []; given = given_by g r.1 })) [
          | true ↦ still l l keyed (λ h. Sub.refl _)
          | false ↦ record {
            keyed = keyed;
            order = λ h. rw append-nil (taken-content l g h b queue e);
          }
        ]

deleted-IsKeyed :
    (l : UdpListener) (a : Bytes)
    → IsKeyed l
    → IsKeyed (record l { by_addr = delete same a l.by_addr })
deleted-IsKeyed l a keyed c h e =
    elim (same a c) as (λ d. ite d none (lookup same c l.by_addr) ≡ some h → h.raddr ≡ c) [
      | yes to ↦ λ gone. absurd (cc gone)
      | no other ↦ keyed c h
    ]
      (sym (lookup-delete same a c l.by_addr) ∙ e)

remove-InOrder : (l : UdpListener) (g : Handle) → IsKeyed l → InOrder l (remove l g, quiet)
unfolding remove
remove-InOrder l g keyed =
    elim (lookup same g.raddr l.by_addr)
      as (λ o. InOrder l (
        elim o [
          | none ↦ l
          | some cur ↦ ite (is_same cur g) (record l { by_addr = delete same g.raddr l.by_addr }) l
        ],
        quiet,
      )) [
        | none ↦ still l l keyed (λ h. Sub.refl _)
        | some cur ↦
            elim (is_same cur g)
              as (λ d.
                InOrder l (ite d (record l { by_addr = delete same g.raddr l.by_addr }) l, quiet)) [
                  | no other ↦ still l l keyed (λ h. Sub.refl _)
                  | yes is ↦ still l _ (deleted-IsKeyed l g.raddr keyed) (λ h. Sub.refl _)
                ]
      ]

udp_step-InOrder : (step : UdpStep) (l : UdpListener) → IsKeyed l → InOrder l (udp_step step l)
unfolding udp_step udp_recv mark_closed
udp_step-InOrder (UdpStep.dialing a) l keyed = session-InOrder l a keyed
udp_step-InOrder (UdpStep.arriving a b) l keyed = receive-InOrder l a b keyed
udp_step-InOrder (UdpStep.delivering quits) l keyed =
    still l _ (rw (end_round-by_addr l quits) keyed) (end_round-content l quits)
udp_step-InOrder UdpStep.abandoning l keyed =
    still l _ (rw (abandon-by_addr l) keyed) (abandon-content l)
udp_step-InOrder (UdpStep.receiving g late quits) l keyed =
    recv_queue-InOrder (l.recv g) l g late quits refl keyed
udp_step-InOrder (UdpStep.marking g) l keyed = still l _ keyed (λ h. Sub.refl _)
udp_step-InOrder (UdpStep.removing g) l keyed = remove-InOrder l g keyed

udp_steps-InOrder :
    (steps : List UdpStep) (l : UdpListener) → IsKeyed l → InOrder l (udp_steps steps l)
unfolding udp_steps
udp_steps-InOrder [] l keyed = still l l keyed (λ h. Sub.refl _)
udp_steps-InOrder (s ∷ ss) l keyed =
    let now = udp_step-InOrder s l keyed in
    let (l', t) = udp_step s l in
    let later = udp_steps-InOrder ss l' now.keyed in
    let (l'', u) = udp_steps ss l' in
    record {
      keyed = later.keyed;
      order = λ h.
          rw
            (
              given_to-append h t.given u.given,
              arrived_from-append h.raddr t.arrived u.arrived,
              append_assoc (given_to h t.given) (given_to h u.given) (content l'' h),
              ← append_assoc (content l h) (arrived_from h.raddr t.arrived)
                  (arrived_from h.raddr u.arrived),
            )
            (Sub.trans (Sub.append (Sub.refl (given_to h t.given)) (later.order h)) (
              rw
                (← append_assoc (given_to h t.given) (content l' h)
                  (arrived_from h.raddr u.arrived))
                (Sub.append (now.order h) (Sub.refl _))));
    }

-- In any run of a new listener, what a session gave to its callers and still holds for them is, in this
-- order, a part of the datagrams that the socket gave from the address of that session: none of another
-- address, none twice, none out of order. Datagrams can be dropped.
pub udp_steps-Sublist :
    (steps : List UdpStep) (h : Handle)
    → let (l, t) = udp_steps steps new_listener in
      Sublist (given_to h t.given ++ content l h) (arrived_from h.raddr t.arrived)
unfolding new_listener lookup
udp_steps-Sublist steps h = (udp_steps-InOrder steps new_listener (λ a g e. absurd (cc e))).order h
