-- ===== src/Node/Network/Adverts.antt =====
-- A node whose routes are backed by walks sends only such routes.
use hopscotch.Common.{
  suc, ◌≡◌, inl, inr, refl, ap, sym, Bool, true, false, List, [], ◌∷◌, ◌++◌, Option, none, some,
  All, All-append, arith, if◌then◌else◌, map,
}
use hopscotch.Common.Bytes.{Bytes, same}
use hopscotch.Common.Int.{pos}
use hopscotch.Common.Maps.{lookup, Unique}
use hopscotch.Session.{Session, session_list}
use hopscotch.Route.{
  RibEntry, Advert, exported, default_route_v4, default_route_v6, is_default_route_dest,
}
use hopscotch.Route.Step.{address}
use hopscotch.Route.Entries.{Holds, Route}
use hopscotch.Node.{Node, Effect}
use hopscotch.Node.Routing.{advertisement, send_routes_to, advertise_routes, log_routes, announce}
use hopscotch.Node.Network.{Flight, sent, Walk, Away, Via}
use hopscotch.Node.Network.Sound.{exported-All}

pub sent-append : (u : Bytes) (a b : List Effect) → sent u (a ++ b) ≡ sent u a ++ sent u b
sent-append u [] b = refl
sent-append u (Effect.send s m ∷ a) b =
    ap (λ t. record { from = u; to = s.id; message = m } ∷ t) (sent-append u a b)
sent-append u (Effect.send_packet s p ∷ a) b = sent-append u a b
sent-append u (Effect.queue_packet s p ∷ a) b = sent-append u a b
sent-append u (Effect.tap_packet p ∷ a) b = sent-append u a b
sent-append u (Effect.write_tun p ∷ a) b = sent-append u a b
sent-append u (Effect.inject p ∷ a) b = sent-append u a b
sent-append u (Effect.hand_over k m ∷ a) b = sent-append u a b
sent-append u (Effect.sync_exit ∷ a) b = sent-append u a b
sent-append u (Effect.release_pin p ∷ a) b = sent-append u a b
sent-append u (Effect.close_session s ∷ a) b = sent-append u a b
sent-append u (Effect.retain_pin p ∷ a) b = sent-append u a b
sent-append u (Effect.refuse p ∷ a) b = sent-append u a b
sent-append u (Effect.pending_reply s m ∷ a) b = sent-append u a b

v6_default : is_default_route_dest default_route_v6 ≡ true
unfolding is_default_route_dest same
v6_default = refl

v4_default : is_default_route_dest default_route_v4 ≡ true
unfolding is_default_route_dest same
v4_default = refl

map-Holds :
    (P Q : RibEntry → Type 0)
    → ((e : RibEntry) → P e → Q e)
    → (o : Option RibEntry) → Holds P o
    → Holds Q o
map-Holds P Q f none h = tt
map-Holds P Q f (some e) h = f e h

pub sent-log_routes : (u : Bytes) (n : Node) → sent u (log_routes n) ≡ []
unfolding log_routes
sent-log_routes u n = ground arith

module _ (linked : Bytes → Bytes → Type 0) (is_exit : Bytes → Bool) where
  pub record NodeSound (u : Bytes) (n : Node) : Type 0 where
    pub named : n.id ≡ u
    pub exits : n.exit ≡ is_exit u
    pub unique : Unique same n.routes
    pub routes : (d : Bytes) → Holds (Route (Via linked is_exit u d)) (lookup same d n.routes)

  abbrev pub FlightSound : Flight → Type 0
  FlightSound f = All (λ r. Away linked is_exit f.from r.dest r.metric) f.message.routes

  defaults-All :
      (u : Bytes) (b : Bool)
      → b ≡ is_exit u
      → All
          (λ (r : Advert). Away linked is_exit u r.dest r.metric)
          (if b
            then record { dest = default_route_v6; metric = pos 0 }
              ∷ record { dest = default_route_v4; metric = pos 0 }
              ∷ []
            else [])
  defaults-All u false e = tt
  defaults-All u true e = (
    (0, u, refl, Walk.stay u, inr (v6_default, sym e)),
    ((0, u, refl, Walk.stay u, inr (v4_default, sym e)), tt),
  )

  Via-Away :
      (u d : Bytes) (e : RibEntry)
      → Route (Via linked is_exit u d) e
      → Away linked is_exit u d e.metric
  Via-Away u d e (m, v, p, l, w, s) = (suc m, v, p, Walk.hop l w, s)

  advertisement-All :
      (u : Bytes) (n : Node) (s : Session)
      → NodeSound u n
      → All (λ r. Away linked is_exit u r.dest r.metric) (advertisement n s)
  unfolding advertisement
  advertisement-All u n s h = (
    (0, u, refl, Walk.stay u, inl (ap address h.named)),
    All-append _ _ (exported s.id n.routes) (defaults-All u n.exit h.exits) (
        exported-All (Away linked is_exit u) s.id n.routes h.unique (λ d.
          map-Holds (Route (Via linked is_exit u d)) (λ e. Away linked is_exit u d e.metric)
            (Via-Away u d) _ (h.routes d))),
  )

  pub advertise-All :
      (u : Bytes) (n : Node) (ss : List Session)
      → NodeSound u n
      → All FlightSound (sent u (map (send_routes_to n) ss))
  unfolding send_routes_to
  advertise-All u n [] h = tt
  advertise-All u n (s ∷ ss) h = (advertisement-All u n s h, advertise-All u n ss h)

  log_and_advertise :
      (u : Bytes) (n : Node)
      → NodeSound u n
      → All FlightSound (sent u (log_routes n ++ advertise_routes n))
  unfolding advertise_routes
  log_and_advertise u n h =
      rw
        (
          sent-append u (log_routes n) (map (send_routes_to n) (session_list n.sessions)),
          sent-log_routes u n,
        )
        (advertise-All u n (session_list n.sessions) h)

  pub announce-All :
      (u : Bytes) (n : Node) (changed : Bool)
      → NodeSound u n
      → All FlightSound (sent u (announce n changed))
  unfolding announce
  announce-All u n true h = log_and_advertise u n h
  announce-All u n false h = tt
