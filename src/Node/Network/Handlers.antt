-- ===== src/Node/Network/Handlers.antt =====
-- Every handler of routes keeps a node's routes backed by walks, and sends only such routes.
use hopscotch.Common.{
  ℕ, ◌≡◌, inl, inr, refl, Bool, List, [], ◌∷◌, ◌++◌, ite, some, All, All-append, Option-cases,
  Bool-cases,
}
use hopscotch.Common.Bytes.{Bytes, same}
use hopscotch.Common.Int.{pos}
use hopscotch.Common.Maps.{lookup, insert, Unique, insert-Unique}
use hopscotch.Session.{Session, Sessions, session_list, session_of, is_session}
use hopscotch.Route.{Rib, Advert, advert_key, fresh, update_rib, expire, drop_via}
use hopscotch.Route.Step.{address}
use hopscotch.Route.Refinement.{update_rib-Unique}
use hopscotch.Route.Removal.{expire-Unique, drop_via-Unique}
use hopscotch.Route.Entries.{
  Holds, Route, Heard, update_rib-Holds, expire-Holds, drop_via-Holds, insert-Holds,
}
use hopscotch.Node.{Node, Message, Effect}
use hopscotch.Node.Routing.{
  send_routes_to, advertise_routes, on_session_up, on_session_down, handle_routes,
  expire_stale_routes, refresh_routes, log_routes, announce,
}
use hopscotch.Node.Peering.{register, unregister, start_session, end_session}
use hopscotch.Node.Network.{sent, Walk, Away, Via}
use hopscotch.Node.Network.Sound.{Heard-Away}
use hopscotch.Node.Network.Adverts.{
  sent-append, sent-log_routes, NodeSound, FlightSound, advertise-All, announce-All,
}

module _ (linked : Bytes → Bytes → Type 0) (is_exit : Bytes → Bool) where
  -- A node and what it sends.
  pub record ResultSound (u : Bytes) (r : Node × List Effect) : Type 0 where
    pub node : NodeSound linked is_exit u r.0
    pub flights : All (FlightSound linked is_exit) (sent u r.1)

  with_routes :
      (u : Bytes) (n : Node) (rib : Rib)
      → NodeSound linked is_exit u n
      → Unique same rib
      → ((d : Bytes) → Holds (Route (Via linked is_exit u d)) (lookup same d rib))
      → NodeSound linked is_exit u (record n { routes = rib })
  with_routes u n rib h unique routes = record {
    named = h.named;
    exits = h.exits;
    unique = unique;
    routes = routes;
  }

  one_hop : (u v : Bytes) → linked u v → Via linked is_exit u (address v) v (pos 1)
  one_hop u v l = (0, v, refl, l, Walk.stay v, inl refl)

  routes-Heard :
      (canonical : (u v : Bytes) → linked u v → advert_key (address v) ≡ some (address v))
      (u from : Bytes) (rs : List Advert)
      → linked u from
      → All (λ (r : Advert). Away linked is_exit from r.dest r.metric) rs
      → All (Heard (Via linked is_exit u) from) rs
  routes-Heard canonical u from [] l all = tt
  routes-Heard canonical u from (r ∷ rs) l all = (
    Heard-Away linked is_exit canonical u from r l all.0,
    routes-Heard canonical u from rs l all.1,
  )

  -- onSessionUp, for a session over a link.
  up-Sound :
      (u : Bytes) (n : Node) (s : Session)
      → linked u s.id
      → NodeSound linked is_exit u n
      → ResultSound u (on_session_up n s)
  unfolding on_session_up
  up-Sound u n s l h =
      let rib = insert same (address s.id) (fresh s.id (pos 1)) n.routes in
      let n' = record n { routes = rib } in
      let sound : NodeSound linked is_exit u n' =
        with_routes u n rib h
          (insert-Unique same (address s.id) (fresh s.id (pos 1)) n.routes h.unique)
          (insert-Holds (Via linked is_exit u) (address s.id) (fresh s.id (pos 1)) n.routes
            (one_hop u s.id l) h.routes) in
      record {
        node = sound;
        flights =
            rw
              (
                sent-append u (log_routes n') (send_routes_to n' s ∷ advertise_routes n'),
                sent-log_routes u n',
              )
              (unfold advertise_routes in
                advertise-All linked is_exit u n' (s ∷ session_list n'.sessions) sound);
      }

  -- A new table of routes, announced if it changed.
  announced :
      (u : Bytes) (n : Node) (rib : Rib) (changed : Bool)
      → NodeSound linked is_exit u n
      → Unique same rib
      → ((d : Bytes) → Holds (Route (Via linked is_exit u d)) (lookup same d rib))
      → ResultSound u (record n { routes = rib }, announce (record n { routes = rib }) changed)
  announced u n rib changed h unique routes =
      let sound = with_routes u n rib h unique routes in
      record {
        node = sound;
        flights = announce-All linked is_exit u (record n { routes = rib }) changed sound;
      }

  and_after :
      (u : Bytes) (r : Node × List Effect) (es : List Effect)
      → ResultSound u r
      → All (FlightSound linked is_exit) (sent u es)
      → ResultSound u (r.0, r.1 ++ es)
  and_after u r es h q = record {
    node = h.node;
    flights =
        rw (sent-append u r.1 es)
          (All-append (FlightSound linked is_exit) (sent u r.1) (sent u es) h.flights q);
  }

  and_before :
      (u : Bytes) (r : Node × List Effect) (es : List Effect)
      → ResultSound u r
      → All (FlightSound linked is_exit) (sent u es)
      → ResultSound u (r.0, es ++ r.1)
  and_before u r es h q = record {
    node = h.node;
    flights =
        rw (sent-append u es r.1)
          (All-append (FlightSound linked is_exit) (sent u es) (sent u r.1) q h.flights);
  }

  with_sessions :
      (u : Bytes) (n : Node) (ss : Sessions)
      → NodeSound linked is_exit u n
      → NodeSound linked is_exit u (record n { sessions = ss })
  with_sessions u n ss h = record {
    named = h.named;
    exits = h.exits;
    unique = h.unique;
    routes = h.routes;
  }

  quiet :
      (u name : Bytes)
      → All (FlightSound linked is_exit) (sent u (ite (same name []) [] (Effect.sync_exit ∷ [])))
  quiet u name =
      elim (same name [])
        as (λ b. All (FlightSound linked is_exit) (sent u (ite b [] (Effect.sync_exit ∷ [])))) [
          | yes e ↦ tt
          | no e ↦ tt
        ]

  register-Sound :
      (u : Bytes) (n : Node) (s : Session)
      → NodeSound linked is_exit u n
      → ResultSound u (register n s)
  unfolding register
  register-Sound u n s h = elim (Option-cases (session_of n.sessions s.id)) [
    | inl fresh_id ↦ rw (fresh_id, register) (record { node = with_sessions u n _ h; flights = tt })
    | inr (old, replaced) ↦
        rw (replaced, register) (record { node = with_sessions u n _ h; flights = tt })
  ]

  unregister-Sound :
      (u : Bytes) (n : Node) (s : Session)
      → NodeSound linked is_exit u n
      → NodeSound linked is_exit u (unregister n s)
  unfolding unregister
  unregister-Sound u n s h = elim (Bool-cases (is_session (session_of n.sessions s.id) s)) [
    | inl current ↦ rw (current, unregister) (with_sessions u n _ h)
    | inr replaced ↦ rw (replaced, unregister) h
  ]

  down-Sound :
      (u : Bytes) (n : Node) (s : Session)
      → NodeSound linked is_exit u n
      → ResultSound u (on_session_down n s)
  unfolding on_session_down
  down-Sound u n s h =
      let r = drop_via s.id n.routes in
      let gone =
        and_after u _ (Effect.release_pin s.underlay_ip ∷ [])
          (announced u n r.0 r.1 h (drop_via-Unique s.id n.routes h.unique)
            (drop_via-Holds (Via linked is_exit u) s.id n.routes h.unique h.routes))
          tt in
      elim (Option-cases (session_of n.sessions s.id)) [
        | inl absent ↦ rw (absent, on_session_down) gone
        | inr (c, found) ↦ elim (Bool-cases (is_session (some c) s)) [
          | inl current ↦ rw (found, current, on_session_down) gone
          | inr replaced ↦ rw (found, replaced, on_session_down) (record { node = h; flights = tt })
        ]
      ]

  pub arrive-Sound :
      (canonical : (u v : Bytes) → linked u v → advert_key (address v) ≡ some (address v))
      (u : Bytes) (n : Node) (s : Session) (m : Message) (now : ℕ)
      → linked u s.id
      → NodeSound linked is_exit u n
      → All (λ (r : Advert). Away linked is_exit s.id r.dest r.metric) m.routes
      → ResultSound u (handle_routes n s m now)
  unfolding handle_routes
  arrive-Sound canonical u n s m now l h all =
      let r = update_rib n.id s.id m.routes now n.routes in
      announced u n r.0 r.1 h (update_rib-Unique n.id s.id m.routes now n.routes h.unique) (
        update_rib-Holds (Via linked is_exit u) n.id s.id m.routes now n.routes h.unique
          (one_hop u s.id l) (routes-Heard canonical u s.id m.routes l all) h.routes)

  pub expire-Sound :
      (u : Bytes) (n : Node) (now : ℕ)
      → NodeSound linked is_exit u n
      → ResultSound u (expire_stale_routes n now)
  unfolding expire_stale_routes
  expire-Sound u n now h =
      let r = expire now n.routes in
      announced u n r.0 r.1 h (expire-Unique now n.routes h.unique)
        (expire-Holds (Via linked is_exit u) now n.routes h.unique h.routes)

  pub refresh-Sound :
      (u : Bytes) (n : Node) (now : ℕ)
      → NodeSound linked is_exit u n
      → ResultSound u (refresh_routes n now)
  unfolding refresh_routes
  refresh-Sound u n now h =
      let r = expire-Sound u n now h in
      let n' = (expire_stale_routes n now).0 in
      and_after u (expire_stale_routes n now) _ r (
        rw
          (sent-append u (advertise_routes n')
            (ite (same n.exit_node []) [] (Effect.sync_exit ∷ [])))
          (All-append (FlightSound linked is_exit) (sent u (advertise_routes n')) _
            (unfold advertise_routes in
              advertise-All linked is_exit u n' (session_list n'.sessions) r.node)
            (quiet u n.exit_node)))

  pub start-Sound :
      (u : Bytes) (n : Node) (s : Session)
      → linked u s.id
      → NodeSound linked is_exit u n
      → ResultSound u (start_session n s)
  unfolding start_session
  start-Sound u n s l h =
      let r = register-Sound u n s h in
      and_before u (on_session_up (register n s).0 s) (register n s).1
        (up-Sound u (register n s).0 s l r.node) r.flights

  pub end-Sound :
      (u : Bytes) (n : Node) (s : Session)
      → NodeSound linked is_exit u n
      → ResultSound u (end_session n s)
  unfolding end_session
  end-Sound u n s h =
      and_before u (on_session_down (unregister n s) s) (Effect.close_session s ∷ [])
        (down-Sound u (unregister n s) s (unregister-Sound u n s h)) tt
