-- ===== src/Node/Network.antt =====
-- Many nodes with the handlers of internal/node/route.go, and the messages between them: sessions
-- come and go, and routes messages are handled in any order, late, or never.
pub mod Sound
pub mod Adverts
pub mod Handlers
pub mod Reachable
mod Tests
use hopscotch.Common.{ℕ, suc, ◌≡◌, ◌⊎◌, Bool, true, List, [], ◌∷◌, ◌++◌, ite, Option, none, some}
use hopscotch.Common.Bytes.{Bytes, same}
use hopscotch.Common.Int.{ℤ, pos}
use hopscotch.Common.Maps.{insert}
use hopscotch.Session.{Session}
use hopscotch.Route.{is_default_route_dest}
use hopscotch.Route.Step.{address}
use hopscotch.Node.{Node, Message, Effect}
use hopscotch.Node.Peering.{start_session, end_session}
use hopscotch.Node.Routing.{handle_routes, expire_stale_routes, refresh_routes}

-- A message under way.
pub record Flight : Type 0 where
  pub from : Bytes
  pub to : Bytes
  pub message : Message

pub record Net : Type 0 where
  pub node : Bytes → Node
  pub flights : List Flight

-- The messages among the effects of a handler at `u`.
abbrev pub sent : Bytes → List Effect → List Flight
sent u [] = []
sent u (Effect.send s m ∷ es) = record { from = u; to = s.id; message = m } ∷ sent u es
sent u (Effect.send_packet s p ∷ es) = sent u es
sent u (Effect.queue_packet s p ∷ es) = sent u es
sent u (Effect.tap_packet p ∷ es) = sent u es
sent u (Effect.write_tun p ∷ es) = sent u es
sent u (Effect.inject p ∷ es) = sent u es
sent u (Effect.hand_over k m ∷ es) = sent u es
sent u (Effect.sync_exit ∷ es) = sent u es
sent u (Effect.release_pin a ∷ es) = sent u es
sent u (Effect.close_session s ∷ es) = sent u es
sent u (Effect.retain_pin a ∷ es) = sent u es
sent u (Effect.refuse a ∷ es) = sent u es
sent u (Effect.pending_reply s m ∷ es) = sent u es

-- A handler has run at `u`.
abbrev pub after : Bytes → Node × List Effect → Net → Net
after u r net = record {
  node = λ w. ite (same u w) r.0 (net.node w);
  flights = net.flights ++ sent u r.1;
}

-- The links over which sessions may come up, and the nodes that are exits.
module _ (linked : Bytes → Bytes → Type 0) (is_exit : Bytes → Bool) where
  pub data Step (net : Net) : Net → Type 0 where
    -- a session of `u` with the node `s.id` is registered, maybe in place of another, and comes up
    up :
        (u : Bytes) (s : Session)
        → linked u s.id
        → Step net (after u (start_session (net.node u) s) net)
    -- the loop of a session of `u` ends
    down : (u : Bytes) (s : Session) → Step net (after u (end_session (net.node u) s) net)
    -- a message arrives over the session `s`
    arrive :
        (before later : List Flight) (f : Flight) (s : Session) (now : ℕ)
        → net.flights ≡ before ++ f ∷ later
        → s.id ≡ f.from
        → linked f.to f.from
        → Step net (
            after f.to
              (handle_routes (net.node f.to) s f.message now)
              (record net { flights = before ++ later }))
    lose :
        (before later : List Flight) (f : Flight)
        → net.flights ≡ before ++ f ∷ later
        → Step net (record net { flights = before ++ later })
    expire : (u : Bytes) (now : ℕ) → Step net (after u (expire_stale_routes (net.node u) now) net)
    refresh : (u : Bytes) (now : ℕ) → Step net (after u (refresh_routes (net.node u) now) net)

  pub data Reach (start : Net) : Net → Type 0 where
    here : Reach start start
    step_on : {s t : Net} → Reach start s → Step s t → Reach start t

  -- A walk of `m` links.
  pub data Walk : ℕ → Bytes → Bytes → Type 0 where
    stay : (u : Bytes) → Walk 0 u u
    hop : {m : ℕ} {u w v : Bytes} → linked u w → Walk m w v → Walk (suc m) u v

  -- `d` is the address of `v`, or a default route, and `v` an exit.
  abbrev pub Serves : Bytes → Bytes → Type 0
  Serves v d = (d ≡ address v) ⊎ ((is_default_route_dest d ≡ true) × (is_exit v ≡ true))

  -- From `u`, some node that serves `d` is `metric` links away.
  abbrev pub Away : Bytes → Bytes → ℤ → Type 0
  Away u d metric = (m : ℕ) × (v : Bytes) × (metric ≡ pos m) × Walk m u v × Serves v d

  -- The same by a walk over `neighbour`.
  abbrev pub Via : Bytes → Bytes → Bytes → ℤ → Type 0
  Via u d neighbour metric =
      (m : ℕ) × (v : Bytes) × (metric ≡ pos (suc m))
      × linked u neighbour
      × Walk m neighbour v
      × Serves v d
