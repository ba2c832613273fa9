-- ===== src/Node/Network/Reachable.antt =====
-- The routes of every reachable network.
use hopscotch.Common.{◌≡◌, Bool, List, [], ◌∷◌, ◌++◌, ite, some, All, All-append}
use hopscotch.Common.Bytes.{Bytes, same}
use hopscotch.Common.Maps.{lookup}
use hopscotch.Route.{RibEntry, advert_key}
use hopscotch.Route.Step.{address}
use hopscotch.Node.{Node, Effect}
use hopscotch.Node.Network.{Net, after, sent, Step, Reach, Via}
use hopscotch.Node.Network.Adverts.{NodeSound, FlightSound}
use hopscotch.Node.Network.Handlers.{
  ResultSound, start-Sound, end-Sound, arrive-Sound, expire-Sound, refresh-Sound,
}

All-without {ℓ} :
    {A : Type 0} (P : A → Type ℓ) (before later : List A) (x : A)
    → All P (before ++ x ∷ later)
    → P x × All P (before ++ later)
All-without P [] later x h = h
All-without P (y ∷ before) later x h =
    let (px, rest) = All-without P before later x h.1 in (px, (h.0, rest))

-- Nothing has happened yet.
pub record IsFresh (is_exit : Bytes → Bool) (net : Net) : Type 0 where
  pub named : (u : Bytes) → (net.node u).id ≡ u
  pub exits : (u : Bytes) → (net.node u).exit ≡ is_exit u
  pub no_routes : (u : Bytes) → (net.node u).routes ≡ []
  pub no_flights : net.flights ≡ []

module _ (linked : Bytes → Bytes → Type 0) (is_exit : Bytes → Bool)
    (canonical : (u v : Bytes) → linked u v → advert_key (address v) ≡ some (address v)) where
  record NetSound (net : Net) : Type 0 where
    pub nodes : (u : Bytes) → NodeSound linked is_exit u (net.node u)
    pub flights : All (FlightSound linked is_exit) net.flights

  after-NetSound :
      (net : Net) (u : Bytes) (r : Node × List Effect)
      → NetSound net
      → ResultSound linked is_exit u r
      → NetSound (after u r net)
  after-NetSound net u r h q = record {
    nodes = λ w. elim (same u w) as (λ b. NodeSound linked is_exit w (ite b r.0 (net.node w))) [
      | yes e ↦ rw (← e) q.node
      | no e ↦ h.nodes w
    ];
    flights = All-append (FlightSound linked is_exit) net.flights (sent u r.1) h.flights q.flights;
  }

  fresh-NetSound : (net : Net) → IsFresh is_exit net → NetSound net
  fresh-NetSound net h = record {
    nodes = λ u. record {
      named = h.named u;
      exits = h.exits u;
      unique = rw (h.no_routes u) tt;
      routes = λ d. rw (h.no_routes u) (unfold lookup in tt);
    };
    flights = rw h.no_flights tt;
  }

  Step-NetSound : {net net' : Net} → Step linked is_exit net net' → NetSound net → NetSound net'
  Step-NetSound (Step.up u s l) h =
      after-NetSound _ u _ h (start-Sound linked is_exit u _ s l (h.nodes u))
  Step-NetSound (Step.down u s) h =
      after-NetSound _ u _ h (end-Sound linked is_exit u _ s (h.nodes u))
  Step-NetSound (Step.arrive before later f s now at_place from l) h =
      let (sound, rest) =
        All-without (FlightSound linked is_exit) before later f (rw (← at_place) h.flights) in
      after-NetSound _ f.to _ (record { nodes = h.nodes; flights = rest })
        (arrive-Sound linked is_exit canonical f.to _ s f.message now (rw from l) (h.nodes f.to)
          (rw from sound))
  Step-NetSound (Step.lose before later f at_place) h =
      let (sound, rest) =
        All-without (FlightSound linked is_exit) before later f (rw (← at_place) h.flights) in
      record { nodes = h.nodes; flights = rest }
  Step-NetSound (Step.expire u now) h =
      after-NetSound _ u _ h (expire-Sound linked is_exit u _ now (h.nodes u))
  Step-NetSound (Step.refresh u now) h =
      after-NetSound _ u _ h (refresh-Sound linked is_exit u _ now (h.nodes u))

  Reach-NetSound :
      {start net : Net} → Reach linked is_exit start net → NetSound start → NetSound net
  Reach-NetSound Reach.here h = h
  Reach-NetSound (Reach.step_on r st) h = Step-NetSound st (Reach-NetSound r h)

  -- In a network that starts without routes and messages, with each node under its own NodeID and
  -- the exits as given, whatever sessions come and go, and however routes messages are delayed,
  -- reordered or lost: every route in a node's table leads over a link to a neighbour, from which
  -- a walk over links, shorter by one than the metric, ends at the node with the destination's
  -- address, or at an exit if the destination is a default route. The links are those over which
  -- sessions come up, and the address of every linked node must be kept under the text it is
  -- printed as.
  pub reachable_route :
      (start net : Net)
      → IsFresh is_exit start
      → Reach linked is_exit start net
      → (u d : Bytes) (e : RibEntry) → lookup same d (net.node u).routes ≡ some e
      → Via linked is_exit u d e.next e.metric
  reachable_route start net fresh reach u d e found =
      rw found at (((Reach-NetSound reach (fresh-NetSound start fresh)).nodes u).routes d)
