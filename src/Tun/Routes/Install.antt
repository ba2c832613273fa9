-- ===== src/Tun/Routes/Install.antt =====
-- installDefaultRoutes installs everything or nothing, and its reversal leaves nothing behind.
use hopscotch.Common.{ℕ, ◌≡◌, ◌≢◌, ◌⊎◌, inl, inr, List, [], ◌∷◌, ◌++◌, All}
use hopscotch.Common.Bytes.{Bytes}
use hopscotch.Tun.Netlink.{RouteSpec}
use hopscotch.Tun.Request.{RequestError}
use hopscotch.Tun.Routes.{Host, TunError, Installed, splits, revert_installed}
use hopscotch.Tun.Routes.Laws.{IsHost, key, Outside}

-- Routes to prefixes that differ, from those of a list and from each other.
abbrev Apart : List RouteSpec → List RouteSpec → Type 0
Apart done [] = Unit {0}
Apart done (s ∷ ss) = All (λ q. key q ≢ key s) done × Apart (done ++ (s ∷ [])) ss

module _ {K : Type 0} (host : Host K) (Has : K → RouteSpec → Type 0) (laws : IsHost host Has) where
  -- Where the loop comes to its end, the host has all its routes.
  abbrev Holding : K × (RequestError ⊎ List RouteSpec) → Type 0
  Holding (k, inl e) = Unit {0}
  Holding (k, inr specs) = All (Has k) specs

  -- The routes of the host before, or of the pins.
  abbrev Pinned : K → List RouteSpec → RouteSpec → Type 0
  Pinned k pinned q = Has k q ⊎ (¬ Outside q pinned)

  -- What is left is as before, or all is there: the four halves of the address spaces by the
  -- interface, and a reversal that leaves what was there before.
  pub data Outcome (k0 : K) : K × (TunError ⊎ Installed) → Type 0 where
    nothing :
        (k : K) (e : TunError) → ((q : RouteSpec) → Has k q → Has k0 q) → Outcome k0 (k, inl e)
    everything :
        (k : K) (i : Installed) (oif : ℕ)
        → i.added ≡ splits oif
        → All (Has k) i.added
        → ((q : RouteSpec) → Has (revert_installed host k i).0 q → Has k0 q)
        → Outcome k0 (k, inr i)
