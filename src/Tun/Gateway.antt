-- ===== src/Tun/Gateway.antt =====
-- internal/tun/rtnetlink_linux.go and tun.go: the default gateway of the physical network. The names
-- of the host's interfaces are a parameter.
pub mod Choice
use hopscotch.Common.{
  ℕ, ◌≡◌, ◌≢◌, ◌⊎◌, refl, ap, sym, ◌∙◌, inl, inr, Bool, true, false, not, ◌&&◌, ◌||◌, Option, none,
  some, List, [], ◌∷◌, ◌++◌, ite, ◌==◌, if◌then◌else◌, take, length, Bool-cases, All, arith,
}
use hopscotch.Common.Bytes.{Bytes, same, codes}
use hopscotch.Ip.{to4}
use hopscotch.Tun.Netlink.{RouteEntry, af_inet, af_inet6, is_nil}

-- strings.HasPrefix and strings.Contains
abbrev pub has_prefix : Bytes → Bytes → Bool
has_prefix s prefix = ite (same (take (length prefix) s) prefix) true false

abbrev pub contains : Bytes → Bytes → Bool
contains [] part = has_prefix [] part
contains (c ∷ s) part = has_prefix (c ∷ s) part || contains s part

unfoldable pub skip_tunnel_dev : Bytes → Bool
skip_tunnel_dev name =
    contains name (codes "hopscotch")
    || (has_prefix name (codes "tun") || has_prefix name (codes "utun"))

-- The tests at the head of both loops: a default route of the family, by a gateway of it.
unfoldable pub is_default : Bool → RouteEntry → Bool
is_default inet6 r =
    (r.family == (if inet6 then af_inet6 else af_inet))
    && ((r.dst_len == 0)
        && (not (is_nil r.gw) && (if inet6 then is_nil (to4 r.gw) else not (is_nil (to4 r.gw)))))

-- A device of a tunnel, by its name.
abbrev pub IsTunnel : Bytes → Type 0
IsTunnel name =
    ((before : Bytes) × (after : Bytes) × (name ≡ before ++ (codes "hopscotch" ++ after)))
    ⊎ (((rest : Bytes) × (name ≡ codes "tun" ++ rest))
        ⊎ ((rest : Bytes) × (name ≡ codes "utun" ++ rest)))

-- A route to everything of the family, by a gateway whose address is of it.
pub record IsDefault (inet6 : Bool) (r : RouteEntry) : Type 0 where
  pub family : r.family ≡ (if inet6 then 10 else 2)
  pub everything : r.dst_len ≡ 0
  pub gateway : r.gw ≢ []
  pub of_family : is_nil (to4 r.gw) ≡ inet6

module _ (interface_name : ℕ → Option Bytes) where
  unfoldable pub by_tunnel : RouteEntry → Bool
  by_tunnel r =
      if r.oif == 0
      then false
      else elim (interface_name r.oif) [ none ↦ false | some name ↦ skip_tunnel_dev name ]

  -- The first loop; `none` is its end.
  unfoldable pub first_gateway : Bool → List RouteEntry → Option Bytes
  first_gateway inet6 [] = none
  first_gateway inet6 (r ∷ rs) =
      let rest = first_gateway inet6 rs in
      if is_default inet6 r then if by_tunnel r then rest else some r.gw else rest

  -- The second loop.
  unfoldable pub last_gateway : Bool → List RouteEntry → Bytes → Bytes
  last_gateway inet6 [] fallback = fallback
  last_gateway inet6 (r ∷ rs) fallback =
      last_gateway inet6 rs (if is_default inet6 r then r.gw else fallback)

  unfoldable pub gateway_among : Bool → List RouteEntry → Bytes
  gateway_among inet6 rs = elim (first_gateway inet6 rs) [
    | some gw ↦ gw
    | none ↦ last_gateway inet6 rs []
  ]

  -- Of the routes of a dump, or none if it failed.
  unfoldable pub physical_gateway : Bool → Option (List RouteEntry) → Bytes
  physical_gateway inet6 none = []
  physical_gateway inet6 (some rs) = gateway_among inet6 rs

  -- A route that leaves by the device of a tunnel, as far as the device has a name.
  pub record ByTunnel (r : RouteEntry) : Type 0 where
    pub device : r.oif ≢ 0
    pub name : Bytes
    pub named : interface_name r.oif ≡ some name
    pub tunnel : IsTunnel name

  -- A default route that no tunnel serves.
  abbrev pub IsPhysical : Bool → RouteEntry → Type 0
  IsPhysical inet6 r = IsDefault inet6 r × (¬ ByTunnel r)

  -- The choice of a gateway: that of the first physical default route; with none of them, that of the
  -- last default route of all; with none of these either, nil.
  pub data Chosen (inet6 : Bool) (rs : List RouteEntry) : Bytes → Type 0 where
    physical :
        (before after : List RouteEntry) (r : RouteEntry)
        → rs ≡ before ++ r ∷ after
        → IsPhysical inet6 r
        → All (λ q. ¬ IsPhysical inet6 q) before
        → Chosen inet6 rs r.gw
    tunnelled :
        (before after : List RouteEntry) (r : RouteEntry)
        → rs ≡ before ++ r ∷ after
        → IsDefault inet6 r
        → All (λ q. ¬ IsDefault inet6 q) after
        → All (λ q. ¬ IsPhysical inet6 q) rs
        → Chosen inet6 rs r.gw
    without : All (λ q. ¬ IsDefault inet6 q) rs → Chosen inet6 rs []
