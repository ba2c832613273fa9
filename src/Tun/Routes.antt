-- ===== src/Tun/Routes.antt =====
-- internal/tun/tun_linux.go, tun.go and pin.go: the default routes by the tunnel, and the host routes
-- that keep the underlay off them. The host is an interface; netlink_host is the one of the code.
-- Wrapped errors are the errors that they wrap.
pub mod Laws
pub mod Install
use hopscotch.Common.{
  ℕ, ◌≡◌, Bool, true, false, not, ◌&&◌, ◌||◌, ◌⊎◌, inl, inr, Option, none, some, List, [], ◌∷◌,
  ◌++◌, ◌==◌, leb, if◌then◌else◌, replicate,
}
use hopscotch.Common.Bytes.{Bytes}
use hopscotch.Ip.{to4, to16, ip_equal}
use hopscotch.Tun.Netlink.{Endian, RouteSpec, RouteEntry, af_inet, af_inet6, is_nil, route_payload}
use hopscotch.Tun.Request.{
  RequestError, Receipt, message, rtm_newroute, rtm_delroute, nl_route_replace, nl_route_delete,
  nl_routes_dump,
}
use hopscotch.Tun.Gateway.{physical_gateway}

-- What the host does with routes, from one state to the next: nlRouteReplace, nlRouteDelete, ifIndex
-- and physicalGateway.
pub record Host (K : Type 0) : Type 0 where
  pub replace : K → RouteSpec → K × Option RequestError
  pub delete : K → RouteSpec → K × Option RequestError
  pub if_index : K → Bytes → Option ℕ
  pub gateway : K → Bool → Bytes

-- The table of a dump, where it came and was no error.
abbrev pub arrived : Option (RequestError ⊎ List RouteEntry) → Option (List RouteEntry)
arrived none = none
arrived (some (inl why)) = none
arrived (some (inr rs)) = some rs

-- The host behind a netlink socket.
unfoldable pub netlink_host :
    {K : Type 0}
    → Endian
    → ℕ
    → (K → Bytes → K × Receipt)
    → (K → Bytes → List Receipt)
    → (K → Bytes → Option ℕ)
    → (K → ℕ → Option Bytes)
    → Host K
netlink_host e pid exchange dump index name = record {
  replace = λ k s. (
    (exchange k (message e rtm_newroute 1285 pid (route_payload e s))).0,
    nl_route_replace e pid (λ q. (exchange k q).1) s,
  );
  delete = λ k s. (
    (exchange k (message e rtm_delroute 5 pid (route_payload e s))).0,
    nl_route_delete e pid (λ q. (exchange k q).1) s,
  );
  if_index = index;
  gateway = λ k inet6. physical_gateway (name k) inet6 (arrived (nl_routes_dump e pid (dump k)));
}

pub data TunError : Type 0 where
  bad_if_name bad_address no_gateway no_interface : TunError
  request : RequestError → TunError

abbrev safe_chars : Bytes → Bool
safe_chars [] = true
safe_chars (c ∷ cs) = ((leb 97 c && leb c 122) || (leb 48 c && leb c 57)) && safe_chars cs

unfoldable pub safe_if_name : Bytes → Bool
safe_if_name name = not (is_nil name) && safe_chars name

-- net.IPv6loopback
abbrev pub loopback6 : Bytes
loopback6 = replicate 15 0 ++ (1 ∷ [])

abbrev in_127 : Bytes → Bool
in_127 [] = false
in_127 (a ∷ rest) = a == 127

unfoldable pub is_loopback_ip : Bytes → Bool
is_loopback_ip ip = if is_nil (to4 ip) then ip_equal ip loopback6 else in_127 (to4 ip)

pub record PinRoute : Type 0 where
  pub dst : Bytes
  pub gateway : Bytes

-- The route that a pin asks for, by the gateways of the two families; `none` is skipped.
unfoldable pub pin_spec : Bytes → Bytes → PinRoute → Option RouteSpec
pin_spec gw4 gw6 p =
    let via4 = if is_nil p.gateway || is_nil (to4 p.gateway) then gw4 else p.gateway in
    let via6 =
      if is_nil p.gateway || (not (is_nil (to4 p.gateway)) || is_nil (to16 p.gateway))
      then gw6
      else p.gateway in
    if is_nil p.dst || is_loopback_ip p.dst
    then none
    else if not (is_nil (to4 p.dst))
    then if is_nil via4 || is_nil (to4 via4)
      then none
      else some record { family = af_inet; dst = to4 p.dst; ones = 32; oif = 0; gw = to4 via4 }
    else if is_nil (to16 p.dst)
    then none
    else if is_nil via6 || (is_nil (to16 via6) || not (is_nil (to4 via6)))
    then none
    else some record { family = af_inet6; dst = to16 p.dst; ones = 128; oif = 0; gw = via6 }

-- The routes of the pins that are not skipped.
unfoldable pub pin_specs : Bytes → Bytes → List PinRoute → List RouteSpec
pin_specs gw4 gw6 [] = []
pin_specs gw4 gw6 (p ∷ ps) =
    let rest = pin_specs gw4 gw6 ps in elim (pin_spec gw4 gw6 p) [ none ↦ rest | some s ↦ s ∷ rest ]

abbrev split : ℕ → Bytes → ℕ → RouteSpec
split family dst oif = record { family = family; dst = dst; ones = 1; oif = oif; gw = [] }

-- The halves of the two address spaces.
unfoldable pub splits : ℕ → List RouteSpec
splits oif =
    split af_inet (0 ∷ 0 ∷ 0 ∷ 0 ∷ []) oif
    ∷ split af_inet (128 ∷ 0 ∷ 0 ∷ 0 ∷ []) oif
    ∷ split af_inet6 (replicate 16 0) oif
    ∷ split af_inet6 (128 ∷ replicate 15 0) oif
    ∷ []

abbrev loopback_route4 : RouteSpec
loopback_route4 = record {
  family = af_inet;
  dst = 127 ∷ 0 ∷ 0 ∷ 1 ∷ [];
  ones = 32;
  oif = 0;
  gw = [];
}

abbrev loopback_route6 : RouteSpec
loopback_route6 = record { family = af_inet6; dst = loopback6; ones = 128; oif = 0; gw = [] }

-- What the routes that were installed are, in the order of their installation: the defaults, and the
-- pins. The function that reverts them holds both.
pub record Installed : Type 0 where
  pub added : List RouteSpec
  pub pinned : List RouteSpec

abbrev first_error : Option RequestError → Option RequestError → Option RequestError
first_error (some e) later = some e
first_error none later = later

module _ {K : Type 0} (host : Host K) where
  -- The last route first; every one is tried, and the first error is kept.
  unfoldable pub revert_routes : K → List RouteSpec → K × Option RequestError
  revert_routes k [] = (k, none)
  revert_routes k (s ∷ ss) =
      let (k', first) = revert_routes k ss in
      let (k'', now) = host.delete k' s in (k'', first_error first now)

  -- Both loops of installDefaultRoutes over routes to install, after `done`; `undo` is what an error
  -- reverts.
  unfoldable pub install_routes :
      (K → List RouteSpec → K)
      → K
      → List RouteSpec
      → List RouteSpec
      → K × (RequestError ⊎ List RouteSpec)
  install_routes undo k [] done = (k, inr done)
  install_routes undo k (s ∷ ss) done =
      let (k', e) = host.replace k s in
      elim e [
        | some why ↦ (undo k' done, inl why)
        | none ↦ install_routes undo k' ss (done ++ (s ∷ []))
      ]

  -- The end, from the pins that were installed.
  unfoldable pub install_splits : K → Bytes → List RouteSpec → K × (TunError ⊎ Installed)
  install_splits k if_name pinned = elim (host.if_index k if_name) [
    | none ↦ ((revert_routes k pinned).0, inl TunError.no_interface)
    | some oif ↦
        let undo : K → List RouteSpec → K =
          λ k added. (revert_routes (revert_routes k added).0 pinned).0 in
        let (k', r) = install_routes undo k (splits oif) [] in
        elim r [
          | inl why ↦ (k', inl (TunError.request why))
          | inr added ↦ (k', inr record { added = added; pinned = pinned })
        ]
  ]

  unfoldable pub install_default_routes : K → Bytes → List PinRoute → K × (TunError ⊎ Installed)
  install_default_routes k if_name pins =
      let gw4 = host.gateway k false in
      let gw6 = host.gateway k true in
      let k1 = (host.delete k loopback_route4).0 in
      let k2 = (host.delete k1 loopback_route6).0 in
      let undo : K → List RouteSpec → K = λ k pinned. (revert_routes k pinned).0 in
      let (k3, r) = install_routes undo k2 (pin_specs gw4 gw6 pins) [] in
      if not (safe_if_name if_name) then (k, inl TunError.bad_if_name) else elim r [
        | inl why ↦ (k3, inl (TunError.request why))
        | inr pinned ↦ install_splits k3 if_name pinned
      ]

  -- The function that installDefaultRoutes returns.
  unfoldable pub revert_installed : K → Installed → K × Option RequestError
  revert_installed k i = revert_routes (revert_routes k i.added).0 i.pinned

  -- pinHost; the function that it returns deletes the route.
  unfoldable pub pin_host : K → Bytes → K × (TunError ⊎ RouteSpec)
  pin_host k dst =
      let gw4 = host.gateway k false in
      let gw6 = host.gateway k true in
      let install : RouteSpec → K × (TunError ⊎ RouteSpec) = λ s.
        let (k', e) = host.replace k s in
        (k', elim e [ some why ↦ inl (TunError.request why) | none ↦ inr s ]) in
      if not (is_nil (to4 dst))
      then if is_nil gw4 || is_nil (to4 gw4)
        then (k, inl TunError.no_gateway)
        else install record { family = af_inet; dst = to4 dst; ones = 32; oif = 0; gw = to4 gw4 }
      else if is_nil (to16 dst)
      then (k, inl TunError.bad_address)
      else if is_nil gw6 || not (is_nil (to4 gw6))
      then (k, inl TunError.no_gateway)
      else install record { family = af_inet6; dst = to16 dst; ones = 128; oif = 0; gw = gw6 }

  -- PinHost: no address, or a loopback address, has no route, and nothing to revert.
  unfoldable pub pin : K → Bytes → K × (TunError ⊎ Option RouteSpec)
  pin k dst =
      let (k', r) = pin_host k dst in
      if is_nil dst || is_loopback_ip dst
      then (k, inr none)
      else (k', elim r [ inl why ↦ inl why | inr s ↦ inr (some s) ])
