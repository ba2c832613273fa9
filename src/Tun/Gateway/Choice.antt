-- ===== src/Tun/Gateway/Choice.antt =====
-- Which gateway physicalGatewayFromNetlink chooses.
use mathlib.Core.Path.{subst}
use hopscotch.Common.{
  ℕ, ◌≡◌, refl, ap, sym, ◌∙◌, inl, inr, Bool, true, false, Option, none, some, List, [], ◌∷◌, ◌++◌,
  Bool-cases, All, ite, ◌⊎◌, take, drop, length, take-append, take-append-drop, arith, ◌==◌,
  Option-cases,
}
use hopscotch.Common.Bytes.{Bytes, same, codes}
use hopscotch.Tun.Netlink.{RouteEntry}
use hopscotch.Tun.Gateway.{
  has_prefix, contains, skip_tunnel_dev, IsTunnel, IsDefault, ByTunnel, is_default, by_tunnel,
  first_gateway, last_gateway, gateway_among, IsPhysical, Chosen, physical, tunnelled, without,
}

-- strings.HasPrefix
has_prefix_cases :
    (name prefix : Bytes)
    → ((has_prefix name prefix ≡ true) × ((rest : Bytes) × (name ≡ prefix ++ rest)))
      ⊎ ((has_prefix name prefix ≡ false) × (¬ ((rest : Bytes) × (name ≡ prefix ++ rest))))
has_prefix_cases name prefix =
    elim (same (take (length prefix) name) prefix)
      as (λ d.
        ((ite d true false ≡ true) × ((rest : Bytes) × (name ≡ prefix ++ rest)))
        ⊎ ((ite d true false ≡ false) × (¬ ((rest : Bytes) × (name ≡ prefix ++ rest))))) [
          | yes e ↦ inl (
            refl,
            (
              drop (length prefix) name,
              sym (take-append-drop (length prefix) name)
                  ∙ ap (λ t. t ++ drop (length prefix) name) e,
            ),
          )
          | no other ↦
              inr (refl, λ h. other (ap (take (length prefix)) h.1 ∙ take-append _ prefix h.0 refl))
        ]

-- strings.Contains
contains_found :
    (name part : Bytes)
    → contains name part ≡ true
    → (before : Bytes) × (after : Bytes) × (name ≡ before ++ (part ++ after))
contains_found [] part h = elim (has_prefix_cases [] part) [
  | inl (_, (rest, e)) ↦ ([], rest, e)
  | inr (absent, _) ↦ absurd (cc (sym h ∙ absent))
]
contains_found (c ∷ name) part h = elim (has_prefix_cases (c ∷ name) part) [
  | inl (_, (rest, e)) ↦ ([], rest, e)
  | inr (absent, _) ↦
      let later : contains name part ≡ true = rw absent at h in
      let (before, after, e) = contains_found name part later in
      (c ∷ before, after, ap (λ t. c ∷ t) e)
]

contains_here : (name part : Bytes) → has_prefix name part ≡ true → contains name part ≡ true
contains_here [] part h = h
contains_here (c ∷ name) part h = rw h refl

contains_fine : (part before after : Bytes) → contains (before ++ (part ++ after)) part ≡ true
contains_fine part [] after = elim (has_prefix_cases (part ++ after) part) [
  | inl (here, _) ↦ contains_here (part ++ after) part here
  | inr (_, never) ↦ absurd (never (after, refl))
]
contains_fine part (c ∷ before) after = ground (arith, contains_fine part before after)

not_tunnel :
    (name : Bytes)
    → contains name (codes "hopscotch") ≡ false
    → ¬ ((rest : Bytes) × (name ≡ codes "tun" ++ rest))
    → ¬ ((rest : Bytes) × (name ≡ codes "utun" ++ rest))
    → ¬ IsTunnel name
not_tunnel name absent no_tun no_utun (inl (before, after, e)) = absurd (
    cc (
      sym absent
      ∙ ap (λ t. contains t (codes "hopscotch")) e
      ∙ contains_fine (codes "hopscotch") before after))
not_tunnel name absent no_tun no_utun (inr (inl t)) = no_tun t
not_tunnel name absent no_tun no_utun (inr (inr t)) = no_utun t

skip_tunnel_dev_cases :
    (name : Bytes)
    → ((skip_tunnel_dev name ≡ true) × IsTunnel name)
      ⊎ ((skip_tunnel_dev name ≡ false) × (¬ IsTunnel name))
unfolding skip_tunnel_dev
skip_tunnel_dev_cases name =
    let ours = Bool-cases (contains name (codes "hopscotch")) in
    elim ours [
      | inl h ↦ inl (rw h refl, inl (contains_found name (codes "hopscotch") h))
      | inr absent ↦ elim (has_prefix_cases name (codes "tun")) [
        | inl (h, t) ↦ inl (rw (absent, h) refl, inr (inl t))
        | inr (h, no_tun) ↦ elim (has_prefix_cases name (codes "utun")) [
          | inl (k, t) ↦ inl (rw (absent, h, k) refl, inr (inr t))
          | inr (k, no_utun) ↦ inr (rw (absent, h, k) refl, not_tunnel name absent no_tun no_utun)
        ]
      ]
    ]

module _ (inet6 : Bool) (r : RouteEntry) where
  is_default-IsDefault : is_default inet6 r ≡ true → IsDefault inet6 r
  unfolding is_default
  is_default-IsDefault e = record {
    family = ground (arith, e);
    everything = ground (arith, e);
    gateway = λ nil. ground (arith, e, nil);
    of_family = ground (arith, e);
  }

  IsDefault-is_default : IsDefault inet6 r → is_default inet6 r ≡ true
  unfolding is_default
  IsDefault-is_default h = ground (arith, h.family, h.everything, h.gateway, h.of_family)

  is_default_cases :
      ((is_default inet6 r ≡ true) × IsDefault inet6 r)
      ⊎ ((is_default inet6 r ≡ false) × (¬ IsDefault inet6 r))
  is_default_cases = elim (Bool-cases (is_default inet6 r)) [
    | inl default ↦ inl (default, is_default-IsDefault default)
    | inr other ↦ inr (other, λ h. absurd (cc (sym other ∙ IsDefault-is_default h)))
  ]

module _ (interface_name : ℕ → Option Bytes) (inet6 : Bool) where
  by_tunnel_cases :
      (r : RouteEntry)
      → ((by_tunnel interface_name r ≡ true) × ByTunnel interface_name r)
        ⊎ ((by_tunnel interface_name r ≡ false) × (¬ ByTunnel interface_name r))
  unfolding by_tunnel
  by_tunnel_cases r = elim (Bool-cases (r.oif == 0)) [
    | inl nowhere ↦ inr (rw nowhere refl, λ h. h.device (ground (arith, nowhere)))
    | inr device ↦ elim (Option-cases (interface_name r.oif)) [
      | inl unnamed ↦ inr (rw (device, unnamed) refl, λ h. absurd (cc (sym unnamed ∙ h.named)))
      | inr (name, named) ↦ elim (skip_tunnel_dev_cases name) [
        | inl (skipped, t) ↦ inl (
          rw (device, named) skipped,
          record { device = ground (arith, device); name = name; named = named; tunnel = t },
        )
        | inr (plain, other) ↦ inr (
          rw (device, named) plain,
          λ h. other (subst IsTunnel (cc (sym h.named ∙ named)) h.tunnel),
        )
      ]
    ]
  ]

  data First (rs : List RouteEntry) : Option Bytes → Type 0 where
    nowhere : All (λ q. ¬ IsPhysical interface_name inet6 q) rs → First rs none
    found :
        (before after : List RouteEntry) (r : RouteEntry)
        → rs ≡ before ++ r ∷ after
        → IsPhysical interface_name inet6 r
        → All (λ q. ¬ IsPhysical interface_name inet6 q) before
        → First rs (some r.gw)

  later :
      (r : RouteEntry) (rs : List RouteEntry) (o : Option Bytes)
      → ¬ IsPhysical interface_name inet6 r
      → First rs o
      → First (r ∷ rs) o
  later r rs none none_is (nowhere h) = nowhere (none_is, h)
  later r rs (some gw) none_is (found before after q e h others) =
      found (r ∷ before) after q (ap (λ t. r ∷ t) e) h (none_is, others)

  first_gateway-First : (rs : List RouteEntry) → First rs (first_gateway interface_name inet6 rs)
  unfolding first_gateway
  first_gateway-First [] = nowhere tt
  first_gateway-First (r ∷ rs) =
      let rest = first_gateway-First rs in
      elim (is_default_cases inet6 r) [
        | inr (e, other) ↦ rw e (later r rs _ (λ h. other h.0) rest)
        | inl (e, default) ↦ elim (by_tunnel_cases r) [
          | inl (t, tunnel) ↦ rw (e, t) (later r rs _ (λ h. h.1 tunnel) rest)
          | inr (t, plain) ↦ rw (e, t) (found [] rs r refl (default, plain) tt)
        ]
      ]

  data Last (rs : List RouteEntry) (fallback : Bytes) : Bytes → Type 0 where
    kept : All (λ q. ¬ IsDefault inet6 q) rs → Last rs fallback fallback
    seen :
        (before after : List RouteEntry) (r : RouteEntry)
        → rs ≡ before ++ r ∷ after
        → IsDefault inet6 r
        → All (λ q. ¬ IsDefault inet6 q) after
        → Last rs fallback r.gw

  chosen_here :
      (r : RouteEntry) (rs : List RouteEntry) (fallback gw : Bytes)
      → IsDefault inet6 r
      → Last rs r.gw gw
      → Last (r ∷ rs) fallback gw
  chosen_here r rs fallback gw default (kept h) = seen [] rs r refl default h
  chosen_here r rs fallback gw default (seen before after q e h others) =
      seen (r ∷ before) after q (ap (λ t. r ∷ t) e) h others

  passed :
      (r : RouteEntry) (rs : List RouteEntry) (fallback gw : Bytes)
      → ¬ IsDefault inet6 r
      → Last rs fallback gw
      → Last (r ∷ rs) fallback gw
  passed r rs fallback gw other (kept h) = kept (other, h)
  passed r rs fallback gw other (seen before after q e h others) =
      seen (r ∷ before) after q (ap (λ t. r ∷ t) e) h others

  last_gateway-Last :
      (rs : List RouteEntry) (fallback : Bytes)
      → Last rs fallback (last_gateway interface_name inet6 rs fallback)
  unfolding last_gateway
  last_gateway-Last [] fallback = kept tt
  last_gateway-Last (r ∷ rs) fallback = elim (is_default_cases inet6 r) [
    | inl (e, default) ↦ rw e (chosen_here r rs fallback _ default (last_gateway-Last rs r.gw))
    | inr (e, other) ↦ rw e (passed r rs fallback _ other (last_gateway-Last rs fallback))
  ]

  choice :
      (rs : List RouteEntry) (o : Option Bytes) (fallback : Bytes)
      → First rs o
      → Last rs [] fallback
      → Chosen interface_name inet6 rs (elim o [ some gw ↦ gw | none ↦ fallback ])
  choice rs (some gw) fallback (found before after r e h others) l =
      physical before after r e h others
  choice rs none fallback (nowhere none_is) (kept h) = without h
  choice rs none fallback (nowhere none_is) (seen before after r e h others) =
      tunnelled before after r e h others none_is

  -- Of the routes that a dump gave, the gateway is that of the first default route of the family that
  -- does not leave by a tunnel; where there is none, that of the last default route of the family; and
  -- nil where there is none of these either. A default route has a prefix of length 0 and a gateway of
  -- the family; a tunnel is a device whose name contains "hopscotch" or begins with "tun" or "utun".
  -- The names of the interfaces are arbitrary.
  pub gateway_among-Chosen :
      (rs : List RouteEntry)
      → Chosen interface_name inet6 rs (gateway_among interface_name inet6 rs)
  unfolding gateway_among
  gateway_among-Chosen rs = choice rs _ _ (first_gateway-First rs) (last_gateway-Last rs [])
