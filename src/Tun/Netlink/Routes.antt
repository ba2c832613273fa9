-- ===== src/Tun/Netlink/Routes.antt =====
-- The routes that the kernel reports, as nlRoutesDump reads them: struct rtmsg of the Linux headers,
-- and attributes of any types behind it.
use hopscotch.Common.{
  ℕ, ◌<◌, ◌≡◌, refl, sym, ap, ◌∙◌, ◌⊎◌, inl, inr, length-append, Option, false, none, some, List,
  [], ◌∷◌, ◌++◌, length, ℕ_discrete, arith, All, ◌==◌, if◌then◌else◌, take_all, drop-append, ltb,
}
use hopscotch.Common.Bytes.{Bytes}
use hopscotch.Common.Maps.{Assoc, lookup, insert, lookup-insert}
use hopscotch.Tun.Netlink.{
  Endian, RouteEntry, rta_gateway, rta_oif, gateway_attr, oif_attr, route_entry, put32,
}
use hopscotch.Tun.Netlink.Attrs.{
  IsAttr, encode, insert_all, parse_rt_attrs-encode, get32-put32, length-put32,
}

-- A route message: family and prefix length, the ten other bytes of struct rtmsg, and attributes.
pub record KernelRoute : Type 0 where
  pub family : ℕ
  pub dst_len : ℕ
  pub others : Bytes
  pub attrs : List (ℕ × Bytes)

abbrev pub kernel_payload : Endian → KernelRoute → Bytes
kernel_payload e k = k.family ∷ k.dst_len ∷ (k.others ++ encode e k.attrs)

-- The last attribute of a type.
abbrev pub last_attr : ℕ → List (ℕ × Bytes) → Option Bytes
last_attr typ [] = none
last_attr typ ((t, b) ∷ attrs) = elim (last_attr typ attrs) [
  | some c ↦ some c
  | none ↦ if t == typ then some b else none
]

-- RTA_GATEWAY: none, or an address of the family.
abbrev pub HasGateway : ℕ → Option Bytes → Bytes → Type 0
HasGateway family none gw = gw ≡ []
HasGateway family (some b) gw =
    (gw ≡ b) × (((family ≡ 2) × (length b ≡ 4)) ⊎ ((family ≡ 10) × (length b ≡ 16)))

-- RTA_OIF: none, or a word of 32 bits.
abbrev pub HasOif : Endian → Option Bytes → ℕ → Type 0
HasOif e none oif = oif ≡ 0
HasOif e (some b) oif = (oif < 4294967296) × (b ≡ put32 e oif)

-- What a message says of a route.
pub record Reports (e : Endian) (k : KernelRoute) (r : RouteEntry) : Type 0 where
  pub whole : length k.others ≡ 10
  pub fine : All IsAttr k.attrs
  pub family : r.family ≡ k.family
  pub dst_len : r.dst_len ≡ k.dst_len
  pub gateway : HasGateway k.family (last_attr rta_gateway k.attrs) r.gw
  pub oif : HasOif e (last_attr rta_oif k.attrs) r.oif

with_first :
    (typ t : ℕ) (b : Bytes) (m : Assoc ℕ Bytes) (o : Option Bytes)
    → Path
        (Option Bytes)
        (elim o [ some c ↦ some c | none ↦ lookup ℕ_discrete typ (insert ℕ_discrete t b m) ])
        (elim (elim o as (λ _. Option Bytes) [
          | some c ↦ some c
          | none ↦ if t == typ then some b else none
        ]) [ some c ↦ some c | none ↦ lookup ℕ_discrete typ m ])
with_first typ t b m (some c) = refl
with_first typ t b m none = ground (arith, lookup-insert ℕ_discrete t typ b m)

same_option : (o : Option Bytes) → Path (Option Bytes) (elim o [ some c ↦ some c | none ↦ none ]) o
same_option none = refl
same_option (some c) = refl

lookup-insert_all :
    (typ : ℕ) (attrs : List (ℕ × Bytes)) (m : Assoc ℕ Bytes)
    → lookup ℕ_discrete typ (insert_all attrs m)
      ≡ elim (last_attr typ attrs) [ some c ↦ some c | none ↦ lookup ℕ_discrete typ m ]
lookup-insert_all typ [] m = refl
lookup-insert_all typ ((t, b) ∷ attrs) m =
    lookup-insert_all typ attrs (insert ℕ_discrete t b m)
    ∙ with_first typ t b m (last_attr typ attrs)

lookup_attr :
    (typ : ℕ) (attrs : List (ℕ × Bytes))
    → lookup ℕ_discrete typ (insert_all attrs []) ≡ last_attr typ attrs
unfolding lookup
lookup_attr typ attrs = lookup-insert_all typ attrs [] ∙ same_option (last_attr typ attrs)

gateway_attr-HasGateway :
    (family : ℕ) (o : Option Bytes) (gw : Bytes)
    → HasGateway family o gw
    → gateway_attr family o ≡ gw
unfolding gateway_attr
gateway_attr-HasGateway family none gw h = sym h
gateway_attr-HasGateway family (some b) gw (same_gw, inl (v4, size)) =
    ground (arith, same_gw, v4, size, take_all 4 b)
gateway_attr-HasGateway family (some b) gw (same_gw, inr (v6, size)) =
    ground (arith, same_gw, v6, size, take_all 16 b)

oif_attr-HasOif : (e : Endian) (o : Option Bytes) (oif : ℕ) → HasOif e o oif → oif_attr e o ≡ oif
unfolding oif_attr
oif_attr-HasOif e none oif h = sym h
oif_attr-HasOif e (some b) oif (small, word) =
    rw (word, length-put32 e oif) (get32-put32 e oif small)

-- A payload is read as the route that it reports.
pub route_entry-Reports :
    (e : Endian) (k : KernelRoute) (r : RouteEntry)
    → Reports e k r
    → route_entry e (kernel_payload e k) ≡ some r
unfolding route_entry
route_entry-Reports e k r h =
    let behind = drop-append 10 k.others (encode e k.attrs) h.whole in
    let long = length-append k.others (encode e k.attrs) in
    let gateway =
      ap (gateway_attr k.family) (lookup_attr rta_gateway k.attrs)
      ∙ gateway_attr-HasGateway k.family _ r.gw h.gateway in
    let oif = ap (oif_attr e) (lookup_attr rta_oif k.attrs) ∙ oif_attr-HasOif e _ r.oif h.oif in
    let attrs = parse_rt_attrs-encode e k.attrs h.fine in
    let enough : ltb (length (kernel_payload e k)) 12 ≡ false = ground (arith, long, h.whole) in
    rw (enough, behind, attrs, gateway, oif) (cc (h.family, h.dst_len))
