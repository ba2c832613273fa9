-- ===== src/Tun/Netlink.antt =====
-- internal/tun/tun_linux.go and rtnetlink_linux.go: netlink messages and attributes as bytes. The byte
-- order of the machine is a parameter; the layout of the structures is that of the Linux headers.
pub mod Attrs
pub mod Routes
use hopscotch.Common.{
  ℕ, zero, suc, ◌+◌, ◌-◌, ◌*◌, ◌/◌, ◌%◌, Bool, true, false, ◌&&◌, ◌||◌, Option, none, some, List,
  [], ◌∷◌, ◌++◌, ltb, leb, ◌==◌, if◌then◌else◌, length, take, drop, replicate, ℕ_discrete,
}
use hopscotch.Common.Bytes.{Bytes, at, slice, put_uint16, put_uint32, uint16, uint32}
use hopscotch.Common.Maps.{Assoc, lookup, insert}
use hopscotch.Ip.{to4, to16}

-- binary.NativeEndian
pub data Endian : Type 0 where
  little big : Endian

unfoldable pub put16 : Endian → ℕ → Bytes
put16 Endian.little v = (v % 256) ∷ (v / 256 % 256) ∷ []
put16 Endian.big v = put_uint16 v

unfoldable pub put32 : Endian → ℕ → Bytes
put32 Endian.little v = (v % 256) ∷ (v / 256 % 256) ∷ (v / 65536 % 256) ∷ (v / 16777216 % 256) ∷ []
put32 Endian.big v = put_uint32 v

-- The word at an offset.
unfoldable pub get16 : Endian → Bytes → ℕ → ℕ
get16 Endian.little b i = uint16 (at b (i + 1)) (at b i)
get16 Endian.big b i = uint16 (at b i) (at b (i + 1))

unfoldable pub get32 : Endian → Bytes → ℕ → ℕ
get32 Endian.little b i = uint32 (at b (i + 3)) (at b (i + 2)) (at b (i + 1)) (at b i)
get32 Endian.big b i = uint32 (at b i) (at b (i + 1)) (at b (i + 2)) (at b (i + 3))

abbrev pub size_attr : ℕ
size_attr = 4

abbrev pub size_header : ℕ
size_header = 16

abbrev pub size_route : ℕ
size_route = 12

abbrev pub size_error : ℕ
size_error = 20

abbrev pub af_inet : ℕ
af_inet = 2

abbrev pub af_inet6 : ℕ
af_inet6 = 10

abbrev pub rta_dst : ℕ
rta_dst = 1

abbrev pub rta_oif : ℕ
rta_oif = 4

abbrev pub rta_gateway : ℕ
rta_gateway = 5

-- (l + 3) &^ 3
abbrev pub pad4 : ℕ → ℕ
pad4 l = (l + 3) / 4 * 4

unfoldable pub nla : Endian → ℕ → Bytes → Bytes
nla e typ b =
    let l = size_attr + length b in put16 e l ++ (put16 e typ ++ (b ++ replicate (pad4 l - l) 0))

unfoldable pub nla_u32 : Endian → ℕ → ℕ → Bytes
nla_u32 e typ v = nla e typ (put32 e v)

-- A map of attributes; b[:end] is copied.
unfoldable pub add_attr : Endian → Bytes → Assoc ℕ Bytes → Assoc ℕ Bytes
add_attr e b attrs =
    let l = get16 e b 0 in
    if ltb size_attr l && leb l (length b)
    then insert ℕ_discrete (get16 e b 2) (slice b size_attr l) attrs
    else attrs

-- The loop, on fuel: each round but the last takes at least four bytes off.
unfoldable pub attrs_loop : Endian → ℕ → Bytes → Assoc ℕ Bytes → Assoc ℕ Bytes
attrs_loop e zero b attrs = attrs
attrs_loop e (suc fuel) b attrs =
    let l = get16 e b 0 in
    let attrs' = add_attr e b attrs in
    let rest = attrs_loop e fuel (drop (pad4 l) b) attrs' in
    if ltb (length b) size_attr || ltb l size_attr
    then attrs
    else if ltb (length b) (pad4 l)
    then attrs'
    else rest

unfoldable pub parse_rt_attrs : Endian → Bytes → Assoc ℕ Bytes
parse_rt_attrs e b = attrs_loop e (length b) b []

-- An address that is nil is the empty list.
pub record RouteSpec : Type 0 where
  pub family : ℕ
  pub dst : Bytes
  pub ones : ℕ
  pub oif : ℕ
  pub gw : Bytes

pub record RouteEntry : Type 0 where
  pub family : ℕ
  pub dst_len : ℕ
  pub gw : Bytes
  pub oif : ℕ

abbrev pub is_nil : Bytes → Bool
is_nil [] = true
is_nil (b ∷ bs) = false

-- The form of an address for its family.
abbrev pub family_addr : ℕ → Bytes → Bytes
family_addr family ip = if family == af_inet6 then to16 ip else to4 ip

-- unix.RtMsg of the main table: boot protocol, universe scope, unicast.
abbrev pub route_header : ℕ → ℕ → Bytes
route_header family ones = family ∷ (ones % 256) ∷ 0 ∷ 0 ∷ 254 ∷ 3 ∷ 0 ∷ 1 ∷ 0 ∷ 0 ∷ 0 ∷ 0 ∷ []

-- The payload of nlRouteMsg.
unfoldable pub route_payload : Endian → RouteSpec → Bytes
route_payload e s =
    route_header s.family s.ones
    ++ (nla e rta_dst (family_addr s.family s.dst)
        ++ ((if is_nil s.gw then [] else nla e rta_gateway (family_addr s.family s.gw))
            ++ (if s.oif == 0 then [] else nla_u32 e rta_oif s.oif)))

-- The gateway and the interface among the attributes of a route.
unfoldable pub gateway_attr : ℕ → Option Bytes → Bytes
gateway_attr family none = []
gateway_attr family (some b) =
    if (family == af_inet) && leb 4 (length b)
    then take 4 b
    else if (family == af_inet6) && leb 16 (length b)
    then take 16 b
    else []

unfoldable pub oif_attr : Endian → Option Bytes → ℕ
oif_attr e none = 0
oif_attr e (some b) = if leb 4 (length b) then get32 e b 0 else 0

-- One round of nlRoutesDump: `none` is a payload that is too short.
unfoldable pub route_entry : Endian → Bytes → Option RouteEntry
route_entry e p =
    let attrs = parse_rt_attrs e (drop size_route p) in
    if ltb (length p) size_route
    then none
    else some record {
      family = at p 0;
      dst_len = at p 1;
      gw = gateway_attr (at p 0) (lookup ℕ_discrete rta_gateway attrs);
      oif = oif_attr e (lookup ℕ_discrete rta_oif attrs);
    }

-- The loop of nlRoutesDump over the payloads of the replies.
unfoldable pub route_entries : Endian → List Bytes → List RouteEntry
route_entries e [] = []
route_entries e (p ∷ ps) =
    let rest = route_entries e ps in elim (route_entry e p) [ none ↦ rest | some r ↦ r ∷ rest ]
