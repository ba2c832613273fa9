-- ===== src/Tun/Tests.antt =====
-- A host as a table, messages and routes at work, and the theorems at concrete inputs.
use hopscotch.Common.{
  ℕ, ◌≡◌, refl, ◌<◌, length, ◌&&◌, inl, inr, Bool, false, Option, none, some, List, [], ◌∷◌,
  ℕ_discrete, if◌then◌else◌, ◌==◌, All, arith,
}
use hopscotch.Common.Bytes.{Bytes, same, codes}
use hopscotch.Common.Maps.{Assoc, lookup, insert, delete}
use hopscotch.Ip.{to4, to16, ip_equal}
use hopscotch.Tun.Netlink.{nla, put16, put32, little, RouteSpec, RouteEntry, af_inet, af_inet6}
use hopscotch.Tun.Netlink.Attrs.{IsAttr}
use hopscotch.Tun.Netlink.Routes.{KernelRoute, kernel_payload, Reports}
use hopscotch.Tun.Request.{Receipt, RequestError, nl_routes_dump}
use hopscotch.Tun.Request.Dump.{IsNote, Goes, Note, receipts, nl_routes_dump_lem}
use hopscotch.Tun.Gateway.{
  gateway_among, Chosen, first_gateway, is_default, by_tunnel, skip_tunnel_dev,
}
use hopscotch.Tun.Gateway.Choice.{gateway_among-Chosen}
use hopscotch.Tun.Routes.{
  Host, TunError, PinRoute, pin_spec, splits, install_default_routes, revert_installed,
  revert_routes, install_routes, install_splits, pin_specs, safe_if_name, is_loopback_ip,
}

abbrev prefix_bytes : RouteSpec → Bytes
prefix_bytes s = s.family ∷ s.ones ∷ s.dst

abbrev Table : Type 0
Table = Assoc Bytes RouteSpec

-- A table that has a route per prefix, and refuses some.
abbrev table_host : (RouteSpec → Bool) → Host Table
table_host refused = record {
  replace = λ k s.
      if refused s
      then (k, some (RequestError.errno 1))
      else (insert same (prefix_bytes s) s k, none);
  delete = λ k s. (delete same (prefix_bytes s) k, none);
  if_index = λ k name. some 7;
  gateway = λ k inet6. if inet6 then [] else 192 ∷ 168 ∷ 0 ∷ 1 ∷ [];
}

abbrev Has : Table → RouteSpec → Type 0
Has k q = lookup same (prefix_bytes q) k ≡ some q

abbrev replaced : Bool → Table → RouteSpec → Table × Option RequestError
replaced refused k s =
    if refused then (k, some (RequestError.errno 1)) else (insert same (prefix_bytes s) s k, none)

-- A host that refuses the halves of IPv6.
abbrev refused : RouteSpec → Bool
refused s = (s.family == af_inet6) && (s.ones == 1)

abbrev only_ipv4 : Host Table
only_ipv4 = table_host refused

abbrev hopscotch0 : Bytes
hopscotch0 = codes "hopscotch0"

abbrev pins : List PinRoute
pins =
    record { dst = 203 ∷ 0 ∷ 113 ∷ 7 ∷ []; gateway = [] }
    ∷ record { dst = 127 ∷ 0 ∷ 0 ∷ 1 ∷ []; gateway = [] }
    ∷ record { dst = 198 ∷ 51 ∷ 100 ∷ 9 ∷ []; gateway = 10 ∷ 0 ∷ 0 ∷ 1 ∷ [] }
    ∷ []

runs : Unit {0}
unfolding install_default_routes install_splits install_routes revert_routes revert_installed splits
    pin_specs pin_spec safe_if_name is_loopback_ip lookup insert delete same ℕ_discrete to4 to16
    ip_equal
runs = tt

-- The second half of IPv6 is not reached, and nothing is left.
refused_ipv6 :
    install_default_routes only_ipv4 [] hopscotch0 pins
    ≡ ([], inl (TunError.request (RequestError.errno 1)))
unfolding runs
refused_ipv6 = refl

abbrev gateways : Table → List Bytes
gateways [] = []
gateways ((prefix, r) ∷ k) = r.gw ∷ gateways k

installed_six :
    gateways (install_default_routes (table_host (λ _. false)) [] hopscotch0 pins).0
    ≡ (192 ∷ 168 ∷ 0 ∷ 1 ∷ []) ∷ (10 ∷ 0 ∷ 0 ∷ 1 ∷ []) ∷ [] ∷ [] ∷ [] ∷ [] ∷ []
unfolding runs
installed_six = refl

abbrev wifi : RouteEntry
wifi = record { family = af_inet; dst_len = 0; gw = 192 ∷ 168 ∷ 0 ∷ 1 ∷ []; oif = 3 }

abbrev note : ℕ → Bytes → Note
note typ body = record { typ = typ; flags = 2; seq = 1; pid = 99; body = body }

-- The default route as a kernel reports it: RTA_TABLE, RTA_PRIORITY, RTA_GATEWAY and RTA_OIF, by DHCP.
abbrev by_dhcp : KernelRoute
by_dhcp = record {
  family = 2;
  dst_len = 0;
  others = 0 ∷ 0 ∷ 254 ∷ 16 ∷ 0 ∷ 1 ∷ 0 ∷ 0 ∷ 0 ∷ 0 ∷ [];
  attrs =
      (15, 254 ∷ 0 ∷ 0 ∷ 0 ∷ [])
      ∷ (6, 100 ∷ 0 ∷ 0 ∷ 0 ∷ [])
      ∷ (5, 192 ∷ 168 ∷ 0 ∷ 1 ∷ [])
      ∷ (4, 3 ∷ 0 ∷ 0 ∷ 0 ∷ [])
      ∷ [];
}

-- The route of a link: RTA_TABLE, RTA_DST, RTA_OIF and RTA_PREFSRC.
abbrev on_link : KernelRoute
on_link = record {
  family = 2;
  dst_len = 24;
  others = 0 ∷ 0 ∷ 254 ∷ 2 ∷ 253 ∷ 1 ∷ 0 ∷ 0 ∷ 0 ∷ 0 ∷ [];
  attrs =
      (15, 254 ∷ 0 ∷ 0 ∷ 0 ∷ [])
      ∷ (1, 192 ∷ 168 ∷ 0 ∷ 0 ∷ [])
      ∷ (4, 3 ∷ 0 ∷ 0 ∷ 0 ∷ [])
      ∷ (7, 192 ∷ 168 ∷ 0 ∷ 9 ∷ [])
      ∷ [];
}

abbrev link_entry : RouteEntry
link_entry = record { family = af_inet; dst_len = 24; gw = []; oif = 3 }

word-IsAttr : (typ a b c d : ℕ) → typ < 65536 → IsAttr (typ, a ∷ b ∷ c ∷ d ∷ [])
word-IsAttr typ a b c d h = record { typed = h; filled = omega arith; fits = omega arith }

by_dhcp_reported : Reports little by_dhcp wifi
unfolding put32
by_dhcp_reported = record {
  whole = refl;
  fine = (
    word-IsAttr 15 254 0 0 0 (omega arith),
    (
      word-IsAttr 6 100 0 0 0 (omega arith),
      (word-IsAttr 5 192 168 0 1 (omega arith), (word-IsAttr 4 3 0 0 0 (omega arith), tt)),
    ),
  );
  family = refl;
  dst_len = refl;
  gateway = (refl, inl (refl, refl));
  oif = (omega arith, refl);
}

on_link_reported : Reports little on_link link_entry
unfolding put32
on_link_reported = record {
  whole = refl;
  fine = (
    word-IsAttr 15 254 0 0 0 (omega arith),
    (
      word-IsAttr 1 192 168 0 0 (omega arith),
      (word-IsAttr 4 3 0 0 0 (omega arith), (word-IsAttr 7 192 168 0 9 (omega arith), tt)),
    ),
  );
  family = refl;
  dst_len = refl;
  gateway = refl;
  oif = (omega arith, refl);
}

abbrev chunk : List Note
chunk = note 24 (kernel_payload little by_dhcp) ∷ note 16 (1 ∷ []) ∷ []

abbrev last_chunk : List Note
last_chunk = note 24 (kernel_payload little on_link) ∷ []

abbrev socket : Bytes → List Receipt
socket q = receipts little (chunk ∷ []) last_chunk (note 3 []) []

note-IsNote : (typ : ℕ) (body : Bytes) → typ < 65536 → length body < 100 → IsNote (note typ body)
note-IsNote typ body t h = record { typed = t; fits = omega (arith, h) }

chunk-Goes : All Goes chunk
unfolding nla put16 put32
chunk-Goes = (
  (note-IsNote _ _ (omega arith) (omega arith), ((λ e. cc e), (λ e. cc e))),
  ((note-IsNote _ _ (omega arith) (omega arith), ((λ e. cc e), (λ e. cc e))), tt),
)

last_chunk-Goes : All Goes last_chunk
unfolding nla put16 put32
last_chunk-Goes = ((note-IsNote _ _ (omega arith) (omega arith), ((λ e. cc e), (λ e. cc e))), tt)

nl_routes_dump_lem_example : nl_routes_dump little 7 socket ≡ some (inr (wifi ∷ link_entry ∷ []))
nl_routes_dump_lem_example =
    nl_routes_dump_lem little 7 socket (chunk ∷ []) last_chunk (note 3 []) []
      (by_dhcp ∷ on_link ∷ []) (wifi ∷ link_entry ∷ []) refl ((chunk-Goes, omega arith), tt)
      (record {
        all_go = last_chunk-Goes;
        fits = note-IsNote 3 [] (omega arith) (omega arith);
        done = refl;
      })
      refl (by_dhcp_reported, (on_link_reported, tt))

abbrev tunnel : RouteEntry
tunnel = record { family = af_inet; dst_len = 0; gw = 10 ∷ 9 ∷ 0 ∷ 1 ∷ []; oif = 8 }

abbrev interfaces : ℕ → Option Bytes
interfaces i = if i == 8 then some (codes "utun4") else some (codes "en0")

past_the_tunnel : gateway_among interfaces false (tunnel ∷ wifi ∷ []) ≡ wifi.gw
unfolding gateway_among first_gateway is_default by_tunnel skip_tunnel_dev same ℕ_discrete to4
past_the_tunnel = refl

gateway_among-Chosen_example :
    Chosen interfaces false
      (tunnel ∷ wifi ∷ [])
      (gateway_among interfaces false (tunnel ∷ wifi ∷ []))
gateway_among-Chosen_example = gateway_among-Chosen interfaces false (tunnel ∷ wifi ∷ [])
