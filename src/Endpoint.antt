-- ===== src/Endpoint.antt =====
-- internal/endpoint/endpoint.go, and the address lists of internal/node/node.go. Texts are ASCII.
pub mod Lists
mod Tests
use hopscotch.Common.{
  ℕ, ◌+◌, Bool, true, false, not, ◌&&◌, ◌||◌, Option, none, some, List, [], ◌∷◌, ◌++◌, ite, ◌==◌,
  if◌then◌else◌, length, take, drop,
}
use hopscotch.Common.Bytes.{Bytes, same, at, codes}
use hopscotch.Identity.Names

pub record Endpoint : Type 0 where
  pub network : Bytes
  pub addr : Bytes

unfoldable pub to_string : Endpoint → Bytes
to_string e = e.network ++ (b':' ∷ e.addr)

-- What stands before and behind the last `:`.
last_colon : Bytes → Option (Bytes × Bytes)
last_colon [] = none
last_colon (c ∷ s) = elim (last_colon s) [
  | some (before, port) ↦ some (c ∷ before, port)
  | none ↦ if c == b':' then some ([], s) else none
]

-- What stands before the first `]`.
until_bracket : Bytes → Option Bytes
until_bracket [] = none
until_bracket (c ∷ s) =
    let rest = until_bracket s in
    if c == b']' then some [] else elim rest [ none ↦ none | some a ↦ some (c ∷ a) ]

abbrev pub contains : ℕ → Bytes → Bool
contains x [] = false
contains x (c ∷ s) = c == x || contains x s

-- net.SplitHostPort, without the texts of its errors: [host]:port, or host:port without brackets
-- and with one colon.
unfoldable pub split_host_port : Bytes → Option (Bytes × Bytes)
unfolding last_colon until_bracket
split_host_port s = elim (last_colon s) [
  | none ↦ none
  | some (before, port) ↦
      if at s 0 == b'['
      then elim (until_bracket s) [
        | none ↦ none
        | some inner ↦
            if not (length inner + 1 == length before)
            then none
            else if contains b'[' (drop 1 s) || contains b']' (drop (length inner + 1) s)
            then none
            else some (drop 1 inner, port)
      ]
      else if contains b':' before || (contains b'[' s || contains b']' s)
      then none
      else some (before, port)
]

abbrev has_prefix : Bytes → Bytes → Bool
has_prefix p s = ite (same (take (length p) s) p) true false

-- The network and the address that the text names, before they are checked.
abbrev pub named : Bytes → Bytes → Endpoint
named s default_net =
    if has_prefix (codes "tcp:") s
    then record { network = codes "tcp"; addr = drop 4 s }
    else if has_prefix (codes "udp:") s
    then record { network = codes "udp"; addr = drop 4 s }
    else record { network = default_net; addr = s }

-- An error is `none`.
unfoldable pub parse : Bytes → Bytes → Option Endpoint
parse text default_net =
    let s = Names.trim_space text in
    let e = named s (ite (same default_net []) (codes "udp") default_net) in
    if length s == 0
    then none
    else if not (ite (same e.network (codes "tcp")) true false)
        && not (ite (same e.network (codes "udp")) true false)
    then none
    else elim (split_host_port e.addr) [ none ↦ none | some _ ↦ some e ]

unfoldable pub host : Bytes → Bytes
host addr = elim (split_host_port addr) [ none ↦ addr | some (h, _) ↦ h ]

-- One round of the loop of canonicalAddrs; `seen` and `out` hold the same texts.
abbrev pub add_addr : Bytes → List Bytes → List Bytes
add_addr s out = elim (parse s (codes "udp")) [
  | none ↦ out
  | some e ↦ let c = to_string e in if Names.seen c out then out else out ++ (c ∷ [])
]

abbrev pub add_addrs : List Bytes → List Bytes → List Bytes
add_addrs [] out = out
add_addrs (s ∷ ss) out = add_addrs ss (add_addr s out)

unfoldable pub canonical_addrs : List Bytes → List Bytes
canonical_addrs addrs = add_addrs addrs []

-- n.isSelfAddr(s), for n.advertise.
unfoldable pub is_self_addr : List Bytes → Bytes → Bool
is_self_addr advertise s = elim (parse s (codes "udp")) [
  | none ↦ false
  | some e ↦ Names.seen (to_string e) advertise
]

-- The addresses of the configured peers.
unfoldable pub peer_addrs : List Bytes → List Bytes → List Bytes
peer_addrs advertise [] = []
peer_addrs advertise (addr ∷ peers) =
    let rest = peer_addrs advertise peers in
    if length addr == 0 || is_self_addr advertise addr then rest else addr ∷ rest

unfoldable pub advertise_addr : List Bytes → Bytes
advertise_addr [] = []
advertise_addr (a ∷ rest) = a

-- The loop of AdvertiseByNetwork, with what it returns if it finds none.
advertised_for : Bytes → List Bytes → Bytes → Bytes
advertised_for network [] primary = primary
advertised_for network (a ∷ rest) primary =
    let later = advertised_for network rest primary in
    elim (parse a []) [ none ↦ later | some e ↦ ite (same e.network network) a later ]

unfoldable pub advertise_by_network : List Bytes → Bytes → Bytes
unfolding advertised_for
advertise_by_network advertise network = advertised_for network advertise (advertise_addr advertise)
