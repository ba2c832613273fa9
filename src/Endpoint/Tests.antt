-- ===== src/Endpoint/Tests.antt =====
-- Runs of the endpoints, and the theorems at concrete inputs.
use hopscotch.Common.{◌≡◌, refl, true, none, some, List, [], ◌∷◌, ℕ_discrete}
use hopscotch.Common.Bytes.{Bytes, codes, same}
use hopscotch.Identity.Names
use hopscotch.Endpoint.{
  parse, to_string, split_host_port, host, canonical_addrs, is_self_addr, peer_addrs,
}

-- What a run computes with.
runs : Unit {0}
unfolding parse to_string split_host_port host canonical_addrs is_self_addr peer_addrs
    Names.trim_space same ℕ_discrete
runs = tt

tcp :
    parse (codes " tcp:[::1]:80") []
    ≡ some (record { network = codes "tcp"; addr = codes "[::1]:80" })
unfolding runs
tcp = refl

no_port : parse (codes "udp:host") [] ≡ none
unfolding runs
no_port = refl

no_brackets : parse (codes "::1:80") (codes "udp") ≡ none
unfolding runs
no_brackets = refl

host_of : host (codes "[::1]:80") ≡ codes "::1"
unfolding runs
host_of = refl

once :
    canonical_addrs (codes "a:1" ∷ codes "udp:a:1" ∷ codes "tcp:a:1" ∷ [])
    ≡ codes "udp:a:1" ∷ codes "tcp:a:1" ∷ []
unfolding runs
once = refl

abbrev own : List Bytes
own = codes "udp:a:1" ∷ []

abbrev peers : List Bytes
peers = codes "a:1" ∷ codes "b:1" ∷ []

named_b : Names.seen (codes "b:1") (peer_addrs own peers) ≡ true
unfolding runs
named_b = refl
