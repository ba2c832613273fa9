-- ===== src/Peers/Tests.antt =====
-- A peers file, and the theorems at concrete inputs.
use hopscotch.Common.{◌≡◌, refl, false, none, some, List, [], ◌∷◌, replicate, inl, inr, ℕ_discrete}
use hopscotch.Common.Bytes.{Bytes, codes, same, are_bytes-IsByte}
use hopscotch.Identity.Names
use hopscotch.Identity.Hex.{public_hex, encode_hex}
use hopscotch.Endpoint.{Endpoint, to_string, split_host_port}
use hopscotch.Endpoint
use hopscotch.Peers.{
  Peer, FieldsError, PeersError, Result, before_hash, fields_from, fields, parse_endpoint,
  parse_fields, parse_lines, parse,
}
use hopscotch.Peers.Print.{IsPlain, IsPeer, Entry, texts, parse-texts}

runs : Unit {0}
unfolding before_hash fields_from fields parse_endpoint parse_fields parse_lines parse
    Endpoint.parse to_string split_host_port Names.trim_space encode_hex public_hex same ℕ_discrete
runs = tt

abbrev addr : Bytes
addr = codes "udp:10.0.0.7:4433"

abbrev endpoint : Endpoint
endpoint = record { network = codes "udp"; addr = codes "10.0.0.7:4433" }

abbrev key : Bytes
key = replicate 32 7

abbrev hop : Peer
hop = record { addr = addr; key = [] }

abbrev pinned : Peer
pinned = record { addr = addr; key = key }

parsed : Endpoint.parse addr (codes "udp") ≡ some endpoint
unfolding runs
parsed = refl

canonical : to_string endpoint ≡ addr
unfolding runs
canonical = refl

plain : IsPlain addr
plain = (
  refl,
  (
    refl,
    (
      refl,
      (
        refl,
        (
          refl,
          (
            refl,
            (
              refl,
              (refl, (refl, (refl, (refl, (refl, (refl, (refl, (refl, (refl, (refl, tt)))))))))),
            ),
          ),
        ),
      ),
    ),
  ),
)

hop-IsPeer : IsPeer hop
hop-IsPeer = record {
  key = inl refl;
  plain = plain;
  first = _;
  others = _;
  nonempty = refl;
  endpoint = endpoint;
  parsed = parsed;
  canonical = canonical;
}

pinned-IsPeer : IsPeer pinned
pinned-IsPeer = record {
  key = inr (refl, are_bytes-IsByte key refl);
  plain = plain;
  first = _;
  others = _;
  nonempty = refl;
  endpoint = endpoint;
  parsed = parsed;
  canonical = canonical;
}

abbrev entries : List Entry
entries =
    Entry.remark (some (codes " hops"))
    ∷ Entry.peer hop none
    ∷ Entry.remark none
    ∷ Entry.peer pinned (some (codes " pinned"))
    ∷ []

parse-texts_example : parse false (texts entries) ≡ Result.ok (hop ∷ pinned ∷ [])
parse-texts_example = parse-texts entries (hop-IsPeer, (pinned-IsPeer, tt))

-- An address without a network is a UDP address; the second line has too many fields.
bare : parse false (codes "10.0.0.7:4433" ∷ []) ≡ Result.ok (hop ∷ [])
unfolding runs
bare = refl

third_field :
    parse false (codes "10.0.0.7:4433" ∷ codes "a b c" ∷ [])
    ≡ Result.err (PeersError.at_line 2 FieldsError.bad_count)
unfolding runs
third_field = refl
