-- ===== src/Config.antt =====
-- internal/config/config.go: a node's configuration, from what the YAML decoder gives. The decoder and
-- the functions of path/filepath are parameters: a file is a RawFile.
pub mod Parsed
pub mod Checked
mod Tests
use hopscotch.Common.{
  ℕ, ◌+◌, Bool, true, false, ◌&&◌, ◌||◌, Option, none, some, List, [], ◌∷◌, if◌then◌else◌,
}
use hopscotch.Common.Bytes.{Bytes, codes}
use hopscotch.Identity.Hex.{parse_public_key}
use hopscotch.Endpoint.{to_string}
use hopscotch.Endpoint
use hopscotch.Peers.{Peer, Result}

pub record RawPeer : Type 0 where
  pub addr : Bytes
  pub pubkey : Bytes

-- A gateway that is not set is `none`.
pub record RawFile : Type 0 where
  pub identity : Bytes
  pub ca : Bytes
  pub cert : Bytes
  pub control : Bytes
  pub listen : List Bytes
  pub peers : List RawPeer
  pub tun : Bool
  pub userspace : Bool
  pub socks : Bytes
  pub gateway : Option Bool
  pub exit : Bool
  pub exit_node : Bytes

pub record File : Type 0 where
  pub identity : Bytes
  pub ca : Bytes
  pub cert : Bytes
  pub control : Bytes
  pub listen : List Bytes
  pub peers : List Peer
  pub tun : Bool
  pub userspace : Bool
  pub socks : Bytes
  pub gateway : Bool
  pub exit : Bool
  pub exit_node : Bytes

pub data PeerError : Type 0 where
  missing_addr bad_addr bad_pubkey : PeerError

-- `at_peer` with the index of the peer.
pub data ConfigError : Type 0 where
  not_decoded not_required no_listen_or_peers : ConfigError
  at_peer : ℕ → PeerError → ConfigError

abbrev pub is_empty {ℓ} : {A : Type ℓ} → List A → Bool
is_empty [] = true
is_empty (x ∷ xs) = false

unfoldable pub parse_key : Bytes → Bytes → Result PeerError Peer
parse_key addr [] = Result.ok record { addr = addr; key = [] }
parse_key addr (c ∷ cs) = elim (parse_public_key (c ∷ cs)) [
  | none ↦ Result.err bad_pubkey
  | some key ↦ Result.ok record { addr = addr; key = key }
]

unfoldable pub parse_peer : RawPeer → Result PeerError Peer
parse_peer rp =
    if is_empty rp.addr
    then Result.err missing_addr
    else elim (Endpoint.parse rp.addr (codes "udp")) [
      | none ↦ Result.err bad_addr
      | some ep ↦ parse_key (to_string ep) rp.pubkey
    ]

-- The loop over the peers, from an index on.
unfoldable pub parse_peers : ℕ → List RawPeer → Result ConfigError (List Peer)
parse_peers i [] = Result.ok []
parse_peers i (rp ∷ rps) =
    let later = parse_peers (i + 1) rps in
    elim (parse_peer rp) [
      | Result.err e ↦ Result.err (at_peer i e)
      | Result.ok p ↦ elim later [ Result.err e ↦ Result.err e | Result.ok ps ↦ Result.ok (p ∷ ps) ]
    ]

abbrev pub gateway_or : Option Bool → Bool
gateway_or none = true
gateway_or (some b) = b

module _ (is_abs : Bytes → Bool) (clean_join : Bytes → Bytes) where
  unfoldable pub resolve : Bytes → Bytes
  resolve p = if is_empty p || is_abs p then p else clean_join p

  unfoldable pub file_of : RawFile → List Peer → File
  file_of raw ps = record {
    identity = resolve raw.identity;
    ca = resolve raw.ca;
    cert = resolve raw.cert;
    control = resolve raw.control;
    listen = raw.listen;
    peers = ps;
    tun = raw.tun;
    userspace = raw.userspace;
    socks = raw.socks;
    gateway = gateway_or raw.gateway;
    exit = raw.exit;
    exit_node = raw.exit_node;
  }

  unfoldable pub load_peers : RawFile → Result ConfigError (List Peer) → Result ConfigError File
  load_peers raw (Result.err e) = Result.err e
  load_peers raw (Result.ok ps) =
      if is_empty raw.listen && is_empty ps
      then Result.err no_listen_or_peers
      else Result.ok (file_of raw ps)

  -- Load, from what the decoder gives.
  unfoldable pub load : Option RawFile → Result ConfigError File
  load none = Result.err not_decoded
  load (some raw) =
      if is_empty (resolve raw.identity)
        || (is_empty (resolve raw.ca) || is_empty (resolve raw.cert))
      then Result.err not_required
      else load_peers raw (parse_peers 0 raw.peers)
