-- ===== src/Config/Tests.antt =====
-- A configuration that is loaded, one that is not, and the theorem at a concrete input.
use hopscotch.Common.{
  ◌≡◌, refl, ◌↔◌, Bool, true, false, none, some, [], ◌∷◌, ◌++◌, ◌==◌, ℕ_discrete,
}
use hopscotch.Common.Bytes.{Bytes, same, codes}
use hopscotch.Identity.Names
use hopscotch.Endpoint
use hopscotch.Peers.{Result}
use hopscotch.Config.{
  RawFile, File, ConfigError, parse_key, parse_peer, parse_peers, resolve, file_of, load_peers,
  load,
}
use hopscotch.Config.Checked.{Accepted, load_lem}

abbrev is_abs : Bytes → Bool
is_abs [] = false
is_abs (c ∷ s) = c == b'/'

abbrev in_etc : Bytes → Bytes
in_etc p = codes "/etc/hopscotch/" ++ p

abbrev raw : RawFile
raw = record {
  identity = codes "id.pem";
  ca = codes "/var/ca.pem";
  cert = codes "id.crt";
  control = [];
  listen = [];
  peers = record { addr = codes "10.0.0.7:4433"; pubkey = [] } ∷ [];
  tun = true;
  userspace = false;
  socks = [];
  gateway = none;
  exit = false;
  exit_node = [];
}

runs : Unit {0}
unfolding load load_peers file_of resolve parse_peers parse_peer parse_key Endpoint.parse
    Endpoint.to_string Endpoint.split_host_port Names.trim_space Names.to_lower same ℕ_discrete
runs = tt

abbrev loaded : File
loaded = file_of is_abs in_etc raw (record { addr = codes "udp:10.0.0.7:4433"; key = [] } ∷ [])

raw_is_loaded : load is_abs in_etc (some raw) ≡ Result.ok loaded
unfolding runs
raw_is_loaded = refl

ca_is_kept : loaded.ca ≡ codes "/var/ca.pem"
unfolding runs
ca_is_kept = refl

load_lem_example :
    (load is_abs in_etc (some raw) ≡ Result.ok loaded) ↔ Accepted is_abs in_etc raw loaded
load_lem_example = load_lem is_abs in_etc raw loaded

-- Without a CA.
ca_is_required :
    load is_abs in_etc (some (record raw { ca = [] })) ≡ Result.err ConfigError.not_required
unfolding runs
ca_is_required = refl
