-- ===== src/Node/Dial/Tests.antt =====
-- Runs of a dial, and the theorem at a concrete input.
use hopscotch.Common.{◌≡◌, refl, true, some, [], ◌∷◌, ℕ_discrete}
use hopscotch.Common.Bytes.{Bytes, codes, same}
use hopscotch.Common.Maps.{lookup, insert, delete}
use hopscotch.Identity.Names
use hopscotch.Endpoint.{Endpoint, to_string, split_host_port, is_self_addr}
use hopscotch.Endpoint
use hopscotch.Node.Peering.{Conn, Refusal, admit, establish}
use hopscotch.Node.Tests.{b, c, node_a}
use hopscotch.Node.Dial.{
  DialState, DialError, Begun, begin_dial, Connected, DialEnd, after_establish, end_dial, next_wait,
}
use hopscotch.Node.Dial.Pinned.{Failed, end_dial-begin_dial}

-- What a run computes with.
runs : Unit {0}
unfolding begin_dial end_dial after_establish establish admit next_wait Endpoint.parse to_string
    split_host_port is_self_addr Names.trim_space lookup insert delete same ℕ_discrete
runs = tt

abbrev digest : Bytes → Bytes
digest key = key

abbrev addr : Bytes
addr = codes "udp:10.0.0.7:4433"

abbrev pin_ip : Bytes
pin_ip = 10 ∷ 0 ∷ 0 ∷ 7 ∷ []

-- The peers file has the key of `c` for the address.
abbrev start : DialState
start = record {
  node = node_a;
  advertise = codes "udp:10.0.0.1:4433" ∷ [];
  dialing = [];
  pin_by_addr = (addr, c) ∷ [];
}

abbrev raw : Bytes
raw = codes "10.0.0.7:4433"

abbrev endpoint : Endpoint
endpoint = record { network = codes "udp"; addr = raw }

abbrev conn : Conn
conn = record {
  stream = true;
  key = some b;
  uris = [];
  remote = raw;
  wrote = true;
  first = some (codes "hello", some []);
}

abbrev mismatch : DialError
mismatch = DialError.not_established Refusal.key_mismatch

begun : (begin_dial start raw pin_ip).1 ≡ Begun.dials endpoint addr
unfolding runs
begun = refl

ended :
    (end_dial digest 9 (begin_dial start raw pin_ip).0.0 addr pin_ip (Connected.connection conn)).1
    ≡ DialEnd.down mismatch
unfolding runs
ended = refl

-- A second dial of the address waits for the first, and the own address is not dialed.
second : (begin_dial (begin_dial start raw pin_ip).0.0 addr pin_ip).1 ≡ Begun.waits addr
unfolding runs
second = refl

own : (begin_dial start (codes "10.0.0.1:4433") pin_ip).1 ≡ Begun.failed DialError.to_self
unfolding runs
own = refl

-- The wait doubles up to 16 seconds.
longest : (next_wait 1 (next_wait 1 8).1).1 ≡ 16
unfolding runs
longest = refl

end_dial-begin_dial_example :
    Failed start addr pin_ip
      (begin_dial start raw pin_ip).0
      (end_dial digest 9
        (begin_dial start raw pin_ip).0.0
        addr
        pin_ip
        (Connected.connection conn)).0
end_dial-begin_dial_example =
    end_dial-begin_dial digest 9 start raw pin_ip endpoint addr (Connected.connection conn) mismatch
      begun ended
