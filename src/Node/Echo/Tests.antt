-- ===== src/Node/Echo/Tests.antt =====
-- Runs of the echo, and the theorems at concrete inputs.
use hopscotch.Common.{◌≡◌, refl, false, none, some, [], ◌∷◌, ◌==◌, ℕ_discrete, if◌then◌else◌}
use hopscotch.Common.Bytes.{Bytes, same, codes}
use hopscotch.Common.Int.{pos, ◌+ℤ◌}
use hopscotch.Common.Maps.{lookup, insert, delete}
use hopscotch.Identity.Names
use hopscotch.Session.{session_by_name, has_name}
use hopscotch.Node.{Message, Effect}
use hopscotch.Node.Tests.{a, to_b, node_a}
use hopscotch.Node.Echo.{
  Link, write, flood, dispatch_echo, echo_key, finish_echo, complete_echo, handle_echo,
  forward_echo, hop_name,
}
use hopscotch.Node.Echo.Waiting.{Settled, handle_echo-Settled, waits_for}
use hopscotch.Node.Echo.Caller.{begin_echo, called, waiting}
use hopscotch.Identity.Hex.{id_hex, encode_hex}
use hopscotch.Node.Echo.Reply.{complete_echo-handle_echo}

-- What a run computes with.
runs : Unit {0}
unfolding flood dispatch_echo echo_key finish_echo complete_echo handle_echo forward_echo hop_name
    lookup insert delete session_by_name same ℕ_discrete Names.parse_name Names.to_lower
    Names.trim_space ◌+ℤ◌
runs = tt

-- Every write works.
abbrev sound : Link
sound s = none

-- The session of `c` is broken.
abbrev broken : Link
broken s = if s.handle == 2 then some (codes "closed") else none

abbrev echo_for : Bytes → Message
echo_for name = record {
  kind = codes "echo";
  rpc = 41;
  name = name;
  origin = codes "0b";
  path = codes "b" ∷ [];
  ttl = pos 5;
  failure = [];
  ula = [];
  routes = [];
}

key_text : echo_key (codes "0b") 41 ≡ codes "0b-41"
unfolding runs
key_text = refl

unknown : session_by_name node_a.sessions (codes "zed") ≡ none
unfolding runs
unknown = refl

-- The flood reaches `b` alone.
flooded :
    (dispatch_echo broken node_a none (echo_for (codes "zed"))).0
    ≡ Effect.send to_b (echo_for (codes "zed")) ∷ []
unfolding runs
flooded = refl

parsed : Names.parse_name (codes "C") ≡ Names.ok (codes "c")
unfolding runs
parsed = refl

other_name : has_name node_a.names (codes "c") ≡ false
unfolding runs
other_name = refl

passed_on :
    lookup same
      (echo_key (codes "0b") 41)
      (handle_echo sound node_a to_b (echo_for (codes "C"))).0.echo_wait
    ≡ some (waits_for to_b)
unfolding runs
passed_on = refl

first_seen : lookup same (echo_key (codes "0b") 41) node_a.echo_wait ≡ none
unfolding lookup
first_seen = refl

handle_echo-Settled_example :
    Settled broken node_a to_b
      (echo_for (codes "C"))
      (codes "c")
      (handle_echo broken node_a to_b (echo_for (codes "C")))
handle_echo-Settled_example =
    handle_echo-Settled broken node_a to_b (echo_for (codes "C")) (codes "c") parsed other_name
      first_seen

abbrev reply : Message
reply = record (echo_for (codes "c")) {
  kind = codes "echo_ok";
  path = codes "b" ∷ codes "a" ∷ codes "c" ∷ [];
}

complete_echo-handle_echo_example :
    ((complete_echo sound (handle_echo sound node_a to_b (echo_for (codes "C"))).0 reply).1
      ≡ (write sound to_b reply).0)
    × ((complete_echo sound
          (complete_echo sound (handle_echo sound node_a to_b (echo_for (codes "C"))).0 reply).0
          reply).1
        ≡ [])
complete_echo-handle_echo_example =
    complete_echo-handle_echo sound node_a to_b (echo_for (codes "C")) reply (codes "c")
      (waits_for to_b) parsed other_name first_seen passed_on refl refl

-- `a` asks for `c` itself.
asked : (begin_echo sound node_a (codes "c")).1 ≡ waiting (echo_key (id_hex a) 1)
unfolding runs begin_echo called id_hex encode_hex
asked = refl
