-- ===== src/Node/Echo/Reply.antt =====
-- The way back of an echo's reply.
use mathlib.Core.Path.{ap₂}
use hopscotch.Common.{◌≡◌, refl, false, none, some, [], arith, inl, inr}
use hopscotch.Common.Bytes.{Bytes, same}
use hopscotch.Common.Maps.{lookup}
use hopscotch.Identity.Names
use hopscotch.Session.{Session, has_name}
use hopscotch.Node.{Node, Message, EchoWait}
use hopscotch.Node.Echo.{Link, write, echo_key, finish_echo, complete_echo, handle_echo}
use hopscotch.Node.Echo.Waiting.{Settled, waits_for, finish_waiting, handle_echo-Settled}

finish_absent :
    (link : Link) (n : Node) (key : Bytes) (msg : Message)
    → lookup same key n.echo_wait ≡ none
    → (finish_echo link n key msg).1 ≡ []
unfolding finish_echo
finish_absent link n key msg h = rw (h, finish_echo) refl

waits_of_Settled :
    (link : Link) (n : Node) (from : Session) (msg : Message) (name : Bytes) (r : Node × _)
    (w : EchoWait)
    → Settled link n from msg name r
    → lookup same (echo_key msg.origin msg.rpc) r.0.echo_wait ≡ some w
    → lookup same (echo_key msg.origin msg.rpc) r.0.echo_wait ≡ some (waits_for from)
waits_of_Settled link n from msg name r w (inl (waits, _)) found = waits
waits_of_Settled link n from msg name r w (inr (gone, _)) found =
    absurd (ground (arith, gone, found))

-- If a node that does not bear the name and sees the echo for the first time has passed it on and
-- waits, then the first reply to it is written on the session that the echo came in on, and a
-- second reply goes nowhere.
pub complete_echo-handle_echo :
    (link : Link) (n : Node) (from : Session) (msg reply : Message) (name : Bytes) (w : EchoWait)
    → Names.parse_name msg.name ≡ Names.ok name
    → has_name n.names name ≡ false
    → lookup same (echo_key msg.origin msg.rpc) n.echo_wait ≡ none
    → lookup same (echo_key msg.origin msg.rpc) (handle_echo link n from msg).0.echo_wait ≡ some w
    → reply.origin ≡ msg.origin
    → reply.rpc ≡ msg.rpc
    → let first = complete_echo link (handle_echo link n from msg).0 reply in
      (first.1 ≡ (write link from reply).0) × ((complete_echo link first.0 reply).1 ≡ [])
unfolding complete_echo
complete_echo-handle_echo link n from msg reply name w parsed other first waits origin rpc =
    let passed = handle_echo link n from msg in
    let key = echo_key msg.origin msg.rpc in
    let settled = handle_echo-Settled link n from msg name parsed other first in
    let found = waits_of_Settled link n from msg name passed w settled waits in
    let (sent, gone) = finish_waiting link passed.0 from key reply found in
    rw (ap₂ echo_key origin rpc) (sent, finish_absent link _ key reply gone)
