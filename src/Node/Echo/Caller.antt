-- ===== src/Node/Echo/Caller.antt =====
-- Echo of internal/node/echo.go, the caller's side: up to its wait, and from the reply on. The wait
-- ends with a reply, or with the context, when the echo is cleared without one.
use hopscotch.Common.{
  ℕ, ◌+◌, ◌%◌, ◌^◌, ◌≡◌, refl, true, Option, none, some, List, [], ◌∷◌, if◌then◌else◌, length, ite,
  arith, Bool-cases, inl, inr,
}
use hopscotch.Common.Bytes.{Bytes, same, codes}
use hopscotch.Common.Int.{pos}
use hopscotch.Common.Maps.{lookup, insert, lookup-insert}
use hopscotch.Ip.{ip_string}
use hopscotch.Identity.Address.{ula}
use hopscotch.Identity.Hex.{id_hex}
use hopscotch.Identity.Names
use hopscotch.Identity.Names.Laws.{Parsed-cases}
use hopscotch.Session.{has_name}
use hopscotch.Node.{Node, Message, Effect}
use hopscotch.Node.Echo.{Link, echo_key, hop_name, dispatch_echo, finish_echo, clear_echo}

-- What Echo has come to when it waits or returns.
pub data EchoStart : Type 0 where
  bad_name : Names.NameError → EchoStart
  -- the node itself: its address and the path
  here : Bytes → List Bytes → EchoStart
  refused : Bytes → EchoStart
  waiting : Bytes → EchoStart

pub data EchoEnd : Type 0 where
  not_reached : Bytes → EchoEnd
  -- the address, the path and the hops
  at_node : Bytes → List Bytes → ℕ → EchoEnd

abbrev pub echo_request : Node → ℕ → Bytes → Message
echo_request n rpc name = record {
  kind = codes "echo";
  rpc = rpc;
  name = name;
  origin = id_hex n.id;
  path = [];
  ttl = pos 128;
  failure = [];
  ula = [];
  routes = [];
}

-- The state in which the echo is dispatched.
abbrev pub registered_call : Node → ℕ → Node
registered_call n rpc = record n {
  rpc_seq = rpc;
  echo_wait =
      insert same (echo_key (id_hex n.id) rpc) (record { back = none; waiting = true }) n.echo_wait;
}

-- The key, the effects and an error of the dispatch.
unfoldable pub called : Node → Bytes → List Effect → Option Bytes → (Node × List Effect) × EchoStart
called n key effects none = ((n, effects), waiting key)
called n key effects (some e) = ((clear_echo n key, effects), refused e)

unfoldable pub begin_echo : Link → Node → Bytes → (Node × List Effect) × EchoStart
begin_echo link n raw = elim (Names.parse_name raw) [
  | Names.err e ↦ ((n, []), bad_name e)
  | Names.ok name ↦
      let rpc = (n.rpc_seq + 1) % 2 ^ 64 in
      let n' = registered_call n rpc in
      let d = dispatch_echo link n' none (echo_request n rpc name) in
      if has_name n.names name
      then ((n, []), here (ip_string (ula n.id)) (hop_name n ∷ []))
      else called n' (echo_key (id_hex n.id) rpc) d.0 d.1
]

unfoldable pub end_echo : Node → Bytes → Message → Node × EchoEnd
end_echo n key reply = (
  clear_echo n key,
  ite (same reply.kind (codes "echo_err"))
      (not_reached (ite (same reply.failure []) (codes "no route") reply.failure))
      (ite (same reply.failure []) (at_node reply.ula reply.path (length reply.path))
        (not_reached reply.failure)),
)

waiting_key :
    (n : Node) (key k : Bytes) (effects : List Effect) (e : Option Bytes) (reply : Message)
    (link : Link)
    → lookup same key n.echo_wait ≡ some (record { back = none; waiting = true })
    → (called n key effects e).1 ≡ waiting k
    → (finish_echo link (called n key effects e).0.0 k reply).1 ≡ Effect.hand_over k reply ∷ []
unfolding called finish_echo
waiting_key n key k effects none reply link found h =
    let e : k ≡ key = cc h in rw e (rw (found, finish_echo) refl)
waiting_key n key k effects (some e) reply link found h = absurd (ground (arith, h))

found_call :
    (n : Node) (rpc : ℕ)
    → lookup same (echo_key (id_hex n.id) rpc) (registered_call n rpc).echo_wait
      ≡ some (record { back = none; waiting = true })
found_call n rpc =
    let key = echo_key (id_hex n.id) rpc in
    ground (arith, lookup-insert same key key (record { back = none; waiting = true }) n.echo_wait)

-- If Echo waits, then the reply to its key is handed to it, and nothing else is done.
pub finish_echo-begin_echo :
    (link : Link) (n : Node) (raw k : Bytes) (reply : Message)
    → (begin_echo link n raw).1 ≡ waiting k
    → (finish_echo link (begin_echo link n raw).0.0 k reply).1 ≡ Effect.hand_over k reply ∷ []
unfolding begin_echo
finish_echo-begin_echo link n raw k reply h = elim (Parsed-cases (Names.parse_name raw)) [
  | inl (e, bad) ↦ absurd (ground (arith, rw (bad, begin_echo) at h))
  | inr (name, good) ↦
      let rpc = (n.rpc_seq + 1) % 2 ^ 64 in
      let n' = registered_call n rpc in
      let d = dispatch_echo link n' none (echo_request n rpc name) in
      elim (Bool-cases (has_name n.names name)) [
        | inl own ↦ absurd (ground (arith, rw (good, own, begin_echo) at h))
        | inr other ↦
            rw (good, other, begin_echo)
              (waiting_key n' (echo_key (id_hex n.id) rpc) k d.0 d.1 reply link (found_call n rpc)
                (rw (good, other, begin_echo) at h))
      ]
]
