-- ===== src/Node/Echo.antt =====
-- internal/node/echo.go: the named echo, which floods the peers and is answered along its way.
-- A write on a session may fail: `link s` is the error text of a write on `s`, `none` if it works.
pub mod Passed
pub mod Waiting
pub mod Reply
pub mod Caller
mod Tests
use hopscotch.Common.{
  ℕ, zero, suc, ◌+◌, ◌*◌, ◌/◌, ◌%◌, Bool, true, false, not, ◌&&◌, ◌||◌, Option, none, some, List,
  [], ◌∷◌, ◌++◌, ite, ltb, ◌==◌, if◌then◌else◌, length,
}
use hopscotch.Common.Bytes.{Bytes, same, codes}
use hopscotch.Common.Int.{ℤ, pos, negsuc, ◌+ℤ◌, ltb_ℤ}
use hopscotch.Common.Maps.{lookup, insert, delete}
use hopscotch.Ip.{ip_string}
use hopscotch.Identity.Address.{ula}
use hopscotch.Identity.Hex.{id_hex, id_short}
use hopscotch.Identity.Names
use hopscotch.Session.{Session, is_session, session_list, session_by_name, has_name}
use hopscotch.Node.{Node, Message, EchoWait, Effect}

abbrev pub Link : Type 0
Link = Session → Option Bytes

-- strconv.FormatUint(v, 10). A number below 2 ^ 64 has at most 20 digits.
abbrev decimal : ℕ → ℕ → Bytes
decimal zero v = []
decimal (suc fuel) v =
    let front = decimal fuel (v / 10) in
    if ltb v 10 then (48 + v) ∷ [] else front ++ ((48 + v % 10) ∷ [])

unfoldable pub echo_key : Bytes → ℕ → Bytes
echo_key origin rpc = origin ++ (codes "-" ++ decimal 20 rpc)

unfoldable pub hop_name : Node → Bytes
hop_name n = elim n.names [ [] ↦ id_short n.id | name ∷ _ ↦ name ]

-- n.write(s, msg), with its error.
abbrev pub write : Link → Session → Message → List Effect × Option Bytes
write link s msg = elim (link s) [ none ↦ (Effect.send s msg ∷ [], none) | some e ↦ ([], some e) ]

-- The loop over the sessions: what is sent, how many writes worked, and the last error.
unfoldable pub flood :
    Link
    → Option Session
    → Message
    → List Session
    → ℕ
    → Option Bytes
    → List Effect × (ℕ × Option Bytes)
flood link from msg [] sent last = ([], (sent, last))
flood link from msg (s ∷ ss) sent last =
    let failed = flood link from msg ss sent (link s) in
    let went = flood link from msg ss (suc sent) last in
    let skipped = flood link from msg ss sent last in
    if is_session from s
    then skipped
    else elim (link s) [ none ↦ (Effect.send s msg ∷ went.0, went.1) | some e ↦ failed ]

-- The error is the text of a failed write, or "no route to …".
abbrev flood_result : Message → List Effect × (ℕ × Option Bytes) → List Effect × Option Bytes
flood_result msg (effects, (zero, some e)) = (effects, some e)
flood_result msg (effects, (zero, none)) = (effects, some (codes "no route to " ++ msg.name))
flood_result msg (effects, (suc sent, last)) = (effects, none)

unfoldable pub dispatch_echo : Link → Node → Option Session → Message → List Effect × Option Bytes
dispatch_echo link n from msg =
    let flooded = flood_result msg (flood link from msg (session_list n.sessions) 0 none) in
    elim (session_by_name n.sessions msg.name) [
      | none ↦ flooded
      | some dest ↦ if is_session from dest then flooded else write link dest msg
    ]

unfoldable pub finish_echo : Link → Node → Bytes → Message → Node × List Effect
finish_echo link n key msg = elim (lookup same key n.echo_wait) [
  | none ↦ (n, [])
  | some w ↦ (
    record n { echo_wait = delete same key n.echo_wait },
    elim w.back [
      | some s ↦ (write link s msg).0
      | none ↦ if w.waiting then Effect.hand_over key msg ∷ [] else []
    ],
  )
]

unfoldable pub complete_echo : Link → Node → Message → Node × List Effect
complete_echo link n msg = finish_echo link n (echo_key msg.origin msg.rpc) msg

unfoldable pub clear_echo : Node → Bytes → Node
clear_echo n key = record n { echo_wait = delete same key n.echo_wait }

-- The echo_ok of the named node, and an echo_err.
abbrev pub echo_ok : Node → Message → Bytes → Message
echo_ok n msg name = record {
  kind = codes "echo_ok";
  rpc = msg.rpc;
  name = name;
  origin = msg.origin;
  path = msg.path ++ (hop_name n ∷ []);
  ttl = pos 0;
  failure = [];
  ula = ip_string (ula n.id);
  routes = [];
}

abbrev pub echo_err : Message → Bytes → Bytes → Message
echo_err msg name failure = record {
  kind = codes "echo_err";
  rpc = msg.rpc;
  name = name;
  origin = msg.origin;
  path = [];
  ttl = pos 0;
  failure = failure;
  ula = [];
  routes = [];
}

-- The echo as it is passed on.
abbrev pub next_echo : Node → Message → Bytes → Message
next_echo n msg name = record msg {
  name = name;
  ttl = msg.ttl +ℤ negsuc 0;
  path = msg.path ++ (hop_name n ∷ []);
}

-- The part of handleEcho behind its lookups, once the echo is registered.
unfoldable pub forward_echo : Link → Node → Session → Message → Bytes → Node × List Effect
forward_echo link n from msg name =
    let key = echo_key msg.origin msg.rpc in
    let next = next_echo n msg name in
    let dispatched = dispatch_echo link n (some from) next in
    if ltb_ℤ next.ttl (pos 0)
    then finish_echo link n key (echo_err msg name (codes "ttl exceeded"))
    else elim dispatched.1 [
      | none ↦ (n, dispatched.0)
      | some e ↦
          let finished = finish_echo link n key (echo_err msg name e) in
          (finished.0, dispatched.0 ++ finished.1)
    ]

unfoldable pub handle_echo : Link → Node → Session → Message → Node × List Effect
handle_echo link n from msg = elim (Names.parse_name msg.name) [
  | Names.err _ ↦ (n, [])
  | Names.ok name ↦
      let key = echo_key msg.origin msg.rpc in
      let registered = record n {
        echo_wait = insert same key (record { back = some from; waiting = false }) n.echo_wait;
      } in
      if has_name n.names name
      then (n, (write link from (echo_ok n msg name)).0)
      else elim (lookup same key n.echo_wait) [
        | some _ ↦ (n, [])
        | none ↦ forward_echo link registered from msg name
      ]
]
