-- ===== src/Node/Echo/Waiting.antt =====
-- What becomes of an echo: how it is passed on, and how its reply finds the way back.
use hopscotch.Common.{
  ℕ, zero, suc, ◌+◌, ◌≡◌, ◌⊎◌, refl, ap, ◌∙◌, Bool, true, false, Option, none, some, List, [], ◌∷◌,
  ◌++◌, map, ◌==◌, if◌then◌else◌, length, arith, inl, inr, Option-cases, Bool-cases,
}
use hopscotch.Common.Bytes.{Bytes, same, codes}
use hopscotch.Common.Int.{pos, ltb_ℤ}
use hopscotch.Common.Maps.{lookup, insert, lookup-insert, lookup-delete}
use hopscotch.Identity.Names
use hopscotch.Session.{Session, is_session, session_list, session_by_name, has_name}
use hopscotch.Node.{Node, Message, EchoWait, Effect}
use hopscotch.Node.Echo.Passed.{PassedOn, dispatch_echo-PassedOn}
use hopscotch.Node.Echo.{
  Link, write, flood, dispatch_echo, echo_key, finish_echo, handle_echo, forward_echo, echo_err,
  next_echo, flood_result, hop_name,
}

-- The sessions that a flood reaches: not the one it came from, and those whose writes work.
abbrev pub reached : Link → Option Session → List Session → List Session
reached link from [] = []
reached link from (s ∷ ss) =
    let rest = reached link from ss in
    if is_session from s then rest else elim (link s) [ none ↦ s ∷ rest | some e ↦ rest ]

flood-reached :
    (link : Link) (from : Option Session) (msg : Message) (ss : List Session) (sent : ℕ)
    (last : Option Bytes)
    → ((flood link from msg ss sent last).0 ≡ map (λ s. Effect.send s msg) (reached link from ss))
      × ((flood link from msg ss sent last).1.0
          ≡ sent + length (flood link from msg ss sent last).0)
unfolding flood
flood-reached link from msg [] sent last = (refl, omega arith)
flood-reached link from msg (s ∷ ss) sent last =
    let failed = flood-reached link from msg ss sent (link s) in
    let went = flood-reached link from msg ss (suc sent) last in
    let skipped = flood-reached link from msg ss sent last in
    elim (Bool-cases (is_session from s)) [
      | inl back ↦ rw back skipped
      | inr ahead ↦ elim (Option-cases (link s)) [
        | inl fine ↦
            rw (ahead, fine) (ap (λ t. Effect.send s msg ∷ t) went.0, omega (arith, went.1))
        | inr (e, bad) ↦ rw (ahead, bad) failed
      ]
    ]

sent_of_result :
    (msg : Message) (effects : List Effect) (sent : ℕ) (last : Option Bytes)
    → (flood_result msg (effects, (sent, last))).0 ≡ effects
sent_of_result msg effects zero none = refl
sent_of_result msg effects zero (some e) = refl
sent_of_result msg effects (suc sent) last = refl

abbrev pub failed : Option Bytes → Bool
failed none = false
failed (some e) = true

-- An echo that no session of the name takes is sent, once, on each session that works, but not
-- where it came from.
pub dispatch_echo-reached :
    (link : Link) (n : Node) (from : Option Session) (msg : Message)
    → session_by_name n.sessions msg.name ≡ none
    → (dispatch_echo link n from msg).0
      ≡ map (λ s. Effect.send s msg) (reached link from (session_list n.sessions))
unfolding dispatch_echo
dispatch_echo-reached link n from msg absent =
    let x = flood link from msg (session_list n.sessions) 0 none in
    rw (absent, dispatch_echo)
      (sent_of_result msg x.0 x.1.0 x.1.1
        ∙ (flood-reached link from msg (session_list n.sessions) 0 none).0)

failed_of_result :
    (msg : Message) (effects : List Effect) (sent : ℕ) (last : Option Bytes)
    → sent ≡ length effects
    → failed (flood_result msg (effects, (sent, last))).1
      ≡ (length (flood_result msg (effects, (sent, last))).0 == 0)
failed_of_result msg effects zero none h = ground (arith, h)
failed_of_result msg effects zero (some e) h = ground (arith, h)
failed_of_result msg effects (suc sent) last h = ground (arith, h)

failed_of_write :
    (link : Link) (s : Session) (msg : Message)
    → failed (write link s msg).1 ≡ (length (write link s msg).0 == 0)
failed_of_write link s msg = ground arith

-- dispatchEcho reports an error exactly when it has sent nothing.
pub failed-dispatch_echo :
    (link : Link) (n : Node) (from : Option Session) (msg : Message)
    → failed (dispatch_echo link n from msg).1 ≡ (length (dispatch_echo link n from msg).0 == 0)
unfolding dispatch_echo
failed-dispatch_echo link n from msg =
    let x = flood link from msg (session_list n.sessions) 0 none in
    let flooded =
      failed_of_result msg x.0 x.1.0 x.1.1
        ((flood-reached link from msg (session_list n.sessions) 0 none).1 ∙ omega arith) in
    elim (Option-cases (session_by_name n.sessions msg.name)) [
      | inl absent ↦ rw (absent, dispatch_echo) flooded
      | inr (dest, found) ↦ elim (Bool-cases (is_session from dest)) [
        | inl back ↦ rw (found, back, dispatch_echo) flooded
        | inr ahead ↦ rw (found, ahead, dispatch_echo) (failed_of_write link dest msg)
      ]
    ]

abbrev pub waits_for : Session → EchoWait
waits_for from = record { back = some from; waiting = false }

abbrev registered : Node → Session → Message → Node
registered n from msg = record n {
  echo_wait = insert same (echo_key msg.origin msg.rpc) (waits_for from) n.echo_wait;
}

found_registered :
    (n : Node) (from : Session) (msg : Message)
    → lookup same (echo_key msg.origin msg.rpc) (registered n from msg).echo_wait
      ≡ some (waits_for from)
found_registered n from msg =
    let key = echo_key msg.origin msg.rpc in
    ground (arith, lookup-insert same key key (waits_for from) n.echo_wait)

-- Finishing an echo that waits for `from` sends the reply there, and forgets the echo.
pub finish_waiting :
    (link : Link) (n : Node) (from : Session) (key : Bytes) (msg : Message)
    → lookup same key n.echo_wait ≡ some (waits_for from)
    → ((finish_echo link n key msg).1 ≡ (write link from msg).0)
      × (lookup same key (finish_echo link n key msg).0.echo_wait ≡ none)
unfolding finish_echo
finish_waiting link n from key msg h =
    rw (h, finish_echo) (refl, ground (arith, lookup-delete same key key n.echo_wait))

-- An error about the echo is the last that went back to `from`, unless `from` takes no writes.
abbrev pub SentBack : Link → Session → Message → List Effect → Type 0
SentBack link from msg effects =
    (name failure : Bytes) × (before : List Effect) × ((effects
        ≡ before ++ (Effect.send from (echo_err msg name failure) ∷ []))
      ⊎ ((e : Bytes) × (link from ≡ some e)))

SentBack-write :
    (link : Link) (from : Session) (msg : Message) (name failure : Bytes)
    (before effects : List Effect)
    → effects ≡ before ++ (write link from (echo_err msg name failure)).0
    → SentBack link from msg effects
SentBack-write link from msg name failure before effects h = elim (Option-cases (link from)) [
  | inl fine ↦ (name, failure, before, inl (h ∙ rw (fine, write) refl))
  | inr broken ↦ (name, failure, before, inr broken)
]

-- An echo in flight went on and waits for the session it came from, or an error went back there and
-- it waits no longer.
abbrev pub Settled : Link → Node → Session → Message → Bytes → Node × List Effect → Type 0
Settled link n from msg name r =
    let key = echo_key msg.origin msg.rpc in
    ((lookup same key r.0.echo_wait ≡ some (waits_for from))
      × PassedOn link from (next_echo n msg name) r.1)
    ⊎ ((lookup same key r.0.echo_wait ≡ none) × SentBack link from msg r.1)

forward_echo-Settled :
    (link : Link) (n : Node) (from : Session) (msg : Message) (name : Bytes)
    → Settled link n from msg name (forward_echo link (registered n from msg) from msg name)
unfolding forward_echo hop_name
forward_echo-Settled link n from msg name =
    let n' = registered n from msg in
    let key = echo_key msg.origin msg.rpc in
    let found = found_registered n from msg in
    let next = next_echo n' msg name in
    elim (Bool-cases (ltb_ℤ next.ttl (pos 0))) [
      | inl old ↦
          let failure = codes "ttl exceeded" in
          let (sent, gone) = finish_waiting link n' from key (echo_err msg name failure) found in
          rw (old, forward_echo) (inr (gone, SentBack-write link from msg name failure [] _ sent))
      | inr young ↦ elim (Option-cases (dispatch_echo link n' (some from) next).1) [
        | inl went ↦
            rw (young, went, forward_echo)
              (inl (found, dispatch_echo-PassedOn link n' from next went))
        | inr (e, bad) ↦
            let (sent, gone) = finish_waiting link n' from key (echo_err msg name e) found in
            let before = (dispatch_echo link n' (some from) next).0 in
            rw (young, bad, forward_echo)
              (inr
                (gone, SentBack-write link from msg name e before _ (ap (λ t. before ++ t) sent)))
      ]
    ]

-- No echo is lost: a node that parses the name, does not bear it, and is not waiting for this echo
-- already, then waits for the reply and has passed the echo on, its name parsed, its hop limit one
-- less and its own name added to the path, over a session that takes the write and is not the one it
-- came in on; or it waits no longer and the last that it sent is an error over the session that the
-- echo came in on, unless that session takes no writes.
pub handle_echo-Settled :
    (link : Link) (n : Node) (from : Session) (msg : Message) (name : Bytes)
    → Names.parse_name msg.name ≡ Names.ok name
    → has_name n.names name ≡ false
    → lookup same (echo_key msg.origin msg.rpc) n.echo_wait ≡ none
    → Settled link n from msg name (handle_echo link n from msg)
unfolding handle_echo
handle_echo-Settled link n from msg name parsed other first =
    rw (parsed, other, first, handle_echo) (forward_echo-Settled link n from msg name)
