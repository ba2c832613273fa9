-- ===== src/Node/Peering/Newest.antt =====
-- internal/node/node.go, establish and readLoop: the newest session of a peer is the one in the table.
use hopscotch.Common.{
  sym, ◌≡◌, refl, ap, false, some, [], ◌∷◌, ite, arith, inl, inr, ◌==◌, Option-cases, ◌∙◌,
}
use hopscotch.Common.Bytes.{Bytes, same}
use hopscotch.Common.Maps.{lookup, delete, lookup-insert, lookup-delete}
use hopscotch.Session.{Session, session_of}
use hopscotch.Node.{Node, Effect}
use hopscotch.Node.Routing.{on_session_up, on_session_down}
use hopscotch.Node.Peering.{register, start_session, unregister, end_session}

session_of-register :
    (n : Node) (s : Session) (id : Bytes)
    → session_of (register n s).0.sessions id
      ≡ ite (same s.id id) (some s) (session_of n.sessions id)
unfolding session_of register lookup same
session_of-register n s id = elim (Option-cases (lookup same s.id n.sessions)) [
  | inl e ↦ rw (register, session_of, e) (lookup-insert same s.id id s n.sessions)
  | inr (old, e) ↦
      rw (register, session_of, e)
        (ground (
          arith,
          lookup-insert same s.id id s (delete same s.id n.sessions),
          lookup-delete same s.id id n.sessions,
        ))
]

sessions-on_session_up : (n : Node) (s : Session) → (on_session_up n s).0.sessions ≡ n.sessions
unfolding on_session_up
sessions-on_session_up n s = refl

pub session_of-start_session :
    (n : Node) (s : Session) (id : Bytes)
    → session_of (start_session n s).0.sessions id
      ≡ ite (same s.id id) (some s) (session_of n.sessions id)
unfolding start_session
session_of-start_session n s id =
    ap (λ m. session_of m id) (sessions-on_session_up (register n s).0 s)
    ∙ session_of-register n s id

pub newest_session :
    (n : Node) (s : Session) (id : Bytes)
    → s.id ≡ id
    → session_of (start_session n s).0.sessions id ≡ some s
newest_session n s id e =
    let found : ite (same s.id id) (some s) (session_of n.sessions id) ≡ some s =
      elim (same s.id id) as (λ d. ite d (some s) (session_of n.sessions id) ≡ some s) [
        | yes p ↦ refl
        | no p ↦ absurd (p e)
      ] in
    session_of-start_session n s id ∙ found

unregister_replaced :
    (n : Node) (old s : Session)
    → session_of n.sessions old.id ≡ some s
    → (s.handle == old.handle) ≡ false
    → unregister n old ≡ n
unfolding unregister
unregister_replaced n old s newest fresh = rw (newest, fresh) refl

on_session_down_replaced :
    (n : Node) (old s : Session)
    → session_of n.sessions old.id ≡ some s
    → (s.handle == old.handle) ≡ false
    → on_session_down n old ≡ (n, [])
unfolding on_session_down
on_session_down_replaced n old s newest fresh = rw (newest, on_session_down, fresh) refl

-- When the loop of a replaced session ends, after the newer session of the same peer is in the table,
-- the node stays as it is: the session and the routes over the peer are kept, nothing is announced,
-- and all that is done is to close the old connection.
pub end_session-start_session :
    (n : Node) (old s : Session)
    → old.id ≡ s.id
    → (s.handle == old.handle) ≡ false
    → end_session (start_session n s).0 old ≡ ((start_session n s).0, Effect.close_session old ∷ [])
unfolding end_session
end_session-start_session n old s id fresh =
    let n' = (start_session n s).0 in
    let newest : session_of n'.sessions old.id ≡ some s = newest_session n s old.id (sym id) in
    rw (unregister_replaced n' old s newest fresh, on_session_down_replaced n' old s newest fresh)
      refl
