-- ===== src/Node/Echo/Passed.antt =====
-- Where dispatchEcho reports no error, the echo is on its way.
use hopscotch.Common.{
  ℕ, zero, suc, ◌≡◌, ◌⊎◌, refl, false, Option, none, some, List, [], ◌∷◌, ◌++◌, arith, inl, inr,
  Option-cases, Bool-cases,
}
use hopscotch.Common.Bytes.{Bytes}
use hopscotch.Session.{Session, is_session, session_list, session_by_name}
use hopscotch.Node.{Node, Message, Effect}
use hopscotch.Node.Echo.{Link, write, flood, dispatch_echo, flood_result}

-- A message went out over a session that takes writes, and not where it came from.
pub record PassedOn (link : Link) (from : Session) (msg : Message) (effects : List Effect)
    : Type 0 where
  pub over : Session
  pub before : List Effect
  pub after : List Effect
  pub works : link over ≡ none
  pub onward : is_session (some from) over ≡ false
  pub sent : effects ≡ before ++ Effect.send over msg ∷ after

flood-PassedOn :
    (link : Link) (from : Session) (msg : Message) (ss : List Session) (sent : ℕ)
    (last : Option Bytes)
    → PassedOn link from msg (flood link (some from) msg ss sent last).0
      ⊎ ((flood link (some from) msg ss sent last).1.0 ≡ sent)
unfolding flood
flood-PassedOn link from msg [] sent last = inr refl
flood-PassedOn link from msg (s ∷ ss) sent last = elim (Bool-cases (is_session (some from) s)) [
  | inl back ↦ rw back (flood-PassedOn link from msg ss sent last)
  | inr ahead ↦ elim (Option-cases (link s)) [
    | inl fine ↦
        rw (ahead, fine)
          (inl record {
            over = s;
            before = [];
            after = (flood link (some from) msg ss (suc sent) last).0;
            works = fine;
            onward = ahead;
            sent = refl;
          })
    | inr (e, bad) ↦ rw (ahead, bad) (flood-PassedOn link from msg ss sent (link s))
  ]
]

PassedOn-flood_result :
    (link : Link) (from : Session) (msg : Message) (x : List Effect × (ℕ × Option Bytes))
    → PassedOn link from msg x.0 ⊎ (x.1.0 ≡ 0)
    → (flood_result msg x).1 ≡ none
    → PassedOn link from msg (flood_result msg x).0
PassedOn-flood_result link from msg (effects, (zero, none)) h e = absurd (cc e)
PassedOn-flood_result link from msg (effects, (zero, some f)) h e = absurd (cc e)
PassedOn-flood_result link from msg (effects, (suc sent, last)) (inl went) e = went
PassedOn-flood_result link from msg (effects, (suc sent, last)) (inr nothing) e =
    absurd (omega arith)

PassedOn-write :
    (link : Link) (from dest : Session) (msg : Message)
    → is_session (some from) dest ≡ false
    → (write link dest msg).1 ≡ none
    → PassedOn link from msg (write link dest msg).0
PassedOn-write link from dest msg ahead e = elim (Option-cases (link dest)) [
  | inl fine ↦
      rw (fine, write)
        record { over = dest; before = []; after = []; works = fine; onward = ahead; sent = refl }
  | inr (f, bad) ↦ absurd (ground (arith, e, bad))
]

-- Where dispatchEcho reports no error, it has sent the message.
pub dispatch_echo-PassedOn :
    (link : Link) (n : Node) (from : Session) (msg : Message)
    → (dispatch_echo link n (some from) msg).1 ≡ none
    → PassedOn link from msg (dispatch_echo link n (some from) msg).0
unfolding dispatch_echo
dispatch_echo-PassedOn link n from msg e =
    let x = flood link (some from) msg (session_list n.sessions) 0 none in
    let flooded =
      PassedOn-flood_result link from msg x
        (flood-PassedOn link from msg (session_list n.sessions) 0 none) in
    elim (Option-cases (session_by_name n.sessions msg.name)) [
      | inl absent ↦ rw (absent, dispatch_echo) (flooded (rw (absent, dispatch_echo) at e))
      | inr (dest, found) ↦ elim (Bool-cases (is_session (some from) dest)) [
        | inl back ↦
            rw (found, back, dispatch_echo) (flooded (rw (found, back, dispatch_echo) at e))
        | inr ahead ↦
            rw (found, ahead, dispatch_echo)
              (PassedOn-write link from dest msg ahead (rw (found, ahead, dispatch_echo) at e))
      ]
    ]
