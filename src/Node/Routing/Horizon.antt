-- ===== src/Node/Routing/Horizon.antt =====
-- Split horizon, and the choice of a next hop.
use hopscotch.Common.{
  ◌≡◌, ap, sym, ◌∙◌, ◌⊎◌, ◌≢◌, Bool, true, false, Option, none, some, List, [], ◌∷◌, ite, arith,
  if◌then◌else◌, Option-cases, Bool-cases, inl, inr,
}
use hopscotch.Common.Bytes.{Bytes, same, codes}
use hopscotch.Common.Int.{ℤ, pos, leb_ℤ}
use hopscotch.Common.Maps.{lookup}
use hopscotch.Ip.{ip_equal, ip_string}
use hopscotch.Identity.Address.{ula}
use hopscotch.Session.{Session, is_session, session_list}
use hopscotch.Route.{RibEntry, Advert, route_infinity}
use hopscotch.Node.{Node}
use hopscotch.Node.Routing.{route_next_hop, session_at, next_hop}

-- The metric under which a list of advertisements names `d`, if it does.
abbrev pub advertised : Bytes → List Advert → Option ℤ
advertised d [] = none
advertised d (r ∷ rs) = ite (same r.dest d) (some r.metric) (advertised d rs)

-- A destination of the table that is reached, and not by the neighbour `to` itself.
pub record IsShared (n : Node) (to d : Bytes) (m : ℤ) : Type 0 where
  pub entry : RibEntry
  pub listed : lookup same d n.routes ≡ some entry
  pub elsewhere : entry.next ≢ to
  pub reached : leb_ℤ route_infinity entry.metric ≡ false
  pub metric : m ≡ entry.metric

-- What a neighbour is told of a destination: the node itself and, by an exit, the default routes, at
-- 0; and anything else by the table, under split horizon.
pub data IsTold (n : Node) (s : Session) (d : Bytes) (m : ℤ) : Type 0 where
  by_itself : d ≡ ip_string (ula n.id) → m ≡ pos 0 → IsTold n s d m
  by_exit :
      d ≢ ip_string (ula n.id)
      → n.exit ≡ true
      → (d ≡ codes "::/0") ⊎ (d ≡ codes "0.0.0.0/0")
      → m ≡ pos 0
      → IsTold n s d m
  shared :
      d ≢ ip_string (ula n.id)
      → (n.exit ≡ false) ⊎ ((d ≢ codes "::/0") × (d ≢ codes "0.0.0.0/0"))
      → IsShared n s.id d m
      → IsTold n s d m

-- The head of an advertisement, by what it compares with the destination.
abbrev told_first : {A B C : Type 0} → Dec A → Bool → Dec B → Dec C → Option ℤ → Option ℤ
told_first own exit v6 v4 rest =
    ite own (some (pos 0))
      (if exit then ite v6 (some (pos 0)) (ite v4 (some (pos 0)) rest) else rest)

session_at_lem :
    (dst : Bytes) (from : Option Session) (ss : List Session) (s : Session)
    → session_at dst from ss ≡ some s
    → (is_session from s ≡ false) × (ip_equal (ula s.id) dst ≡ true)
unfolding session_at
session_at_lem dst from [] s h = cc
session_at_lem dst from (x ∷ ss) s h = ground (arith, session_at_lem dst from ss s)

-- A packet is never sent back over the session it came in on, and goes to the table's next hop or
-- to the session of the destination itself.
pub next_hop_lem :
    (n : Node) (dst : Bytes) (from : Option Session) (s : Session)
    → next_hop n dst from ≡ some s
    → (is_session from s ≡ false)
      × ((route_next_hop n dst ≡ some s) ⊎ (ip_equal (ula s.id) dst ≡ true))
unfolding next_hop
next_hop_lem n dst from s h =
    let at_dst = session_at_lem dst from (session_list n.sessions) s in
    elim (Option-cases (route_next_hop n dst)) [
      | inl e ↦ let (a, b) = at_dst (rw (e, next_hop) at h) in (a, inr b)
      | inr (x, e) ↦ elim (Bool-cases (is_session from x)) [
        | inl back ↦ let (a, b) = at_dst (rw (e, back, next_hop) at h) in (a, inr b)
        | inr ahead ↦
            let p : x ≡ s = cc (rw (e, ahead, next_hop) at h) in
            (ap (is_session from) (sym p) ∙ ahead, inl (e ∙ ap some p))
      ]
    ]
