-- ===== src/Session.antt =====
-- internal/node/node.go, type session, and the session lookups of internal/node/echo.go.
-- A *session is a record whose `handle` is its identity as a pointer; the QUIC connection, its
-- stream and its channels are left out here.
use hopscotch.Common.{
  ℕ, Bool, true, false, Option, none, some, List, [], ◌∷◌, ◌==◌, if◌then◌else◌, ite,
}
use hopscotch.Common.Bytes.{Bytes, same}
use hopscotch.Common.Maps.{Assoc, lookup}

pub record Session : Type 0 where
  pub handle : ℕ
  pub id : Bytes
  pub names : List Bytes
  pub addr : Bytes
  pub underlay_ip : Bytes

-- map[identity.NodeID]*session
abbrev pub Sessions : Type 0
Sessions = Assoc Bytes Session

-- `s == t` on pointers; nil is `none`.
abbrev pub is_session : Option Session → Session → Bool
is_session none t = false
is_session (some s) t = s.handle == t.handle

abbrev pub session_list : Sessions → List Session
session_list [] = []
session_list ((id, s) ∷ m) = s ∷ session_list m

unfoldable pub session_of : Sessions → Bytes → Option Session
session_of m id = lookup same id m

abbrev pub has_name : List Bytes → Bytes → Bool
has_name [] name = false
has_name (nm ∷ names) name = let rest = has_name names name in ite (same nm name) true rest

unfoldable pub session_by_name : Sessions → Bytes → Option Session
session_by_name [] name = none
session_by_name ((id, s) ∷ m) name =
    let rest = session_by_name m name in if has_name s.names name then some s else rest
