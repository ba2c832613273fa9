-- ===== src/Route.antt =====
-- internal/node/route.go: the routing table (RIB) of a node and the distance-vector update.
-- Destinations are texts, as in the code: an address as net.IP.String prints it, or one of the two
-- default routes. Metrics are Go ints, of any sign, since they come from a peer's JSON.
pub mod Update
pub mod Refinement
pub mod Step
pub mod Invariant
pub mod Removal
pub mod Changes
pub mod Entries
mod Tests
use hopscotch.Common.{
  ℕ, Bool, true, false, not, ◌&&◌, ◌||◌, Option, none, some, List, [], ◌∷◌, if◌then◌else◌, ite, leb,
  ◌-◌, ◌++◌,
}
use hopscotch.Common.Bytes.{Bytes, same, codes}
use hopscotch.Common.Int.{ℤ, pos, ◌+ℤ◌, ltb_ℤ, leb_ℤ, eq_ℤ}
use hopscotch.Common.Maps.{Assoc, lookup, insert, delete}
use hopscotch.Ip.{ip_string, parse_ip}
use hopscotch.Identity.Address.{ula, is_mesh_ula, is_resolver_ula}

-- `stale` is the time since which the destination is missing, in nanoseconds; `none` is the zero time.
pub record RibEntry : Type 0 where
  pub next : Bytes
  pub metric : ℤ
  pub stale : Option ℕ

abbrev pub Rib : Type 0
Rib = Assoc Bytes RibEntry

-- proto.Route
pub record Advert : Type 0 where
  pub dest : Bytes
  pub metric : ℤ

abbrev pub route_infinity : ℤ
route_infinity = pos 16

abbrev pub route_holddown : ℕ
route_holddown = 3000000000

abbrev pub default_route_v6 : Bytes
default_route_v6 = codes "::/0"

abbrev pub default_route_v4 : Bytes
default_route_v4 = codes "0.0.0.0/0"

abbrev pub eq_bytes : Bytes → Bytes → Bool
eq_bytes a b = ite (same a b) true false

unfoldable pub is_default_route_dest : Bytes → Bool
is_default_route_dest dest = eq_bytes dest default_route_v4 || eq_bytes dest default_route_v6

-- ribEntry{next: next, metric: metric}
abbrev pub fresh : Bytes → ℤ → RibEntry
fresh next metric = record { next = next; metric = metric; stale = none }

abbrev pub is_fresh : Option ℕ → Bool
is_fresh none = true
is_fresh (some t) = false

-- The direct neighbour is one hop away.
unfoldable pub ensure_direct : Bytes → Bytes → Rib → Rib × Bool
ensure_direct peer_ula from rib = elim (lookup same peer_ula rib) [
  | none ↦ (insert same peer_ula (fresh from (pos 1)) rib, true)
  | some cur ↦
      if not (eq_bytes cur.next from) || not (eq_ℤ cur.metric (pos 1))
      then (insert same peer_ula (fresh from (pos 1)) rib, true)
      else (rib, false)
]

-- The key an advertised destination is kept under; `none` where the loop skips it.
unfoldable pub advert_key : Bytes → Option Bytes
advert_key dest = if is_default_route_dest dest then some dest else elim (parse_ip dest) [
  | none ↦ none
  | some ip ↦ if not (is_mesh_ula ip) || is_resolver_ula ip then none else some (ip_string ip)
]

withdraw : Bytes → Bytes → Rib → Bool → Rib × Bool
withdraw from dest rib changed = elim (lookup same dest rib) [
  | none ↦ (rib, changed)
  | some cur ↦ if eq_bytes cur.next from then (delete same dest rib, true) else (rib, changed)
]

learn : Bytes → Bytes → ℤ → Rib → Bool → Rib × Bool
learn from dest metric rib changed = elim (lookup same dest rib) [
  | none ↦ (insert same dest (fresh from metric) rib, true)
  | some cur ↦
      if eq_bytes cur.next from || ltb_ℤ metric cur.metric
      then if not (eq_bytes cur.next from)
          || (not (eq_ℤ cur.metric metric) || not (is_fresh cur.stale))
        then (insert same dest (fresh from metric) rib, true)
        else (rib, changed)
      else (rib, changed)
]

-- One advertised metric for `dest`.
unfoldable pub apply_metric : Bytes → Bytes → ℤ → Rib → Bool → Rib × Bool
unfolding withdraw learn
apply_metric from dest advertised rib changed =
    let metric = advertised +ℤ pos 1 in
    if leb_ℤ route_infinity advertised || leb_ℤ route_infinity metric
    then withdraw from dest rib changed
    else learn from dest metric rib changed

-- The variables of the loop over msg.Routes.
pub record Pass : Type 0 where
  pub rib : Rib
  pub changed : Bool
  pub seen : List Bytes

heard : Bytes → Bytes → ℤ → Pass → Pass
heard from dest metric p =
    let (rib', changed') = apply_metric from dest metric p.rib p.changed in
    record { rib = rib'; changed = changed'; seen = dest ∷ p.seen }

-- The body of the loop.
unfoldable pub apply_advert : Bytes → Bytes → Advert → Pass → Pass
unfolding heard
apply_advert self from r p = elim (advert_key r.dest) [
  | none ↦ p
  | some dest ↦ ite (same dest self) p (heard from dest r.metric p)
]

unfoldable pub apply_adverts : Bytes → Bytes → List Advert → Pass → Pass
apply_adverts self from [] p = p
apply_adverts self from (r ∷ routes) p = apply_adverts self from routes (apply_advert self from r p)

abbrev pub has : Bytes → List Bytes → Bool
has d [] = false
has d (k ∷ ks) = let rest = has d ks in ite (same k d) true rest

-- One entry in the loop of the implicit withdraw: kept, marked, or (`none`) deleted.
unfoldable pub age_entry : Bytes → List Bytes → ℕ → Bytes → RibEntry → Option RibEntry
age_entry from seen now dest e =
    if not (eq_bytes e.next from) || has dest seen then some e else elim e.stale [
      | none ↦ some (record e { stale = some now })
      | some since ↦ if leb route_holddown (now - since) then none else some e
    ]

unfoldable pub keep_entry : Bytes → RibEntry → Option RibEntry → Rib × Bool → Rib × Bool
keep_entry dest e none (rest, changed) = (rest, true)
keep_entry dest e (some e') (rest, changed) = ((dest, e') ∷ rest, changed)

unfoldable pub age : Bytes → List Bytes → ℕ → Bool → Rib → Rib × Bool
unfolding keep_entry
age from seen now changed [] = ([], changed)
age from seen now changed ((dest, e) ∷ rib) =
    keep_entry dest e (age_entry from seen now dest e) (age from seen now changed rib)

-- The part of handleRoutes under routeMu: the new table, and `changed`.
unfoldable pub update_rib : Bytes → Bytes → List Advert → ℕ → Rib → Rib × Bool
update_rib self_id from routes now rib =
    let peer_ula = ip_string (ula from) in
    let (rib', changed) = ensure_direct peer_ula from rib in
    let p =
      apply_adverts (ip_string (ula self_id)) from routes
        (record { rib = rib'; changed = changed; seen = peer_ula ∷ [] }) in
    age from p.seen now p.changed p.rib

-- The loop of expireStaleRoutes.
unfoldable pub expire : ℕ → Rib → Rib × Bool
unfolding keep_entry
expire now [] = ([], false)
expire now ((dest, e) ∷ rib) =
    keep_entry dest e
      (elim e.stale [
        | none ↦ some e
        | some since ↦ if leb route_holddown (now - since) then none else some e
      ])
      (expire now rib)

-- The loop of onSessionDown.
unfoldable pub drop_via : Bytes → Rib → Rib × Bool
unfolding keep_entry
drop_via id [] = ([], false)
drop_via id ((dest, e) ∷ rib) =
    keep_entry dest e (if eq_bytes e.next id then none else some e) (drop_via id rib)

-- The entries that an advertisement to the neighbour `to` repeats.
unfoldable pub exported : Bytes → Rib → List Advert
exported to [] = []
exported to ((dest, e) ∷ rib) =
    let rest = exported to rib in
    if eq_bytes e.next to || leb_ℤ route_infinity e.metric
    then rest
    else record { dest = dest; metric = e.metric } ∷ rest
