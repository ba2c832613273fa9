-- ===== src/Route/Refinement.antt =====
-- handleRoutes against a description by destinations: a distance-vector step with holddown.
use hopscotch.Common.{
  ℕ, ◌≡◌, refl, ap, ◌∙◌, Bool, true, false, not, ◌||◌, Option, none, some, List, [], ◌∷◌,
  if◌then◌else◌, ite, leb, ◌-◌,
}
use hopscotch.Common.Bytes.{Bytes, same}
use hopscotch.Common.Maps.{lookup, Unique}
use hopscotch.Ip.{ip_string}
use hopscotch.Identity.Address.{ula}
use hopscotch.Route.{
  RibEntry, Rib, Advert, Pass, route_holddown, eq_bytes, ensure_direct, apply_adverts, has,
  age_entry, update_rib,
}
use hopscotch.Route.Update.{
  relax_all, mentions, with_direct, age_option, lookup-age, lookup-apply_adverts, has-apply_adverts,
  lookup-ensure_direct, apply_adverts-Unique, ensure_direct-Unique, age-Unique,
}

-- The implicit withdraw: an entry of the sender that the message left out.
abbrev pub missing_entry : ℕ → RibEntry → Option RibEntry
missing_entry now e = elim e.stale [
  | none ↦ some (record e { stale = some now })
  | some since ↦ if leb route_holddown (now - since) then none else some e
]

-- What the holddown makes of an entry; `named` says that the message speaks of it.
abbrev pub settle : Bytes → Bool → ℕ → Option RibEntry → Option RibEntry
settle from named now none = none
settle from named now (some e) =
    if not (eq_bytes e.next from) || named then some e else missing_entry now e

-- The entry at `d` after the update, from the entry at `d` before.
abbrev pub entry_after : Bytes → Bytes → List Advert → ℕ → Bytes → Option RibEntry → Option RibEntry
entry_after self_id from routes now d cur =
    let self = ip_string (ula self_id) in
    let peer = ip_string (ula from) in
    let named = mentions self d routes || ite (same peer d) true false in
    settle from named now (relax_all self from d routes (with_direct peer from d cur))

age_option-settle :
    (from : Bytes) (seen : List Bytes) (now : ℕ) (d : Bytes) (o : Option RibEntry)
    → age_option from seen now d o ≡ settle from (has d seen) now o
unfolding age_entry
age_option-settle from seen now d none = refl
age_option-settle from seen now d (some e) = refl

-- In a table with one entry for each destination: at every destination, the table after a peer's
-- message is what the direct route, the peer's metrics for that destination in order, and the
-- holddown make of the entry before.
pub lookup-update_rib :
    (self_id from : Bytes) (routes : List Advert) (now : ℕ) (rib : Rib) (d : Bytes)
    → Unique same rib
    → lookup same d (update_rib self_id from routes now rib).0
      ≡ entry_after self_id from routes now d (lookup same d rib)
unfolding update_rib
lookup-update_rib self_id from routes now rib d h =
    lookup-age from p.seen now p.changed d p.rib
      (apply_adverts-Unique self from routes p0 (ensure_direct-Unique peer from rib h))
    ∙ ap (age_option from p.seen now d) (
        lookup-apply_adverts self from d routes p0
        ∙ ap (relax_all self from d routes) (lookup-ensure_direct peer from d rib))
    ∙ age_option-settle from p.seen now d relaxed
    ∙ ap (λ b. settle from b now relaxed) (has-apply_adverts self from d routes p0)
  where
    self : Bytes
    self = ip_string (ula self_id)

    peer : Bytes
    peer = ip_string (ula from)

    p0 : Pass
    p0 = record {
      rib = (ensure_direct peer from rib).0;
      changed = (ensure_direct peer from rib).1;
      seen = peer ∷ [];
    }

    p : Pass
    p = apply_adverts self from routes p0

    relaxed : Option RibEntry
    relaxed = relax_all self from d routes (with_direct peer from d (lookup same d rib))

pub update_rib-Unique :
    (self_id from : Bytes) (routes : List Advert) (now : ℕ) (rib : Rib)
    → Unique same rib
    → Unique same (update_rib self_id from routes now rib).0
unfolding update_rib
update_rib-Unique self_id from routes now rib h = age-Unique from _ now _ _ (
    apply_adverts-Unique (ip_string (ula self_id)) from routes _
      (ensure_direct-Unique (ip_string (ula from)) from rib h))
