-- ===== src/Route/Invariant.antt =====
-- The invariant of the routing table, and that every operation on it keeps it.
use hopscotch.Common.{
  ℕ, ◌≡◌, ◌≢◌, refl, ap, sym, ◌∙◌, Bool, Option, none, some, List, [], ◌∷◌, arith, Option-cases,
  inl, inr,
}
use hopscotch.Common.Bytes.{Bytes, same}
use hopscotch.Common.Int.{ℤ, pos, ◌+ℤ◌, ◌<ℤ◌}
use hopscotch.Common.Maps.{lookup, insert, Unique, lookup-insert, insert-Unique}
use hopscotch.Route.{RibEntry, Rib, Advert, route_infinity, fresh, advert_key, update_rib}
use hopscotch.Route.Update.{relax, relax_advert, relax_all, with_direct}
use hopscotch.Route.Refinement.{settle, lookup-update_rib, update_rib-Unique}
use hopscotch.Route.Step.{address, with_direct_other}

-- Every metric is below infinity.
abbrev pub IsBelow : Option RibEntry → Type 0
IsBelow none = Unit {0}
IsBelow (some e) = e.metric <ℤ route_infinity

pub record IsValid (self : Bytes) (rib : Rib) : Type 0 where
  pub unique : Unique same rib
  pub bounded : (d : Bytes) → IsBelow (lookup same d rib)
  pub no_self : lookup same self rib ≡ none

relax-IsBelow :
    (from : Bytes) (m : ℤ) (cur : Option RibEntry) → IsBelow cur → IsBelow (relax from m cur)
unfolding ◌+ℤ◌
relax-IsBelow from m none h = ground arith
relax-IsBelow from m (some e) h = ground arith

relax_advert-IsBelow :
    (self from d : Bytes) (r : Advert) (cur : Option RibEntry)
    → IsBelow cur
    → IsBelow (relax_advert self from d r cur)
relax_advert-IsBelow self from d r cur h = elim (Option-cases (advert_key r.dest)) [
  | inl e ↦ rw (e, relax_advert) h
  | inr (k, e) ↦ rw (e, relax_advert) (ground (arith, relax-IsBelow from r.metric cur h))
]

relax_all-IsBelow :
    (self from d : Bytes) (routes : List Advert) (cur : Option RibEntry)
    → IsBelow cur
    → IsBelow (relax_all self from d routes cur)
relax_all-IsBelow self from d [] cur h = h
relax_all-IsBelow self from d (r ∷ routes) cur h =
    relax_all-IsBelow self from d routes (relax_advert self from d r cur)
      (relax_advert-IsBelow self from d r cur h)

with_direct-IsBelow :
    (peer from d : Bytes) (cur : Option RibEntry)
    → IsBelow cur
    → IsBelow (with_direct peer from d cur)
with_direct-IsBelow peer from d none h = ground arith
with_direct-IsBelow peer from d (some e) h = ground arith

settle-IsBelow :
    (from : Bytes) (named : Bool) (now : ℕ) (o : Option RibEntry)
    → IsBelow o
    → IsBelow (settle from named now o)
settle-IsBelow from named now none h = tt
settle-IsBelow from named now (some e) h = ground arith

relax_all_self :
    (self from : Bytes) (routes : List Advert) (cur : Option RibEntry)
    → relax_all self from self routes cur ≡ cur
relax_all_self self from [] cur = refl
relax_all_self self from (r ∷ routes) cur =
    relax_all_self self from routes (relax_advert self from self r cur) ∙ ground arith

-- A message of a neighbour with another address keeps the table valid: one entry for a destination,
-- metrics below infinity, and no route to the node itself.
pub update_rib-IsValid :
    (self_id from : Bytes) (routes : List Advert) (now : ℕ) (rib : Rib)
    → address from ≢ address self_id
    → IsValid (address self_id) rib
    → IsValid (address self_id) (update_rib self_id from routes now rib).0
update_rib-IsValid self_id from routes now rib other v = record {
  unique = update_rib-Unique self_id from routes now rib v.unique;
  bounded = λ d. rw (lookup-update_rib self_id from routes now rib d v.unique) (
      settle-IsBelow from _ now _ (
        relax_all-IsBelow (address self_id) from d routes _
          (with_direct-IsBelow (address from) from d _ (v.bounded d))));
  no_self =
      lookup-update_rib self_id from routes now rib (address self_id) v.unique
      ∙ ap (settle from _ now) (
          relax_all_self (address self_id) from routes _
          ∙ with_direct_other (address from) from (address self_id) _ (λ p. other (sym p))
          ∙ v.no_self);
}

-- onSessionUp's write.
pub insert_direct-IsValid :
    (self d id : Bytes) (rib : Rib)
    → d ≢ self
    → IsValid self rib
    → IsValid self (insert same d (fresh id (pos 1)) rib)
insert_direct-IsValid self d id rib other v = record {
  unique = insert-Unique same d (fresh id (pos 1)) rib v.unique;
  bounded = λ q. rw (lookup-insert same d q (fresh id (pos 1)) rib) (ground (arith, v.bounded q));
  no_self = lookup-insert same d self (fresh id (pos 1)) rib ∙ ground (arith, v.no_self);
}
