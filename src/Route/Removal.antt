-- ===== src/Route/Removal.antt =====
-- The two other ways an entry leaves the table: the holddown timer and the end of a session.
use hopscotch.Common.{
  ℕ, ◌≡◌, refl, ap, ◌∙◌, false, Option, none, some, [], ◌∷◌, if◌then◌else◌, leb, ◌-◌, arith,
}
use hopscotch.Common.Bytes.{Bytes, same}
use hopscotch.Common.Maps.{lookup, Unique}
use hopscotch.Route.{RibEntry, Rib, route_holddown, eq_bytes, expire, drop_via, keep_entry}
use hopscotch.Route.Update.{lookup-keep_entry_self, lookup-keep_entry_ne, keep_entry-Unique}
use hopscotch.Route.Invariant.{IsValid, IsBelow}

-- Entries whose mark has reached the holddown go.
abbrev pub expire_entry : ℕ → Option RibEntry → Option RibEntry
expire_entry now none = none
expire_entry now (some e) = elim e.stale [
  | none ↦ some e
  | some since ↦ if leb route_holddown (now - since) then none else some e
]

-- Entries through `id` go.
abbrev pub drop_entry : Bytes → Option RibEntry → Option RibEntry
drop_entry id none = none
drop_entry id (some e) = if eq_bytes e.next id then none else some e

pub lookup-expire :
    (now : ℕ) (d : Bytes) (rib : Rib)
    → Unique same rib
    → lookup same d (expire now rib).0 ≡ expire_entry now (lookup same d rib)
unfolding expire lookup
lookup-expire now d [] h = refl
lookup-expire now d ((k, e) ∷ rib) h =
    let rest = expire now rib in
    ground (
      arith,
      lookup-expire now d rib h.1,
      lookup-keep_entry_ne d k e (expire_entry now (some e)) rest.0 rest.1,
      lookup-keep_entry_self k e (expire_entry now (some e)) rest.0 rest.1,
    )

pub lookup-drop_via :
    (id d : Bytes) (rib : Rib)
    → Unique same rib
    → lookup same d (drop_via id rib).0 ≡ drop_entry id (lookup same d rib)
unfolding drop_via lookup
lookup-drop_via id d [] h = refl
lookup-drop_via id d ((k, e) ∷ rib) h =
    let rest = drop_via id rib in
    ground (
      arith,
      lookup-drop_via id d rib h.1,
      lookup-keep_entry_ne d k e (drop_entry id (some e)) rest.0 rest.1,
      lookup-keep_entry_self k e (drop_entry id (some e)) rest.0 rest.1,
    )

pub expire-Unique : (now : ℕ) (rib : Rib) → Unique same rib → Unique same (expire now rib).0
unfolding expire
expire-Unique now [] h = tt
expire-Unique now ((k, e) ∷ rib) h =
    keep_entry-Unique k e (expire_entry now (some e)) (expire now rib).0 (expire now rib).1
      (lookup-expire now k rib h.1 ∙ ap (expire_entry now) h.0) (expire-Unique now rib h.1)

pub drop_via-Unique : (id : Bytes) (rib : Rib) → Unique same rib → Unique same (drop_via id rib).0
unfolding drop_via
drop_via-Unique id [] h = tt
drop_via-Unique id ((k, e) ∷ rib) h =
    keep_entry-Unique k e (drop_entry id (some e)) (drop_via id rib).0 (drop_via id rib).1
      (lookup-drop_via id k rib h.1 ∙ ap (drop_entry id) h.0) (drop_via-Unique id rib h.1)

expire_entry-IsBelow : (now : ℕ) (o : Option RibEntry) → IsBelow o → IsBelow (expire_entry now o)
expire_entry-IsBelow now none h = tt
expire_entry-IsBelow now (some e) h = ground arith

drop_entry-IsBelow : (id : Bytes) (o : Option RibEntry) → IsBelow o → IsBelow (drop_entry id o)
drop_entry-IsBelow id none h = tt
drop_entry-IsBelow id (some e) h = ground arith

pub expire-IsValid :
    (self : Bytes) (now : ℕ) (rib : Rib) → IsValid self rib → IsValid self (expire now rib).0
expire-IsValid self now rib v = record {
  unique = expire-Unique now rib v.unique;
  bounded = λ d. rw (lookup-expire now d rib v.unique) (expire_entry-IsBelow now _ (v.bounded d));
  no_self = lookup-expire now self rib v.unique ∙ ap (expire_entry now) v.no_self;
}

pub drop_via-IsValid :
    (self id : Bytes) (rib : Rib) → IsValid self rib → IsValid self (drop_via id rib).0
drop_via-IsValid self id rib v = record {
  unique = drop_via-Unique id rib v.unique;
  bounded = λ d. rw (lookup-drop_via id d rib v.unique) (drop_entry-IsBelow id _ (v.bounded d));
  no_self = lookup-drop_via id self rib v.unique ∙ ap (drop_entry id) v.no_self;
}

-- Without a change to report, the table is as it was.
pub expire_unchanged : (now : ℕ) (rib : Rib) → (expire now rib).1 ≡ false → (expire now rib).0 ≡ rib
unfolding expire keep_entry
expire_unchanged now [] h = refl
expire_unchanged now ((k, e) ∷ rib) h = ground (arith, expire_unchanged now rib)

pub drop_via_unchanged :
    (id : Bytes) (rib : Rib) → (drop_via id rib).1 ≡ false → (drop_via id rib).0 ≡ rib
unfolding drop_via keep_entry
drop_via_unchanged id [] h = refl
drop_via_unchanged id ((k, e) ∷ rib) h = ground (arith, drop_via_unchanged id rib)
