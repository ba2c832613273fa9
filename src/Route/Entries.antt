-- ===== src/Route/Entries.antt =====
-- What every entry of the table keeps: a property of entries that does not speak of their marks.
use hopscotch.Common.{
  ℕ, ◌≡◌, Bool, true, false, ◌&&◌, ◌||◌, not, Option, none, some, List, [], ◌∷◌, Option-cases, inl,
  inr, All, if◌then◌else◌, ite, leb, ◌-◌,
}
use hopscotch.Common.Bytes.{Bytes, same}
use hopscotch.Common.Int.{ℤ, pos, ◌+ℤ◌, ltb_ℤ, leb_ℤ, eq_ℤ}
use hopscotch.Common.Maps.{lookup, insert, Unique, lookup-insert}
use hopscotch.Route.{
  RibEntry, Rib, Advert, eq_bytes, fresh, advert_key, update_rib, expire, drop_via, route_holddown,
}
use hopscotch.Route.Update.{relax, relax_advert, relax_all, direct_entry}
use hopscotch.Route.Refinement.{settle, missing_entry, lookup-update_rib}
use hopscotch.Route.Removal.{expire_entry, drop_entry, lookup-expire, lookup-drop_via}
use hopscotch.Route.Step.{address}

abbrev pub Holds : (RibEntry → Type 0) → Option RibEntry → Type 0
Holds P none = Unit {0}
Holds P (some e) = P e

-- A property of an entry's next hop and metric.
abbrev pub Route : (Bytes → ℤ → Type 0) → RibEntry → Type 0
Route Q e = Q e.next e.metric

module _ (Q : Bytes → ℤ → Type 0) where
  if_none-Holds :
      (b : Bool) (o : Option RibEntry) → Holds (Route Q) o → Holds (Route Q) (if b then none else o)
  if_none-Holds true o h = tt
  if_none-Holds false o h = h

  if-Holds :
      (b : Bool) (o p : Option RibEntry)
      → Holds (Route Q) o
      → Holds (Route Q) p
      → Holds (Route Q) (if b then o else p)
  if-Holds true o p h k = h
  if-Holds false o p h k = k

  relax-Holds :
      (from : Bytes) (m : ℤ) (cur : Option RibEntry)
      → Q from (m +ℤ pos 1)
      → Holds (Route Q) cur
      → Holds (Route Q) (relax from m cur)
  relax-Holds from m none new h =
      if_none-Holds (leb_ℤ (pos 15) m) (some (fresh from (m +ℤ pos 1))) new
  relax-Holds from m (some e) new h =
      if-Holds (leb_ℤ (pos 15) m) (if eq_bytes e.next from then none else some e) _
        (if_none-Holds (eq_bytes e.next from) (some e) h)
        (if-Holds (eq_bytes e.next from || ltb_ℤ (m +ℤ pos 1) e.metric)
          (some (fresh from (m +ℤ pos 1))) (some e) new h)

  missing_entry-Holds : (now : ℕ) (e : RibEntry) → Route Q e → Holds (Route Q) (missing_entry now e)
  missing_entry-Holds now e h =
      elim e.stale
        as (λ s. Holds (Route Q) (elim s [
          | none ↦ some (record e { stale = some now })
          | some since ↦ if leb route_holddown (now - since) then none else some e
        ])) [ none ↦ h | some since ↦ if_none-Holds (leb route_holddown (now - since)) (some e) h ]

  settle-Holds :
      (from : Bytes) (named : Bool) (now : ℕ) (o : Option RibEntry)
      → Holds (Route Q) o
      → Holds (Route Q) (settle from named now o)
  settle-Holds from named now none h = tt
  settle-Holds from named now (some e) h =
      if-Holds (not (eq_bytes e.next from) || named) (some e) (missing_entry now e) h
        (missing_entry-Holds now e h)

  direct_entry-Holds :
      (from : Bytes) (cur : Option RibEntry)
      → Q from (pos 1)
      → Holds (Route Q) cur
      → Holds (Route Q) (direct_entry from cur)
  direct_entry-Holds from none new h = new
  direct_entry-Holds from (some e) new h =
      if-Holds (eq_bytes e.next from && eq_ℤ e.metric (pos 1)) (some e) (some (fresh from (pos 1)))
        h new

  expire_entry-Holds :
      (now : ℕ) (o : Option RibEntry) → Holds (Route Q) o → Holds (Route Q) (expire_entry now o)
  expire_entry-Holds now none h = tt
  expire_entry-Holds now (some e) h =
      elim e.stale
        as (λ s. Holds (Route Q) (elim s [
          | none ↦ some e
          | some since ↦ if leb route_holddown (now - since) then none else some e
        ])) [ none ↦ h | some since ↦ if_none-Holds (leb route_holddown (now - since)) (some e) h ]

  drop_entry-Holds :
      (id : Bytes) (o : Option RibEntry) → Holds (Route Q) o → Holds (Route Q) (drop_entry id o)
  drop_entry-Holds id none h = tt
  drop_entry-Holds id (some e) h = if_none-Holds (eq_bytes e.next id) (some e) h

-- The same for a property `P d` of the entry at each destination `d`.
module _ (P : Bytes → Bytes → ℤ → Type 0) where
  -- Every destination that a message of `from` names, under its key in the table.
  abbrev pub Heard : Bytes → Advert → Type 0
  Heard from r = (k : Bytes) → advert_key r.dest ≡ some k → P k from (r.metric +ℤ pos 1)

  ite-Holds :
      (k q d : Bytes) (o p : Option RibEntry)
      → (k ≡ q → Holds (Route (P d)) o)
      → Holds (Route (P d)) p
      → Holds (Route (P d)) (ite (same k q) o p)
  ite-Holds k q d o p f h = elim (same k q) as (λ b. Holds (Route (P d)) (ite b o p)) [
    | yes e ↦ f e
    | no e ↦ h
  ]

  relax_advert-Holds :
      (self from d : Bytes) (r : Advert) (cur : Option RibEntry)
      → Heard from r
      → Holds (Route (P d)) cur
      → Holds (Route (P d)) (relax_advert self from d r cur)
  relax_advert-Holds self from d r cur heard h = elim (Option-cases (advert_key r.dest)) [
    | inl e ↦ rw (e, relax_advert) h
    | inr (k, e) ↦
        rw (e, relax_advert)
          (ite-Holds k self d cur _ (λ _. h)
            (ite-Holds k d d (relax from r.metric cur) cur
              (λ same_key. relax-Holds (P d) from r.metric cur (rw (← same_key) (heard k e)) h) h))
  ]

  relax_all-Holds :
      (self from d : Bytes) (routes : List Advert) (cur : Option RibEntry)
      → All (Heard from) routes
      → Holds (Route (P d)) cur
      → Holds (Route (P d)) (relax_all self from d routes cur)
  relax_all-Holds self from d [] cur all h = h
  relax_all-Holds self from d (r ∷ routes) cur all h =
      relax_all-Holds self from d routes (relax_advert self from d r cur) all.1
        (relax_advert-Holds self from d r cur all.0 h)

  -- A property of next hop and metric holds of every entry after a message, if it held before, holds
  -- of the sender itself at one hop, and of what the sender advertises at one hop more.
  pub update_rib-Holds :
      (self_id from : Bytes) (routes : List Advert) (now : ℕ) (rib : Rib)
      → Unique same rib
      → P (address from) from (pos 1)
      → All (Heard from) routes
      → ((d : Bytes) → Holds (Route (P d)) (lookup same d rib))
      → (d : Bytes) → Holds (Route (P d)) (lookup same d (update_rib self_id from routes now rib).0)
  update_rib-Holds self_id from routes now rib u direct all h d =
      rw (lookup-update_rib self_id from routes now rib d u) (
        settle-Holds (P d) from _ now _ (
          relax_all-Holds (address self_id) from d routes _ all (
            ite-Holds (address from) d d (direct_entry from (lookup same d rib)) _
              (λ same_key. direct_entry-Holds (P d) from _ (rw (← same_key) direct) (h d)) (h d))))

  pub expire-Holds :
      (now : ℕ) (rib : Rib)
      → Unique same rib
      → ((d : Bytes) → Holds (Route (P d)) (lookup same d rib))
      → (d : Bytes) → Holds (Route (P d)) (lookup same d (expire now rib).0)
  expire-Holds now rib u h d = rw (lookup-expire now d rib u) (expire_entry-Holds (P d) now _ (h d))

  pub drop_via-Holds :
      (id : Bytes) (rib : Rib)
      → Unique same rib
      → ((d : Bytes) → Holds (Route (P d)) (lookup same d rib))
      → (d : Bytes) → Holds (Route (P d)) (lookup same d (drop_via id rib).0)
  drop_via-Holds id rib u h d = rw (lookup-drop_via id d rib u) (drop_entry-Holds (P d) id _ (h d))

  pub insert-Holds :
      (k : Bytes) (e : RibEntry) (rib : Rib)
      → P k e.next e.metric
      → ((d : Bytes) → Holds (Route (P d)) (lookup same d rib))
      → (d : Bytes) → Holds (Route (P d)) (lookup same d (insert same k e rib))
  insert-Holds k e rib new h d =
      rw (lookup-insert same k d e rib)
        (ite-Holds k d d (some e) _ (λ same_key. rw (← same_key) new) (h d))
