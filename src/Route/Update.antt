-- ===== src/Route/Update.antt =====
-- The table after a peer's update, destination by destination.
use hopscotch.Common.{
  ℕ, ◌≡◌, ◌≢◌, refl, ap, ◌∙◌, Bool, true, false, ◌&&◌, ◌||◌, Option, none, some, List, [], ◌∷◌,
  if◌then◌else◌, ite, arith, Option-cases, inl, inr,
}
use hopscotch.Common.Bytes.{Bytes, same}
use hopscotch.Common.Int.{ℤ, pos, ◌+ℤ◌, ltb_ℤ, leb_ℤ, eq_ℤ}
use hopscotch.Common.Maps.{
  lookup, Unique, lookup-insert, lookup-delete, insert-Unique, delete-Unique,
}
use hopscotch.Route.{
  RibEntry, Rib, Advert, Pass, route_infinity, eq_bytes, fresh, ensure_direct, advert_key, withdraw,
  learn, apply_metric, apply_advert, apply_adverts, has, age_entry, keep_entry, age,
}

-- What one advertised metric makes of the entry at its destination.
abbrev pub relax : Bytes → ℤ → Option RibEntry → Option RibEntry
relax from m none = if leb_ℤ (pos 15) m then none else some (fresh from (m +ℤ pos 1))
relax from m (some e) =
    if leb_ℤ (pos 15) m
    then if eq_bytes e.next from then none else some e
    else if eq_bytes e.next from || ltb_ℤ (m +ℤ pos 1) e.metric
    then some (fresh from (m +ℤ pos 1))
    else some e

-- The two tests against infinity come to one.
beyond : (m : ℤ) → (leb_ℤ route_infinity m || leb_ℤ route_infinity (m +ℤ pos 1)) ≡ leb_ℤ (pos 15) m
unfolding ◌+ℤ◌
beyond m = ground arith

lookup-withdraw :
    (from d q : Bytes) (rib : Rib) (changed : Bool)
    → lookup same q (withdraw from d rib changed).0
      ≡ ite
          (same d q)
          (elim (lookup same d rib) [
            | none ↦ none
            | some e ↦ if eq_bytes e.next from then none else some e
          ])
          (lookup same q rib)
unfolding withdraw
lookup-withdraw from d q rib changed = ground (arith, lookup-delete same d q rib)

lookup-learn :
    (from d q : Bytes) (metric : ℤ) (rib : Rib) (changed : Bool)
    → lookup same q (learn from d metric rib changed).0
      ≡ ite
          (same d q)
          (elim (lookup same d rib) [
            | none ↦ some (fresh from metric)
            | some e ↦
                if eq_bytes e.next from || ltb_ℤ metric e.metric
                then some (fresh from metric)
                else some e
          ])
          (lookup same q rib)
unfolding learn
lookup-learn from d q metric rib changed =
    ground (arith, lookup-insert same d q (fresh from metric) rib)

pub lookup-apply_metric :
    (from d q : Bytes) (m : ℤ) (rib : Rib) (changed : Bool)
    → lookup same q (apply_metric from d m rib changed).0
      ≡ ite (same d q) (relax from m (lookup same d rib)) (lookup same q rib)
unfolding apply_metric
lookup-apply_metric from d q m rib changed =
    rw (apply_metric, beyond m)
      (ground (
        arith,
        lookup-withdraw from d q rib changed,
        lookup-learn from d q (m +ℤ pos 1) rib changed,
      ))

-- What one advertisement makes of the entry at `d`.
abbrev pub relax_advert : Bytes → Bytes → Bytes → Advert → Option RibEntry → Option RibEntry
relax_advert self from d r cur = elim (advert_key r.dest) [
  | none ↦ cur
  | some k ↦ ite (same k self) cur (ite (same k d) (relax from r.metric cur) cur)
]

abbrev pub relax_all : Bytes → Bytes → Bytes → List Advert → Option RibEntry → Option RibEntry
relax_all self from d [] cur = cur
relax_all self from d (r ∷ routes) cur =
    relax_all self from d routes (relax_advert self from d r cur)

-- Whether the message names `d`.
abbrev pub mentions_advert : Bytes → Bytes → Advert → Bool
mentions_advert self d r = elim (advert_key r.dest) [
  | none ↦ false
  | some k ↦ ite (same k self) false (ite (same k d) true false)
]

abbrev pub mentions : Bytes → Bytes → List Advert → Bool
mentions self d [] = false
mentions self d (r ∷ routes) = mentions self d routes || mentions_advert self d r

lookup-apply_advert :
    (self from d : Bytes) (r : Advert) (p : Pass)
    → lookup same d (apply_advert self from r p).rib
      ≡ relax_advert self from d r (lookup same d p.rib)
unfolding apply_advert
lookup-apply_advert self from d r p = elim (Option-cases (advert_key r.dest)) [
  | inl e ↦ rw (e, apply_advert, relax_advert)
  | inr (k, e) ↦
      rw (e, apply_advert, relax_advert)
        (ground (arith, lookup-apply_metric from k d r.metric p.rib p.changed))
]

pub lookup-apply_adverts :
    (self from d : Bytes) (routes : List Advert) (p : Pass)
    → lookup same d (apply_adverts self from routes p).rib
      ≡ relax_all self from d routes (lookup same d p.rib)
unfolding apply_adverts
lookup-apply_adverts self from d [] p = refl
lookup-apply_adverts self from d (r ∷ routes) p =
    lookup-apply_adverts self from d routes (apply_advert self from r p)
    ∙ ap (relax_all self from d routes) (lookup-apply_advert self from d r p)

has-apply_advert :
    (self from d : Bytes) (r : Advert) (p : Pass)
    → has d (apply_advert self from r p).seen ≡ (mentions_advert self d r || has d p.seen)
unfolding apply_advert
has-apply_advert self from d r p = ground arith

pub has-apply_adverts :
    (self from d : Bytes) (routes : List Advert) (p : Pass)
    → has d (apply_adverts self from routes p).seen ≡ (mentions self d routes || has d p.seen)
unfolding apply_adverts
has-apply_adverts self from d [] p = refl
has-apply_adverts self from d (r ∷ routes) p = ground (
  arith,
  has-apply_adverts self from d routes (apply_advert self from r p),
  has-apply_advert self from d r p,
)

-- Deleting and marking entries acts on each destination alone.
abbrev pub age_option : Bytes → List Bytes → ℕ → Bytes → Option RibEntry → Option RibEntry
age_option from seen now d none = none
age_option from seen now d (some e) = age_entry from seen now d e

pub lookup-keep_entry_ne :
    (d k : Bytes) (e : RibEntry) (o : Option RibEntry) (rest : Rib) (changed : Bool)
    → k ≢ d
    → lookup same d (keep_entry k e o (rest, changed)).0 ≡ lookup same d rest
unfolding keep_entry lookup
lookup-keep_entry_ne d k e none rest changed h = refl
lookup-keep_entry_ne d k e (some x) rest changed h = ground arith

pub lookup-keep_entry_self :
    (d : Bytes) (e : RibEntry) (o : Option RibEntry) (rest : Rib) (changed : Bool)
    → lookup same d rest ≡ none
    → lookup same d (keep_entry d e o (rest, changed)).0 ≡ o
unfolding keep_entry lookup
lookup-keep_entry_self d e none rest changed h = h
lookup-keep_entry_self d e (some x) rest changed h = ground arith

pub lookup-age :
    (from : Bytes) (seen : List Bytes) (now : ℕ) (changed : Bool) (d : Bytes) (rib : Rib)
    → Unique same rib
    → lookup same d (age from seen now changed rib).0
      ≡ age_option from seen now d (lookup same d rib)
unfolding age lookup
lookup-age from seen now changed d [] h = refl
lookup-age from seen now changed d ((k, e) ∷ rib) h =
    let rest = age from seen now changed rib in
    ground (
      arith,
      lookup-age from seen now changed d rib h.1,
      lookup-keep_entry_ne d k e (age_entry from seen now k e) rest.0 rest.1,
      lookup-keep_entry_self k e (age_entry from seen now k e) rest.0 rest.1,
    )

-- An entry that is the direct route already stays, with its mark if it has one.
abbrev pub direct_entry : Bytes → Option RibEntry → Option RibEntry
direct_entry from none = some (fresh from (pos 1))
direct_entry from (some e) =
    if eq_bytes e.next from && eq_ℤ e.metric (pos 1) then some e else some (fresh from (pos 1))

-- Each step keeps one entry for a destination.
withdraw-Unique :
    (from d : Bytes) (rib : Rib) (changed : Bool)
    → Unique same rib
    → Unique same (withdraw from d rib changed).0
unfolding withdraw
withdraw-Unique from d rib changed h = ground (arith, delete-Unique same d rib h)

learn-Unique :
    (from d : Bytes) (metric : ℤ) (rib : Rib) (changed : Bool)
    → Unique same rib
    → Unique same (learn from d metric rib changed).0
unfolding learn
learn-Unique from d metric rib changed h =
    ground (arith, insert-Unique same d (fresh from metric) rib h)

apply_metric-Unique :
    (from d : Bytes) (m : ℤ) (rib : Rib) (changed : Bool)
    → Unique same rib
    → Unique same (apply_metric from d m rib changed).0
unfolding apply_metric
apply_metric-Unique from d m rib changed h =
    rw (apply_metric, beyond m)
      (ground (
        arith,
        withdraw-Unique from d rib changed h,
        learn-Unique from d (m +ℤ pos 1) rib changed h,
      ))

apply_advert-Unique :
    (self from : Bytes) (r : Advert) (p : Pass)
    → Unique same p.rib
    → Unique same (apply_advert self from r p).rib
unfolding apply_advert
apply_advert-Unique self from r p h = elim (Option-cases (advert_key r.dest)) [
  | inl e ↦ rw (e, apply_advert) h
  | inr (k, e) ↦
      rw (e, apply_advert) (ground (arith, apply_metric-Unique from k r.metric p.rib p.changed h))
]

pub apply_adverts-Unique :
    (self from : Bytes) (routes : List Advert) (p : Pass)
    → Unique same p.rib
    → Unique same (apply_adverts self from routes p).rib
unfolding apply_adverts
apply_adverts-Unique self from [] p h = h
apply_adverts-Unique self from (r ∷ routes) p h =
    apply_adverts-Unique self from routes (apply_advert self from r p)
      (apply_advert-Unique self from r p h)

pub ensure_direct-Unique :
    (peer from : Bytes) (rib : Rib) → Unique same rib → Unique same (ensure_direct peer from rib).0
unfolding ensure_direct
ensure_direct-Unique peer from rib h =
    ground (arith, insert-Unique same peer (fresh from (pos 1)) rib h)

-- The entry at `d` once the neighbour's own address has its direct route.
abbrev pub with_direct : Bytes → Bytes → Bytes → Option RibEntry → Option RibEntry
with_direct peer from d cur = ite (same peer d) (direct_entry from cur) cur

pub lookup-ensure_direct :
    (peer from d : Bytes) (rib : Rib)
    → lookup same d (ensure_direct peer from rib).0 ≡ with_direct peer from d (lookup same d rib)
unfolding ensure_direct
lookup-ensure_direct peer from d rib =
    ground (arith, lookup-insert same peer d (fresh from (pos 1)) rib)

pub keep_entry-Unique :
    (d : Bytes) (e : RibEntry) (o : Option RibEntry) (rest : Rib) (changed : Bool)
    → lookup same d rest ≡ none
    → Unique same rest
    → Unique same (keep_entry d e o (rest, changed)).0
unfolding keep_entry
keep_entry-Unique d e none rest changed h u = u
keep_entry-Unique d e (some x) rest changed h u = (h, u)

pub age-Unique :
    (from : Bytes) (seen : List Bytes) (now : ℕ) (changed : Bool) (rib : Rib)
    → Unique same rib
    → Unique same (age from seen now changed rib).0
unfolding age
age-Unique from seen now changed [] h = tt
age-Unique from seen now changed ((k, e) ∷ rib) h =
    let rest = age from seen now changed rib in
    keep_entry-Unique k e (age_entry from seen now k e) rest.0 rest.1
      (lookup-age from seen now changed k rib h.1 ∙ ap (age_option from seen now k) h.0)
      (age-Unique from seen now changed rib h.1)
