-- ===== src/Route/Changes.antt =====
-- The flag `changed` of handleRoutes decides whether the node advertises anew.
use hopscotch.Common.{
  ℕ, ◌≡◌, ◌≢◌, refl, ap, ◌∙◌, Bool, false, none, some, List, [], ◌∷◌, if◌then◌else◌, leb, ◌-◌,
  arith, Option-cases, inl, inr,
}
use hopscotch.Common.Bytes.{Bytes, same}
use hopscotch.Common.Int.{ℤ, pos, ◌+ℤ◌}
use hopscotch.Common.Maps.{lookup, Unique}
use hopscotch.Route.{
  Rib, Advert, Pass, route_holddown, fresh, ensure_direct, advert_key, withdraw, learn,
  apply_metric, apply_advert, apply_adverts, age_entry, keep_entry, age, update_rib, exported,
}
use hopscotch.Route.Update.{mentions}
use hopscotch.Route.Refinement.{update_rib-Unique}
use hopscotch.Route.Step.{address, update_rib_unnamed}

withdraw_unchanged :
    (from d : Bytes) (rib : Rib) (changed : Bool)
    → (withdraw from d rib changed).1 ≡ false
    → ((withdraw from d rib changed).0 ≡ rib) × (changed ≡ false)
unfolding withdraw
withdraw_unchanged from d rib changed h = ground arith

learn_unchanged :
    (from d : Bytes) (metric : ℤ) (rib : Rib) (changed : Bool)
    → (learn from d metric rib changed).1 ≡ false
    → ((learn from d metric rib changed).0 ≡ rib) × (changed ≡ false)
unfolding learn
learn_unchanged from d metric rib changed h = ground arith

apply_metric_unchanged :
    (from d : Bytes) (m : ℤ) (rib : Rib) (changed : Bool)
    → (apply_metric from d m rib changed).1 ≡ false
    → ((apply_metric from d m rib changed).0 ≡ rib) × (changed ≡ false)
unfolding apply_metric
apply_metric_unchanged from d m rib changed h =
    ground (
      arith,
      withdraw_unchanged from d rib changed,
      learn_unchanged from d (m +ℤ pos 1) rib changed,
    )

apply_advert_unchanged :
    (self from : Bytes) (r : Advert) (p : Pass)
    → (apply_advert self from r p).changed ≡ false
    → ((apply_advert self from r p).rib ≡ p.rib) × (p.changed ≡ false)
unfolding apply_advert
apply_advert_unchanged self from r p h = elim (Option-cases (advert_key r.dest)) [
  | inl e ↦ ground arith
  | inr (k, e) ↦ ground (arith, apply_metric_unchanged from k r.metric p.rib p.changed)
]

apply_adverts_unchanged :
    (self from : Bytes) (routes : List Advert) (p : Pass)
    → (apply_adverts self from routes p).changed ≡ false
    → ((apply_adverts self from routes p).rib ≡ p.rib) × (p.changed ≡ false)
unfolding apply_adverts
apply_adverts_unchanged self from [] p h = (refl, h)
apply_adverts_unchanged self from (r ∷ routes) p h = ground (
  arith,
  apply_adverts_unchanged self from routes (apply_advert self from r p),
  apply_advert_unchanged self from r p,
)

ensure_direct_unchanged :
    (peer from : Bytes) (rib : Rib)
    → (ensure_direct peer from rib).1 ≡ false
    → (ensure_direct peer from rib).0 ≡ rib
unfolding ensure_direct
ensure_direct_unchanged peer from rib h = ground arith

-- A mark changes nothing that is advertised.
age_unchanged :
    (from : Bytes) (seen : List Bytes) (now : ℕ) (changed : Bool) (to : Bytes) (rib : Rib)
    → (age from seen now changed rib).1 ≡ false
    → (exported to (age from seen now changed rib).0 ≡ exported to rib) × (changed ≡ false)
unfolding age keep_entry age_entry exported
age_unchanged from seen now changed to [] h = (refl, h)
age_unchanged from seen now changed to ((k, e) ∷ rib) h =
    ground (arith, age_unchanged from seen now changed to rib)

-- When a message leaves `changed` false, nothing that the node tells any neighbour has changed: it
-- loses nothing by not advertising.
pub exported-update_rib :
    (self_id from : Bytes) (routes : List Advert) (now : ℕ) (rib : Rib) (to : Bytes)
    → (update_rib self_id from routes now rib).1 ≡ false
    → exported to (update_rib self_id from routes now rib).0 ≡ exported to rib
unfolding update_rib
exported-update_rib self_id from routes now rib to h =
    let p0 : Pass = record {
      rib = (ensure_direct (address from) from rib).0;
      changed = (ensure_direct (address from) from rib).1;
      seen = address from ∷ [];
    } in
    let p = apply_adverts (address self_id) from routes p0 in
    let (e1, c1) = age_unchanged from p.seen now p.changed to p.rib h in
    let (e2, c2) = apply_adverts_unchanged (address self_id) from routes p0 c1 in
    e1 ∙ ap (exported to) (e2 ∙ ensure_direct_unchanged (address from) from rib c2)

-- Two messages of a neighbour that leave out a destination learned from it: within the holddown the
-- route stays in use, with its metric; after it the route is gone.
pub update_rib_holddown :
    (self_id from : Bytes) (first second : List Advert) (t1 t2 : ℕ) (rib : Rib) (d : Bytes) (m : ℤ)
    → Unique same rib
    → d ≢ address from
    → lookup same d rib ≡ some (fresh from m)
    → mentions (address self_id) d first ≡ false
    → mentions (address self_id) d second ≡ false
    → lookup same d (update_rib self_id from second t2 (update_rib self_id from first t1 rib).0).0
      ≡ (if leb route_holddown (t2 - t1)
          then none
          else some (record { next = from; metric = m; stale = some t1 }))
update_rib_holddown self_id from first second t1 t2 rib d m unique other known h1 h2 = ground (
  arith,
  update_rib_unnamed self_id from t1 rib unique d first other h1,
  update_rib_unnamed self_id from t2 (update_rib self_id from first t1 rib).0
      (update_rib-Unique self_id from first t1 rib unique) d second other h2,
)
