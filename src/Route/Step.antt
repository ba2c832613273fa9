-- ===== src/Route/Step.antt =====
-- What one message of a peer does to a destination: the cases of the description.
use hopscotch.Common.{
  ℕ, ◌≡◌, ◌≢◌, refl, ap, ◌∙◌, true, false, ◌&&◌, ◌||◌, Option, none, some, List, [], ◌∷◌, ◌++◌,
  if◌then◌else◌, ite, arith,
}
use hopscotch.Common.Bytes.{Bytes, same}
use hopscotch.Common.Int.{ℤ, pos, ◌+ℤ◌, leb_ℤ, eq_ℤ}
use hopscotch.Common.Maps.{lookup, Unique}
use hopscotch.Ip.{ip_string}
use hopscotch.Identity.Address.{ula}
use hopscotch.Route.{RibEntry, Rib, Advert, eq_bytes, fresh, advert_key, update_rib}
use hopscotch.Route.Update.{relax, relax_advert, relax_all, mentions, mentions_advert, with_direct}
use hopscotch.Route.Refinement.{settle, lookup-update_rib}

abbrev pub address : Bytes → Bytes
address id = ip_string (ula id)

relax_all_unnamed :
    (self from d : Bytes) (routes : List Advert) (cur : Option RibEntry)
    → mentions self d routes ≡ false
    → relax_all self from d routes cur ≡ cur
relax_all_unnamed self from d [] cur h = refl
relax_all_unnamed self from d (r ∷ routes) cur h =
    ground (arith, relax_all_unnamed self from d routes cur)

relax_all-append :
    (self from d : Bytes) (xs ys : List Advert) (cur : Option RibEntry)
    → relax_all self from d (xs ++ ys) cur ≡ relax_all self from d ys (relax_all self from d xs cur)
relax_all-append self from d [] ys cur = refl
relax_all-append self from d (r ∷ xs) ys cur =
    relax_all-append self from d xs ys (relax_advert self from d r cur)

mentions-append :
    (self d : Bytes) (xs ys : List Advert)
    → mentions self d (xs ++ ys) ≡ (mentions self d ys || mentions self d xs)
mentions-append self d [] ys = ground arith
mentions-append self d (r ∷ xs) ys = ground (arith, mentions-append self d xs ys)

relax_all_once :
    (self from d : Bytes) (before after : List Advert) (r : Advert) (cur : Option RibEntry)
    → advert_key r.dest ≡ some d
    → d ≢ self
    → mentions self d before ≡ false
    → mentions self d after ≡ false
    → relax_all self from d (before ++ r ∷ after) cur ≡ relax from r.metric cur
relax_all_once self from d before after r cur key not_self hb ha =
    relax_all-append self from d before (r ∷ after) cur
    ∙ ap (relax_all self from d (r ∷ after)) (relax_all_unnamed self from d before cur hb)
    ∙ relax_all_unnamed self from d after (relax_advert self from d r cur) ha
    ∙ rw (key, relax_advert) (ground arith)

mentions_once :
    (self d : Bytes) (before after : List Advert) (r : Advert)
    → advert_key r.dest ≡ some d
    → d ≢ self
    → mentions self d (before ++ r ∷ after) ≡ true
mentions_once self d before after r key not_self =
    mentions-append self d before (r ∷ after) ∙ ground (arith, named)
  where
    named : mentions_advert self d r ≡ true
    named = rw (key, mentions_advert) (ground arith)

settle_named : (from : Bytes) (now : ℕ) (o : Option RibEntry) → settle from true now o ≡ o
settle_named from now none = refl
settle_named from now (some e) = ground arith

pub with_direct_other :
    (peer from d : Bytes) (cur : Option RibEntry) → d ≢ peer → with_direct peer from d cur ≡ cur
with_direct_other peer from d cur h = ground arith

module _ (self_id from : Bytes) (now : ℕ) (rib : Rib) (unique : Unique same rib) (d : Bytes) where
  named_once :
      (before after : List Advert) (r : Advert)
      → advert_key r.dest ≡ some d
      → d ≢ address self_id
      → mentions (address self_id) d before ≡ false
      → mentions (address self_id) d after ≡ false
      → lookup same d (update_rib self_id from (before ++ r ∷ after) now rib).0
        ≡ relax from r.metric (with_direct (address from) from d (lookup same d rib))
  named_once before after r key not_self hb ha =
      lookup-update_rib self_id from (before ++ r ∷ after) now rib d unique
      ∙ ap (λ b. settle from (b || ite (same (address from) d) true false) now relaxed)
          (mentions_once (address self_id) d before after r key not_self)
      ∙ settle_named from now relaxed
      ∙ relax_all_once (address self_id) from d before after r cur key not_self hb ha
    where
      cur : Option RibEntry
      cur = with_direct (address from) from d (lookup same d rib)

      relaxed : Option RibEntry
      relaxed = relax_all (address self_id) from d (before ++ r ∷ after) cur

  -- In a table with one entry for each destination, a message that names a destination once, which
  -- is neither the node nor the sender, moves its entry by one distance-vector step: the sender's
  -- metric plus one replaces an entry that is missing, the sender's own, or worse; a metric of 15
  -- or more removes the sender's entry and leaves any other.
  pub update_rib_once :
      (before after : List Advert) (r : Advert)
      → advert_key r.dest ≡ some d
      → d ≢ address self_id
      → d ≢ address from
      → mentions (address self_id) d before ≡ false
      → mentions (address self_id) d after ≡ false
      → lookup same d (update_rib self_id from (before ++ r ∷ after) now rib).0
        ≡ relax from r.metric (lookup same d rib)
  update_rib_once before after r key not_self not_peer hb ha =
      named_once before after r key not_self hb ha
      ∙ ap (relax from r.metric)
          (with_direct_other (address from) from d (lookup same d rib) not_peer)

  -- A destination that the message leaves out: another neighbour's entry stays as it is; the
  -- sender's is marked, or deleted once the mark is as old as the holddown.
  pub update_rib_unnamed :
      (routes : List Advert)
      → d ≢ address from
      → mentions (address self_id) d routes ≡ false
      → lookup same d (update_rib self_id from routes now rib).0
        ≡ settle from false now (lookup same d rib)
  update_rib_unnamed routes not_peer h =
      lookup-update_rib self_id from routes now rib d unique
      ∙ ground (arith, relax_all_unnamed (address self_id) from d routes (lookup same d rib))

direct_entry_lem :
    (from d : Bytes) (cur : Option RibEntry)
    → (e : RibEntry) × (with_direct d from d cur ≡ some e) × (e.next ≡ from) × (e.metric ≡ pos 1)
direct_entry_lem from d none = (fresh from (pos 1), ground arith, refl, refl)
direct_entry_lem from d (some e) = (
  if eq_bytes e.next from && eq_ℤ e.metric (pos 1) then e else fresh from (pos 1),
  ground arith,
  ground arith,
  ground arith,
)

relax-with_direct :
    (from d : Bytes) (m : ℤ) (cur : Option RibEntry)
    → relax from m (with_direct d from d cur)
      ≡ (if leb_ℤ (pos 15) m then none else some (fresh from (m +ℤ pos 1)))
relax-with_direct from d m none = ground arith
relax-with_direct from d m (some e) = ground arith

-- The neighbour itself, which its own messages name at most once, and then at metric 0 unless it
-- misbehaves.
module _ (self_id from : Bytes) (now : ℕ) (rib : Rib) (unique : Unique same rib) where
  -- In a table with one entry for each destination, after any message that does not name the
  -- sender's own address, the sender is one hop away.
  pub update_rib_direct :
      (routes : List Advert)
      → mentions (address self_id) (address from) routes ≡ false
      → (e : RibEntry) × (lookup same (address from) (update_rib self_id from routes now rib).0
          ≡ some e)
        × (e.next ≡ from)
        × (e.metric ≡ pos 1)
  update_rib_direct routes h =
      let (e, p, next, metric) =
        direct_entry_lem from (address from) (lookup same (address from) rib) in
      let cur = with_direct (address from) from (address from) (lookup same (address from) rib) in
      (
        e,
        lookup-update_rib self_id from routes now rib (address from) unique
            ∙ ap
                (settle from
                  (mentions (address self_id) (address from) routes
                    || ite (same (address from) (address from)) true false)
                  now)
                (relax_all_unnamed (address self_id) from (address from) routes cur h ∙ p)
            ∙ ground arith,
        next,
        metric,
      )

  -- In a table with one entry for each destination, a message that names the sender's own address
  -- once, which is not the node's, leaves the sender at that metric plus one; at 15 or more it
  -- removes the direct route.
  pub update_rib_self_advert :
      (before after : List Advert) (r : Advert)
      → advert_key r.dest ≡ some (address from)
      → address from ≢ address self_id
      → mentions (address self_id) (address from) before ≡ false
      → mentions (address self_id) (address from) after ≡ false
      → lookup same (address from) (update_rib self_id from (before ++ r ∷ after) now rib).0
        ≡ (if leb_ℤ (pos 15) r.metric then none else some (fresh from (r.metric +ℤ pos 1)))
  update_rib_self_advert before after r key not_self hb ha =
      named_once self_id from now rib unique (address from) before after r key not_self hb ha
      ∙ relax-with_direct from (address from) r.metric (lookup same (address from) rib)
