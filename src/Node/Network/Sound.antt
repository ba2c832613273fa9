-- ===== src/Node/Network/Sound.antt =====
-- Routes that are backed by a walk over links, and what a neighbour makes of their advertisement.
use hopscotch.Common.{
  ℕ, suc, ◌≡◌, inl, inr, refl, Bool, true, false, ◌||◌, List, [], ◌∷◌, none, some, All,
  Option-cases, arith, if◌then◌else◌,
}
use hopscotch.Common.Bytes.{Bytes, same}
use hopscotch.Common.Int.{ℤ, pos, ◌+ℤ◌, leb_ℤ}
use hopscotch.Common.Maps.{lookup, Unique}
use hopscotch.Route.{
  RibEntry, Rib, Advert, is_default_route_dest, advert_key, exported, eq_bytes, route_infinity,
}
use hopscotch.Route.Step.{address}
use hopscotch.Route.Entries.{Holds, Heard}
use hopscotch.Node.Network.{Walk, Serves, Away, Via}

lookup_head : (k : Bytes) (e : RibEntry) (rib : Rib) → lookup same k ((k, e) ∷ rib) ≡ some e
unfolding lookup
lookup_head k e rib = ground arith

lookup_tail :
    (k d : Bytes) (e x : RibEntry) (rib : Rib)
    → lookup same k rib ≡ none
    → lookup same d rib ≡ some x
    → lookup same d ((k, e) ∷ rib) ≡ some x
unfolding lookup
lookup_tail k d e x rib gone found = ground arith

default_key : (d : Bytes) → is_default_route_dest d ≡ true → advert_key d ≡ some d
unfolding advert_key
default_key d h = rw h refl

if-All :
    (P : Advert → Type 0) (b : Bool) (r : Advert) (rs : List Advert)
    → P r
    → All P rs
    → All P (if b then rs else r ∷ rs)
if-All P true r rs h hs = hs
if-All P false r rs h hs = (h, hs)

-- What an advertisement repeats is read off the table.
pub exported-All :
    (P : Bytes → ℤ → Type 0) (to : Bytes) (rib : Rib)
    → Unique same rib
    → ((d : Bytes) → Holds (λ e. P d e.metric) (lookup same d rib))
    → All (λ r. P r.dest r.metric) (exported to rib)
unfolding exported
exported-All P to [] u h = tt
exported-All P to ((k, e) ∷ rib) u h =
    let head : P k e.metric = rw (lookup_head k e rib) at (h k) in
    if-All (λ r. P r.dest r.metric) (eq_bytes e.next to || leb_ℤ route_infinity e.metric)
      (record { dest = k; metric = e.metric }) (exported to rib) head
      (exported-All P to rib u.1 (λ d. elim (Option-cases (lookup same d rib)) [
        | inl gone ↦ rw gone tt
        | inr (x, found) ↦ rw found (rw (lookup_tail k d e x rib u.0 found) at (h d))
      ]))

one_more : (z : ℤ) (m : ℕ) → z ≡ pos m → z +ℤ pos 1 ≡ pos (suc m)
unfolding ◌+ℤ◌
one_more z m e = rw e (ground arith)

module _ (linked : Bytes → Bytes → Type 0) (is_exit : Bytes → Bool)
    (canonical : (u v : Bytes) → linked u v → advert_key (address v) ≡ some (address v)) where
  canonical_end :
      {m : ℕ} {u v x : Bytes}
      → linked x u
      → Walk linked is_exit m u v
      → advert_key (address v) ≡ some (address v)
  canonical_end l (Walk.stay u) = canonical _ _ l
  canonical_end l (Walk.hop l' w) = canonical_end l' w

  -- A key under which the receiver keeps a destination is the destination.
  key_of_Serves :
      {m : ℕ} {u v x : Bytes} (d k : Bytes)
      → linked x u
      → Walk linked is_exit m u v
      → Serves linked is_exit v d
      → advert_key d ≡ some k
      → d ≡ k
  key_of_Serves d k l w (inl own) e =
      let own_key : advert_key d ≡ some d = rw own (canonical_end l w) in cc (e, own_key)
  key_of_Serves d k l w (inr (default, exit)) e = cc (e, default_key d default)

  pub Heard-Away :
      (to from : Bytes) (r : Advert)
      → linked to from
      → Away linked is_exit from r.dest r.metric
      → Heard (Via linked is_exit to) from r
  Heard-Away to from r l (m, v, e, w, s) k key =
      let same_key = key_of_Serves r.dest k l w s key in
      (m, v, one_more r.metric m e, l, w, rw (← same_key) s)
