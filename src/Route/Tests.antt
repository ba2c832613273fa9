-- ===== src/Route/Tests.antt =====
-- Runs of the routing table, and the theorems at concrete inputs: node `a` hears from `b` about `c`.
use hopscotch.Common.{
  ◌≡◌, ◌≢◌, refl, ap, true, false, none, some, [], ◌∷◌, replicate, arith, ℕ_discrete,
}
use hopscotch.Common.Bytes.{Bytes, same, codes, at}
use hopscotch.Common.Int.{ℤ, pos, ◌+ℤ◌}
use hopscotch.Common.Maps.{lookup, Unique, insert}
use hopscotch.Ip.{ip_string, parse_ip}
use hopscotch.Identity.Address.{ula, is_mesh_ula, is_resolver_ula}
use hopscotch.Route.{
  Rib, Advert, fresh, advert_key, is_default_route_dest, update_rib, ensure_direct, apply_adverts,
  apply_advert, apply_metric, age, age_entry,
}
use hopscotch.Route.Refinement.{lookup-update_rib, entry_after}
use hopscotch.Route.Step.{address, update_rib_once}
use hopscotch.Route.Invariant.{IsValid, update_rib-IsValid}
use hopscotch.Route.Changes.{update_rib_holddown}

abbrev a : Bytes
a = replicate 32 1

abbrev b : Bytes
b = replicate 32 2

abbrev c : Bytes
c = replicate 32 3

-- What a run computes with.
runs : Unit {0}
unfolding update_rib ensure_direct apply_adverts apply_advert apply_metric age age_entry lookup
    insert ◌+ℤ◌ advert_key parse_ip ip_string is_mesh_ula is_resolver_ula same is_default_route_dest
    ula ℕ_discrete
runs = tt

-- The addresses as texts.
abbrev text_b : Bytes
text_b = codes "fd02:202:202:0:202:202:202:202"

abbrev text_c : Bytes
text_c = codes "fd03:303:303:0:303:303:303:303"

address-b : address b ≡ text_b
unfolding runs
address-b = refl

key_c : advert_key text_c ≡ some text_c
unfolding runs
key_c = refl

-- A skewed spelling of an address is kept under its canonical text; others are skipped.
key_upper : advert_key (codes "FD03:303:303:0000:303:303:303:303") ≡ some text_c
unfolding runs
key_upper = refl

key_global : advert_key (codes "2001:db8::1") ≡ none
unfolding runs
key_global = refl

key_resolver : advert_key (codes "fd00::53") ≡ none
unfolding runs
key_resolver = refl

key_default : advert_key (codes "::/0") ≡ some (codes "::/0")
unfolding runs
key_default = refl

abbrev advert_c : ℤ → Advert
advert_c m = record { dest = text_c; metric = m }

-- `b` is a neighbour, and `c` is known through another node at four hops.
abbrev table : Rib
table = (text_b, fresh b (pos 1)) ∷ (text_c, fresh (replicate 32 9) (pos 4)) ∷ []

learned :
    (update_rib a b (advert_c (pos 1) ∷ []) 7 table)
    ≡ ((text_b, fresh b (pos 1)) ∷ (text_c, fresh b (pos 2)) ∷ [], true)
unfolding runs
learned = refl

table-Unique : Unique same table
unfolding lookup same ℕ_discrete
table-Unique = (refl, (refl, tt))

not_self_c : text_c ≢ address a
unfolding runs
not_self_c = λ p. omega (arith, ap (λ (t : Bytes). at t 3) p)

not_peer_c : text_c ≢ address b
unfolding runs
not_peer_c = λ p. omega (arith, ap (λ (t : Bytes). at t 3) p)

not_self_b : address b ≢ address a
unfolding runs
not_self_b = λ p. omega (arith, ap (λ (t : Bytes). at t 3) p)

lookup-update_rib_example :
    lookup same text_c (update_rib a b (advert_c (pos 1) ∷ []) 7 table).0
    ≡ entry_after a b (advert_c (pos 1) ∷ []) 7 text_c (lookup same text_c table)
lookup-update_rib_example =
    lookup-update_rib a b (advert_c (pos 1) ∷ []) 7 table text_c table-Unique

update_rib_once_example :
    lookup same text_c (update_rib a b (advert_c (pos 1) ∷ []) 7 table).0 ≡ some (fresh b (pos 2))
unfolding runs
update_rib_once_example =
    update_rib_once a b 7 table table-Unique text_c [] [] (advert_c (pos 1)) key_c not_self_c
      not_peer_c refl refl

key_b : advert_key text_b ≡ some (address b)
unfolding runs
key_b = refl

table-IsValid : IsValid (address a) table
unfolding runs
table-IsValid = record { unique = table-Unique; bounded = λ d. ground arith; no_self = refl }

update_rib-IsValid_example : IsValid (address a) (update_rib a b (advert_c (pos 1) ∷ []) 7 table).0
update_rib-IsValid_example =
    update_rib-IsValid a b (advert_c (pos 1) ∷ []) 7 table not_self_b table-IsValid

quiet : (update_rib a b [] 7 table).1 ≡ false
unfolding runs
quiet = refl

-- `c` was learned from `b`; half the holddown later it is still in use.
abbrev via_b : Rib
via_b = (text_c, fresh b (pos 2)) ∷ []

via_b-Unique : Unique same via_b
unfolding runs
via_b-Unique = (refl, tt)

update_rib_holddown_example :
    lookup same text_c (update_rib a b [] 1500000000 (update_rib a b [] 10 via_b).0).0
    ≡ some (record { next = b; metric = pos 2; stale = some 10 })
unfolding runs
update_rib_holddown_example =
    update_rib_holddown a b [] [] 10 1500000000 via_b text_c (pos 2) via_b-Unique not_peer_c refl
      refl refl
