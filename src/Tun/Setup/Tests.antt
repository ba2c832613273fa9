-- ===== src/Tun/Setup/Tests.antt =====
-- A system without hosts file, and the theorem on it.
use hopscotch.Common.{
  ◌≡◌, refl, Bool, true, false, not, ◌&&◌, ◌||◌, inr, none, some, List, [], ◌∷◌, replicate, ℕ,
  ℕ_discrete, if◌then◌else◌,
}
use hopscotch.Common.Bytes.{Bytes, same, codes}
use hopscotch.Ip.{to4, to16}
use hopscotch.Tun.Routes.{safe_if_name}
use hopscotch.Tun.Setup.{
  Fault, Hook, System, Opts, Ended, panicked, hooked, run_hooks, combine_hooks, rollback, give_up,
  apply_dns, apply, configure, gateway_routes, setup, close_hooked,
}
use hopscotch.Tun.Setup.Panics.{apply_panics, is_panicked, is_fault, no_dns}

-- The calls, the last of them first.
abbrev Log : Type 0
Log = List ℕ

abbrev works : ℕ → Hook Log
works n k = (n ∷ k, none)

abbrev system : Bool → System Log
system readable = record {
  index = λ k. some 7;
  link_up = works 1;
  addr_add = λ index family ip ones. works 2;
  route_add = λ index family dst ones. works 3;
  strip_hosts = λ k. if readable then (4 ∷ k, none) else (4 ∷ k, some (Fault.errno 30));
  install_dns = λ k. (5 ∷ k, inr (some (works 50)));
  net_filter = λ k. (6 ∷ k, some (works 60));
  open_device = works 7;
  close_device = works 8;
}

abbrev opts : Opts
opts = record { ip = 253 ∷ replicate 15 1; gateway = true; plumbing_ip = []; exit = false }

abbrev name : Bytes
name = codes "hopscotch0"

runs : Unit {0}
unfolding run_hooks combine_hooks rollback give_up apply_dns apply configure gateway_routes setup
    close_hooked safe_if_name to4 to16 same ℕ_discrete
runs = tt

-- On a hosts file that cannot be written, Setup panics, and the device is left open.
panics : setup (system false) name opts [] ≡ (4 ∷ 3 ∷ 2 ∷ 1 ∷ 7 ∷ [], panicked)
unfolding runs
panics = refl

-- The hooks of a device run in the reverse of their order, and then it is closed.
abbrev closing : Log × Ended Log → Log
closing (k, hooked h) = (close_hooked (system true) h k).0
closing (k, Ended.refused f) = k
closing (k, panicked) = k

hooks_then_close :
    closing (setup (system true) name opts []) ≡ 8 ∷ 50 ∷ 60 ∷ 6 ∷ 5 ∷ 4 ∷ 3 ∷ 2 ∷ 1 ∷ 7 ∷ []
unfolding runs
hooks_then_close = refl

apply_panics_example :
    let (k1, e) = configure (system false) name opts [] in
    let (k2, s) = (system false).strip_hosts k1 in
    is_panicked (apply (system false) name opts []).1
    ≡ (opts.gateway && not (is_fault e)) && (is_fault s || no_dns ((system false).install_dns k2).1)
apply_panics_example = apply_panics (system false) name opts []
