-- ===== src/Tun/Setup/Panics.antt =====
-- When the setup of a gateway panics.
use hopscotch.Common.{
  Bool, true, false, not, ◌&&◌, ◌||◌, ◌≡◌, refl, ◌⊎◌, inl, inr, Option, none, some, [], ◌++◌,
  if◌then◌else◌,
}
use hopscotch.Common.Bytes.{Bytes}
use hopscotch.Tun.Setup.{
  Fault, Hook, System, Opts, Ended, hooked, refused, panicked, combine_hooks, rollback, give_up,
  apply_dns, apply, configure, root_hint, listed, listed,
}

abbrev pub is_panicked : {K : Type 0} → Ended K → Bool
is_panicked panicked = true
is_panicked (hooked h) = false
is_panicked (refused f) = false

abbrev pub is_fault : Option Fault → Bool
is_fault none = false
is_fault (some f) = true

abbrev pub no_dns : {K : Type 0} → Fault ⊎ Option (Hook K) → Bool
no_dns (inl f) = true
no_dns (inr h) = false

module _ {K : Type 0} (system : System K) where
  give_up_panics : (f : Fault) (k : K) → is_panicked (give_up system [] f k).1 ≡ true
  unfolding give_up rollback combine_hooks
  give_up_panics f k = refl

  apply_dns_panics : (k : K) → is_panicked (apply_dns system k).1 ≡ no_dns (system.install_dns k).1
  unfolding apply_dns
  apply_dns_panics k =
      elim (system.install_dns k).1
        as (λ r.
          is_panicked
            (elim r as (λ _. K × Ended K) [
              | inl f ↦ give_up system [] f (system.install_dns k).0
              | inr revert ↦
                  let (k'', filter) = system.net_filter (system.install_dns k).0 in
                  (k'', hooked (combine_hooks (listed revert ++ listed filter)))
            ]).1
          ≡ no_dns r) [ inl f ↦ give_up_panics f _ | inr revert ↦ refl ]

  -- By what Configure and StripHopscotchHosts gave, and the states behind them.
  ended_panics :
      (e s : Option Fault) (gateway : Bool) (k1 k2 : K)
      → is_panicked
          (elim e as (λ _. K × Ended K) [
            | some f ↦ (k1, refused (root_hint f))
            | none ↦
                if not gateway
                then (k1, hooked (combine_hooks []))
                else elim s as (λ _. K × Ended K) [
                  | some f ↦ give_up system [] f k2
                  | none ↦ apply_dns system k2
                ]
          ]).1
        ≡ (gateway && not (is_fault e)) && (is_fault s || no_dns (system.install_dns k2).1)
  ended_panics (some f) s true k1 k2 = refl
  ended_panics (some f) s false k1 k2 = refl
  ended_panics none s false k1 k2 = refl
  ended_panics none (some f) true k1 k2 = give_up_panics f k2
  ended_panics none none true k1 k2 = apply_dns_panics k2

  -- apply panics exactly for a gateway whose device was configured, and whose hosts file or DNS then
  -- fails: its rollback calls the function that combineHooks makes of no hooks, which is nil.
  pub apply_panics :
      (name : Bytes) (opts : Opts) (k : K)
      → let (k1, e) = configure system name opts k in
        let (k2, s) = system.strip_hosts k1 in
        is_panicked (apply system name opts k).1
        ≡ (opts.gateway && not (is_fault e)) && (is_fault s || no_dns (system.install_dns k2).1)
  unfolding apply
  apply_panics name opts k = ended_panics _ _ opts.gateway _ _
