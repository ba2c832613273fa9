-- ===== src/Tun/Setup.antt =====
-- internal/tun/tun.go and the Configure of tun_linux.go: a device is opened, configured and, for a
-- gateway, hooked into the host. The calls of the system are an interface.
pub mod Panics
mod Tests
use hopscotch.Common.{
  ℕ, Bool, true, false, not, ◌||◌, ◌⊎◌, inl, inr, Option, none, some, List, [], ◌∷◌, ◌++◌, ◌==◌,
  if◌then◌else◌, replicate,
}
use hopscotch.Common.Bytes.{Bytes}
use hopscotch.Ip.{to4, to16}
use hopscotch.Tun.Netlink.{af_inet, af_inet6, is_nil}
use hopscotch.Tun.Routes.{safe_if_name}

-- An error: the number of one of the system, or another. With rootHint, `need_root`.
pub data Fault : Type 0 where
  errno : ℕ → Fault
  other : Fault
  need_root : Fault → Fault

-- EPERM and EACCES, which errors.Is takes for os.ErrPermission too.
unfoldable pub root_hint : Fault → Fault
root_hint (Fault.errno n) =
    if (n == 1) || (n == 13) then need_root (Fault.errno n) else Fault.errno n
root_hint Fault.other = Fault.other
root_hint (need_root f) = need_root (need_root f)

abbrev pub first_fault : Option Fault → Option Fault → Option Fault
first_fault (some f) later = some f
first_fault none later = later

-- A function that changes the host, and may fail.
abbrev pub Hook : Type 0 → Type 0
Hook K = K → K × Option Fault

-- The last hook first; every one is run, and the first error is kept.
unfoldable pub run_hooks : {K : Type 0} → List (Hook K) → Hook K
run_hooks [] k = (k, none)
run_hooks (h ∷ hs) k =
    let (k', first) = run_hooks hs k in let (k'', now) = h k' in (k'', first_fault first now)

-- Without hooks, a nil function.
unfoldable pub combine_hooks : {K : Type 0} → List (Hook K) → Option (Hook K)
combine_hooks [] = none
combine_hooks (h ∷ hs) = some (run_hooks (h ∷ hs))

pub record Opts : Type 0 where
  pub ip : Bytes
  pub gateway : Bool
  pub plumbing_ip : Bytes
  pub exit : Bool

-- The calls of Configure: the index of the interface, linkUpMTU, nlAddrAdd and nlRouteAdd; and those of
-- apply and Setup.
pub record System (K : Type 0) : Type 0 where
  pub index : K → Option ℕ
  pub link_up : Hook K
  pub addr_add : ℕ → ℕ → Bytes → ℕ → Hook K
  pub route_add : ℕ → ℕ → Bytes → ℕ → Hook K
  pub strip_hosts : Hook K
  pub install_dns : K → K × (Fault ⊎ Option (Hook K))
  pub net_filter : K → K × Option (Hook K)
  pub open_device : K → K × Option Fault
  pub close_device : Hook K

-- One call, and what follows where it works.
abbrev pub then_on : {K : Type 0} → K × Option Fault → Hook K → K × Option Fault
then_on (k, some f) next = (k, some f)
then_on (k, none) next = next k

-- What apply and Setup end with; a call of a nil function panics.
pub data Ended (K : Type 0) : Type 0 where
  hooked : Option (Hook K) → Ended K
  refused : Fault → Ended K
  panicked : Ended K

abbrev pub listed : {K : Type 0} → Option (Hook K) → List (Hook K)
listed none = []
listed (some h) = h ∷ []

module _ {K : Type 0} (system : System K) where
  -- fd00::/8, and 100.64.0.0/10 for an exit.
  unfoldable pub gateway_routes : ℕ → Opts → Hook K
  gateway_routes index opts k =
      then_on (system.route_add index af_inet6 (253 ∷ replicate 15 0) 8 k) (
        if opts.exit
        then system.route_add index af_inet (100 ∷ 64 ∷ 0 ∷ 0 ∷ []) 10
        else (λ k. (k, none)))

  unfoldable pub configure : Bytes → Opts → Hook K
  configure name opts k =
      if is_nil (to16 opts.ip)
      then (k, some Fault.other)
      else if not (safe_if_name name)
      then (k, some Fault.other)
      else elim (system.index k) [
        | none ↦ (k, some Fault.other)
        | some index ↦ then_on (system.link_up k) (λ k.
            then_on (system.addr_add index af_inet6 (to16 opts.ip) 128 k) (λ k.
              then_on
                (if is_nil (to4 opts.plumbing_ip)
                  then (k, none)
                  else system.addr_add index af_inet (to4 opts.plumbing_ip) 32 k)
                (if opts.gateway then gateway_routes index opts else (λ k. (k, none)))))
      ]

  -- The rollback of apply; `none` is a panic.
  unfoldable pub rollback : List (Hook K) → K → Option K
  rollback hooks k = elim (combine_hooks hooks) [ none ↦ none | some h ↦ some (h k).0 ]

  -- return nil, rootHint(err), behind the rollback
  unfoldable pub give_up : List (Hook K) → Fault → K → K × Ended K
  give_up hooks f k = elim (rollback hooks k) [
    | none ↦ (k, panicked)
    | some k' ↦ (k', refused (root_hint f))
  ]

  -- From InstallDNS on.
  unfoldable pub apply_dns : K → K × Ended K
  apply_dns k =
      let (k', r) = system.install_dns k in
      elim r [
        | inl f ↦ give_up [] f k'
        | inr revert ↦
            let (k'', filter) = system.net_filter k' in
            (k'', hooked (combine_hooks (listed revert ++ listed filter)))
      ]

  unfoldable pub apply : Bytes → Opts → K → K × Ended K
  apply name opts k =
      let (k1, e) = configure name opts k in
      let (k2, s) = system.strip_hosts k1 in
      elim e [
        | some f ↦ (k1, refused (root_hint f))
        | none ↦
            if not opts.gateway
            then (k1, hooked (combine_hooks []))
            else elim s [ some f ↦ give_up [] f k2 | none ↦ apply_dns k2 ]
      ]

  unfoldable pub setup : Bytes → Opts → K → K × Ended K
  setup name opts k =
      let (k1, e) = system.open_device k in
      let (k2, r) = apply name opts k1 in
      elim e [
        | some f ↦ (k1, refused (root_hint f))
        | none ↦ elim r [
          | refused f ↦ ((system.close_device k2).0, refused f)
          | panicked ↦ (k2, panicked)
          | hooked h ↦ (k2, hooked h)
        ]
      ]

  -- Close of the device that Setup gives.
  unfoldable pub close_hooked : Option (Hook K) → Hook K
  close_hooked none k = system.close_device k
  close_hooked (some h) k = system.close_device (h k).0
