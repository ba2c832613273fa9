-- ===== src/Tun/Routes/Laws.antt =====
-- What the code relies on of a host's routes, and what reverting routes does under it.
use hopscotch.Common.{
  ℕ, ◌≡◌, ◌≢◌, refl, ◌⊎◌, inl, inr, none, some, append_assoc, append-nil, List, [], ◌∷◌, ◌++◌, All,
}
use mathlib.Core.Path.{subst}
use hopscotch.Common.Bytes.{Bytes}
use hopscotch.Tun.Netlink.{RouteSpec}
use hopscotch.Tun.Request.{RequestError}
use hopscotch.Tun.Routes.{Host, revert_routes, install_routes}

-- The host has one route of a family to a prefix.
abbrev pub key : RouteSpec → ℕ × (Bytes × ℕ)
key s = (s.family, (s.dst, s.ones))

-- A replacement that fails adds nothing; one that works adds the route and keeps those of another
-- prefix. A deletion adds nothing, and one that works leaves the route out.
pub record IsHost {K : Type 0} (host : Host K) (Has : K → RouteSpec → Type 0) : Type 0 where
  pub adds : (k : K) (s q : RouteSpec) → Has (host.replace k s).0 q → Has k q ⊎ (q ≡ s)
  pub refuses :
      (k : K) (s q : RouteSpec) (e : RequestError)
      → (host.replace k s).1 ≡ some e
      → Has (host.replace k s).0 q
      → Has k q
  pub replaces : (k : K) (s : RouteSpec) → (host.replace k s).1 ≡ none → Has (host.replace k s).0 s
  pub keeps :
      (k : K) (s q : RouteSpec)
      → (host.replace k s).1 ≡ none
      → key q ≢ key s
      → Has k q
      → Has (host.replace k s).0 q
  pub lessens : (k : K) (s q : RouteSpec) → Has (host.delete k s).0 q → Has k q
  pub deletes : (k : K) (s : RouteSpec) → (host.delete k s).1 ≡ none → ¬ Has (host.delete k s).0 s

-- No deletion is refused.
abbrev pub MayDelete : {K : Type 0} → Host K → Type 0
MayDelete {K} host = (k : K) (s : RouteSpec) → (host.delete k s).1 ≡ none

-- A route that is none of a list.
abbrev pub Outside : RouteSpec → List RouteSpec → Type 0
Outside q specs = All (λ s. q ≢ s) specs

Outside-append_left : (q : RouteSpec) (xs ys : List RouteSpec) → Outside q (xs ++ ys) → Outside q xs
Outside-append_left q [] ys h = tt
Outside-append_left q (x ∷ xs) ys h = (h.0, Outside-append_left q xs ys h.1)

Outside-append_last : (q s : RouteSpec) (xs : List RouteSpec) → Outside q (xs ++ (s ∷ [])) → q ≢ s
Outside-append_last q s [] h = h.0
Outside-append_last q s (x ∷ xs) h = Outside-append_last q s xs h.1

module _ {K : Type 0} (host : Host K) (Has : K → RouteSpec → Type 0) (laws : IsHost host Has) where
  -- What is there after a reversal was there before, and is none of its routes.
  pub revert_routes-Outside :
      MayDelete host
      → (k : K) (specs : List RouteSpec) (q : RouteSpec) → Has (revert_routes host k specs).0 q
      → Has k q × Outside q specs
  unfolding revert_routes
  revert_routes-Outside may k [] q h = (h, tt)
  revert_routes-Outside may k (s ∷ specs) q h =
      let k' = (revert_routes host k specs).0 in
      let before = revert_routes-Outside may k specs q (laws.lessens k' s q h) in
      (
        before.0,
        (λ e. laws.deletes k' s (may k' s) (subst (Has (host.delete k' s).0) e h), before.1),
      )

  -- Every route but those of `Base` is one that was installed.
  abbrev pub OnlyNew : (RouteSpec → Type 0) → K → List RouteSpec → Type 0
  OnlyNew Base k done = (q : RouteSpec) → Has k q → Base q ⊎ (¬ Outside q done)

  install_one :
      (Base : RouteSpec → Type 0) (k : K) (s : RouteSpec) (done : List RouteSpec)
      → OnlyNew Base k done
      → OnlyNew Base (host.replace k s).0 (done ++ (s ∷ []))
  install_one Base k s done new q h = elim (laws.adds k s q h) [
    | inr e ↦ inr (λ outside. Outside-append_last q s done outside e)
    | inl old ↦ elim (new q old) [
      | inl base ↦ inl base
      | inr fresh ↦ inr (λ outside. fresh (Outside-append_left q done (s ∷ []) outside))
    ]
  ]

  -- How the loop ends: undone, or with the routes that it was given after those before, and only
  -- those new.
  pub data Ended (Base Undone : RouteSpec → Type 0) (specs : List RouteSpec)
      : K × (RequestError ⊎ List RouteSpec) → Type 0 where
    undone :
        (k : K) (e : RequestError)
        → ((q : RouteSpec) → Has k q → Undone q)
        → Ended Base Undone specs (k, inl e)
    installed : (k : K) → OnlyNew Base k specs → Ended Base Undone specs (k, inr specs)

  module _ (Base Undone : RouteSpec → Type 0) (undo : K → List RouteSpec → K)
      (undoes : (k : K) (done : List RouteSpec)
        → OnlyNew Base k done
        → (q : RouteSpec) → Has (undo k done) q
        → Undone q) where
    pub install_routes-Ended :
        (k : K) (ss done : List RouteSpec)
        → OnlyNew Base k done
        → Ended Base Undone (done ++ ss) (install_routes host undo k ss done)
    unfolding install_routes
    install_routes-Ended k [] done new = rw (append-nil done) (installed k new)
    install_routes-Ended k (s ∷ ss) done new =
        let k' = (host.replace k s).0 in
        elim (host.replace k s).1
            as (λ o.
              (host.replace k s).1 ≡ o
              → Ended Base Undone (done ++ s ∷ ss) (elim o [
                | some why ↦ (undo k' done, inl why)
                | none ↦ install_routes host undo k' ss (done ++ (s ∷ []))
              ])) [
                | some e ↦ λ bad.
                    undone (undo k' done) e
                      (undoes k' done (λ q h. new q (laws.refuses k s q e bad h)))
                | none ↦ λ fine.
                    rw (← append_assoc done (s ∷ []) ss) (
                      install_routes-Ended k' ss (done ++ (s ∷ [])) (install_one Base k s done new))
              ]
          refl
