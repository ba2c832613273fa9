-- ===== src/Config/Parsed.antt =====
-- The peers of a configuration: which entries Load accepts, and as what.
use mathlib.Core.Path.{ap₂, subst}
use hopscotch.Common.{
  ℕ, ◌+◌, ◌≡◌, refl, sym, ap, ◌∙◌, ◌⊎◌, inl, inr, false, some, List, [], ◌∷◌, Bool-cases,
  Option-cases, arith,
}
use hopscotch.Common.Bytes.{Bytes, codes}
use hopscotch.Identity.Hex.{parse_public_key}
use hopscotch.Endpoint.{Endpoint, to_string}
use hopscotch.Endpoint
use hopscotch.Peers.{Peer, Result}
use hopscotch.Config.{
  RawPeer, bad_pubkey, missing_addr, is_empty, parse_key, parse_peer, parse_peers,
}

-- The key of a peer: none, or the one that its text gives.
abbrev pub HasKey : Bytes → Bytes → Type 0
HasKey [] key = key ≡ []
HasKey (c ∷ cs) key = parse_public_key (c ∷ cs) ≡ some key

-- A peer with the canonical form of its address.
pub record IsPeerOf (rp : RawPeer) (p : Peer) : Type 0 where
  pub given : is_empty rp.addr ≡ false
  pub endpoint : Endpoint
  pub parsed : Endpoint.parse rp.addr (codes "udp") ≡ some endpoint
  pub canonical : p.addr ≡ to_string endpoint
  pub keyed : HasKey rp.pubkey p.key

abbrev pub ArePeersOf : List RawPeer → List Peer → Type 0
ArePeersOf [] [] = Unit {0}
ArePeersOf [] (p ∷ ps) = ⊥
ArePeersOf (rp ∷ rps) [] = ⊥
ArePeersOf (rp ∷ rps) (p ∷ ps) = IsPeerOf rp p × ArePeersOf rps ps

pub Result-cases :
    {E A : Type 0} (r : Result E A) → ((e : E) × (r ≡ Result.err e)) ⊎ ((a : A) × (r ≡ Result.ok a))
Result-cases (Result.err e) = inl (e, refl)
Result-cases (Result.ok a) = inr (a, refl)

parse_key_lem :
    (addr text : Bytes) (p : Peer)
    → parse_key addr text ≡ Result.ok p
    → (p.addr ≡ addr) × HasKey text p.key
unfolding parse_key
parse_key_lem addr [] p e =
    let here : record { addr = addr; key = [] } ≡ p = cc e in
    (ap (λ (q : Peer). q.addr) (sym here), ap (λ (q : Peer). q.key) (sym here))
parse_key_lem addr (c ∷ cs) p e = elim (Option-cases (parse_public_key (c ∷ cs))) [
  | inl bad ↦
      let refused : Result.err bad_pubkey ≡ Result.ok p = rw (bad, parse_key) at e in
      absurd (cc refused)
  | inr (key, fine) ↦
      let taken : Result.ok (record { addr = addr; key = key }) ≡ Result.ok p =
        rw (fine, parse_key) at e in
      let here : record { addr = addr; key = key } ≡ p = cc taken in
      (ap (λ (q : Peer). q.addr) (sym here), fine ∙ ap (λ (q : Peer). some q.key) here)
]

parse_key_fine :
    (addr text : Bytes) (p : Peer)
    → p.addr ≡ addr
    → HasKey text p.key
    → parse_key addr text ≡ Result.ok p
unfolding parse_key
parse_key_fine addr [] p e h = ap₂ (λ a k. Result.ok record { addr = a; key = k }) (sym e) (sym h)
parse_key_fine addr (c ∷ cs) p e h =
    rw (h, parse_key) (ap (λ a. Result.ok record { addr = a; key = p.key }) (sym e))

parse_peer_lem : (rp : RawPeer) (p : Peer) → parse_peer rp ≡ Result.ok p → IsPeerOf rp p
unfolding parse_peer
parse_peer_lem rp p e = elim (Bool-cases (is_empty rp.addr)) [
  | inl missing ↦
      let refused : Result.err missing_addr ≡ Result.ok p = ground (arith, e, missing) in
      absurd (cc refused)
  | inr given ↦ elim (Option-cases (Endpoint.parse rp.addr (codes "udp"))) [
    | inl bad ↦ absurd (ground (arith, e, given, bad))
    | inr (ep, parsed) ↦
        let keyed : parse_key (to_string ep) rp.pubkey ≡ Result.ok p =
          ground (arith, e, given, parsed) in
        let (addr, key) = parse_key_lem (to_string ep) rp.pubkey p keyed in
        record { given = given; endpoint = ep; parsed = parsed; canonical = addr; keyed = key }
  ]
]

parse_peer_fine : (rp : RawPeer) (p : Peer) → IsPeerOf rp p → parse_peer rp ≡ Result.ok p
unfolding parse_peer
parse_peer_fine rp p h = ground (
  arith,
  h.given,
  h.parsed,
  parse_key_fine (to_string h.endpoint) rp.pubkey p h.canonical h.keyed,
)

pub parse_peers_lem :
    (i : ℕ) (rps : List RawPeer) (ps : List Peer)
    → parse_peers i rps ≡ Result.ok ps
    → ArePeersOf rps ps
unfolding parse_peers
parse_peers_lem i [] [] e = tt
parse_peers_lem i [] (p ∷ ps) e = absurd (cc e)
parse_peers_lem i (rp ∷ rps) ps e = elim (Result-cases (parse_peer rp)) [
  | inl (why, bad) ↦ absurd (ground (arith, e, bad))
  | inr (p, fine) ↦ elim (Result-cases (parse_peers (i + 1) rps)) [
    | inl (why, bad) ↦ absurd (ground (arith, e, fine, bad))
    | inr (qs, rest) ↦
        let whole : ps ≡ p ∷ qs = ground (arith, e, fine, rest) in
        subst (λ t. ArePeersOf (rp ∷ rps) t) (sym whole)
          (parse_peer_lem rp p fine, parse_peers_lem (i + 1) rps qs rest)
  ]
]

pub parse_peers_fine :
    (i : ℕ) (rps : List RawPeer) (ps : List Peer)
    → ArePeersOf rps ps
    → parse_peers i rps ≡ Result.ok ps
unfolding parse_peers
parse_peers_fine i [] [] h = refl
parse_peers_fine i [] (p ∷ ps) h = absurd h
parse_peers_fine i (rp ∷ rps) [] h = absurd h
parse_peers_fine i (rp ∷ rps) (p ∷ ps) h =
    ground (arith, parse_peer_fine rp p h.0, parse_peers_fine (i + 1) rps ps h.1)
