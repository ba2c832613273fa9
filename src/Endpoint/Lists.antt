-- ===== src/Endpoint/Lists.antt =====
-- What the lists of addresses hold.
use hopscotch.Common.{
  ◌≡◌, Bool, true, false, ◌||◌, List, [], ◌∷◌, arith, Option-cases, Bool-cases, inl, inr, length,
  ◌==◌,
}
use hopscotch.Common.Bytes.{Bytes, same, codes}
use hopscotch.Identity.Names
use hopscotch.Identity.Names.Laws.{Distinct, append-Distinct}
use hopscotch.Endpoint.{
  parse, to_string, add_addr, add_addrs, canonical_addrs, is_self_addr, peer_addrs,
}

add_addr-Distinct : (s : Bytes) (out : List Bytes) → Distinct out → Distinct (add_addr s out)
add_addr-Distinct s out d = elim (Option-cases (parse s (codes "udp"))) [
  | inl bad ↦ rw (bad, add_addr) d
  | inr (e, good) ↦ elim (Bool-cases (Names.seen (to_string e) out)) [
    | inl old ↦ rw (good, old, add_addr) d
    | inr new ↦ rw (good, new, add_addr) (append-Distinct (to_string e) out new d)
  ]
]

add_addrs-Distinct : (ss out : List Bytes) → Distinct out → Distinct (add_addrs ss out)
add_addrs-Distinct [] out d = d
add_addrs-Distinct (s ∷ ss) out d =
    add_addrs-Distinct ss (add_addr s out) (add_addr-Distinct s out d)

-- No address stands twice in what canonicalAddrs returns.
pub canonical_addrs-Distinct : (addrs : List Bytes) → Distinct (canonical_addrs addrs)
unfolding canonical_addrs
canonical_addrs-Distinct addrs = add_addrs-Distinct addrs [] tt

dialled :
    (addr p : Bytes) (rest : List Bytes) (skip : Bytes → Bool)
    → skip p ≡ false
    → (Names.seen addr rest ≡ true → skip addr ≡ false)
    → Names.seen addr (p ∷ rest) ≡ true
    → skip addr ≡ false
dialled addr p rest skip kept later h = elim (same addr p) [
  | yes e ↦ rw e kept
  | no other ↦ later (ground (arith, h, other))
]

-- Every address that peerAddrs lists is nonempty and none of the node's own.
pub peer_addrs_lem :
    (advertise peers : List Bytes) (addr : Bytes)
    → Names.seen addr (peer_addrs advertise peers) ≡ true
    → (length addr == 0 || is_self_addr advertise addr) ≡ false
unfolding peer_addrs
peer_addrs_lem advertise [] addr h = absurd (ground (arith, h))
peer_addrs_lem advertise (p ∷ peers) addr h =
    let skip = λ (t : Bytes). length t == 0 || is_self_addr advertise t in
    let later = peer_addrs_lem advertise peers addr in
    elim (Bool-cases (length p == 0 || is_self_addr advertise p)) [
      | inl skipped ↦ later (rw (skipped, peer_addrs) at h)
      | inr kept ↦
          dialled addr p (peer_addrs advertise peers) skip kept later (rw (kept, peer_addrs) at h)
    ]
