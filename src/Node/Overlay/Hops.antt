-- ===== src/Node/Overlay/Hops.antt =====
-- What a packet keeps on its way over a node, and the rounds that handling it takes.
use hopscotch.Common.{
  ℕ, zero, suc, ◌+◌, ◌-◌, ◌*◌, ◌/◌, ◌≡◌, ◌≤◌, refl, ap, sym, ◌∙◌, false, none, some, [], ◌∷◌, leb,
  length, take, drop, arith,
}
use hopscotch.Common.Bytes.{Bytes, at, slice}
use hopscotch.Session.{Session}
use hopscotch.Packet.Build.{parse_ipv6}
use hopscotch.Packet.Mss.{clamp_tcp_mss, tcp_mss, rebuilt}
use hopscotch.Packet.Mss.Rebuilt.{take-rebuilt, at-rebuilt, length-rebuilt}
use hopscotch.Packet.Mss.Segment.{clamp_tcp_mss_outcomes, length-clamp_tcp_mss}
use hopscotch.Node.{Node}
use hopscotch.Node.Routing.{next_hop}
use hopscotch.Node.Overlay.{Network, write_packet, send_on, forward, decrement}

take-take : (k m : ℕ) (xs : Bytes) → k ≤ m → take k (take m xs) ≡ take k xs
take-take zero m xs h = refl
take-take (suc k) zero xs h = absurd (omega arith)
take-take (suc k) (suc m) [] h = refl
take-take (suc k) (suc m) (x ∷ xs) h = ap (λ t. x ∷ t) (take-take k m xs (omega arith))

take-drop-take :
    (k j m : ℕ) (xs : Bytes) → j + k ≤ m → take k (drop j (take m xs)) ≡ take k (drop j xs)
take-drop-take k zero m xs h = take-take k m xs (omega arith)
take-drop-take k (suc j) zero xs h = absurd (omega arith)
take-drop-take k (suc j) (suc m) [] h = refl
take-drop-take k (suc j) (suc m) (x ∷ xs) h = take-drop-take k j m xs (omega arith)

-- Clamping changes neither the destination nor the hop limit.
parse_ipv6-clamp_tcp_mss :
    (pkt : Bytes) (mss : ℕ) → parse_ipv6 (clamp_tcp_mss pkt mss) ≡ parse_ipv6 pkt
unfolding parse_ipv6
parse_ipv6-clamp_tcp_mss pkt mss =
    let doff = at pkt 52 / 16 * 4 in
    clamp_tcp_mss_outcomes (λ t. parse_ipv6 t ≡ parse_ipv6 pkt) pkt mss refl
      (λ enough inside sum.
        let kept = at-rebuilt mss 40 doff sum pkt enough inside in
        let dst : slice (rebuilt mss 40 doff sum pkt) 24 40 ≡ slice pkt 24 40 =
          sym (take-drop-take 16 24 56 (rebuilt mss 40 doff sum pkt) (omega arith))
          ∙ ap (λ (t : Bytes). take 16 (drop 24 t)) (take-rebuilt mss 40 doff sum pkt enough inside)
          ∙ take-drop-take 16 24 56 pkt (omega arith) in
        rw
          (
            parse_ipv6,
            length-rebuilt mss 40 doff sum pkt enough inside,
            kept 0 (omega arith),
            kept 7 (omega arith),
            dst,
          )
          refl)

long_of_parse : (pkt dst : Bytes) (hop : ℕ) → parse_ipv6 pkt ≡ some (dst, hop) → 40 ≤ length pkt
unfolding parse_ipv6
long_of_parse pkt dst hop h = ground (arith, h)

parse_ipv6-decrement :
    (pkt dst : Bytes) (hop : ℕ)
    → 8 ≤ length pkt
    → parse_ipv6 pkt ≡ some (dst, hop)
    → (parse_ipv6 (decrement pkt) ≡ some (dst, hop - 1)) × (length (decrement pkt) ≡ length pkt)
unfolding parse_ipv6
parse_ipv6-decrement (a ∷ b ∷ c ∷ d ∷ e ∷ f ∷ g ∷ x ∷ pkt) dst hop long h =
    (ground (arith, h), omega arith)
parse_ipv6-decrement _ dst hop long h = absurd (omega arith)

-- A transit packet leaves over the next hop with its destination, its length, and a hop limit that
-- is one less, if its hop limit is at least 2 and the write on the next hop works.
pub forward_hops :
    (net : Network) (n : Node) (from next : Session) (pkt dst : Bytes) (hop : ℕ)
    → parse_ipv6 pkt ≡ some (dst, hop)
    → 2 ≤ hop
    → next_hop n dst (some from) ≡ some next
    → (write_packet net next (clamp_tcp_mss (decrement pkt) tcp_mss)).1 ≡ none
    → (out : Bytes) × (forward net n (some from) pkt dst hop ≡ (write_packet net next out).0)
      × (parse_ipv6 out ≡ some (dst, hop - 1))
      × (length out ≡ length pkt)
unfolding forward send_on
forward_hops net n from next pkt dst hop parsed enough route wrote =
    let (kept, len) =
      parse_ipv6-decrement pkt dst hop (omega (arith, long_of_parse pkt dst hop parsed)) parsed in
    let young : leb hop 1 ≡ false = ground arith in
    (
      clamp_tcp_mss (decrement pkt) tcp_mss,
      rw (young, forward, route, send_on, wrote) refl,
      parse_ipv6-clamp_tcp_mss (decrement pkt) tcp_mss ∙ kept,
      length-clamp_tcp_mss (decrement pkt) tcp_mss ∙ len,
    )
