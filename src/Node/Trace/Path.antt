-- ===== src/Node/Trace/Path.antt =====
-- The hops of a traceroute.
use hopscotch.Common.{
  ℕ, ◌+◌, ◌≡◌, ◌≤◌, ◌≢◌, true, false, ◌&&◌, some, List, ◌∷◌, ◌++◌, ltb, length, get_elem?, ◌⊎◌,
}
use hopscotch.Common.Bytes.{Bytes, at, slice}
use hopscotch.Ip.{ip_equal, ip_string}
use hopscotch.Identity.Address.{ula}
use hopscotch.Node.{Node}
use hopscotch.Node.Trace.{HopReply, TraceHop, TraceResult, reply_of, reached}

-- A packet of the tap, addressed to the node, that ends a wait.
pub record AnsweredBy (n : Node) (hop : TraceHop) (pkts : List Bytes) : Type 0 where
  pub before : List Bytes
  pub pkt : Bytes
  pub later : List Bytes
  pub heard : pkts ≡ before ++ pkt ∷ later
  pub for_node : ip_equal (slice pkt 24 40) (ula n.id) ≡ true
  pub reply : hop.reply ≡ reply_of (at pkt 40)
  pub known : hop.reply ≢ HopReply.none_yet
  pub sender : hop.ula ≡ ip_string (slice pkt 8 24)

-- Timed out without a reply, or answered.
abbrev pub IsHop : Node → TraceHop → List Bytes → Type 0
IsHop n hop pkts =
    ((hop.timeout ≡ true) × (hop.reply ≡ HopReply.none_yet))
    ⊎ ((hop.timeout ≡ false) × AnsweredBy n hop pkts)

-- The hops of `fuel` probes from the hop limit `ttl` on.
pub record IsTrace (n : Node) (tap : ℕ → List Bytes) (fuel ttl : ℕ) (r : TraceResult) : Type 0 where
  pub numbered :
      (i : ℕ) (hop : TraceHop)
      → get_elem? r.hops i ≡ some hop
      → (hop.ttl ≡ ttl + i) × IsHop n hop (tap (ttl + i))
  pub few : length r.hops ≤ fuel
  pub all_sent : r.reach ≡ false → length r.hops ≡ fuel
  pub some_hop : r.reach ≡ true → 1 ≤ length r.hops
  -- only the last hop is the destination's, and only if it was reached
  pub last :
      (i : ℕ) (hop : TraceHop)
      → get_elem? r.hops i ≡ some hop
      → reached hop.reply ≡ ltb (length r.hops) (i + 2) && r.reach
