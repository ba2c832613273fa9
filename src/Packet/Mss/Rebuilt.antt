-- ===== src/Packet/Mss/Rebuilt.antt =====
-- The parts of a segment with its options rewritten.
use hopscotch.Common.{
  ℕ, ◌+◌, ◌-◌, ◌/◌, ◌%◌, ◌≡◌, ◌≤◌, ◌<◌, ap, sym, ◌∙◌, ◌∷◌, ◌++◌, length, take, drop, arith,
  length-append, length-take, length-drop, drop-append, take-append, drop-drop, get_or-take,
}
use hopscotch.Common.Bytes.{Bytes, at, slice}
use hopscotch.Packet.Mss.{clamp_options, rebuilt, tcp_header_min}
use hopscotch.Packet.Mss.Options.{length-clamp_options}

module _ (mss tcp doff sum : ℕ) (pkt : Bytes) (enough : tcp_header_min ≤ doff)
    (inside : tcp + doff ≤ length pkt) where
  abbrev opts : Bytes
  opts = slice pkt (tcp + 20) (tcp + doff)

  length-front : length (take (tcp + 16) pkt) ≡ tcp + 16
  length-front = omega (arith, length-take (tcp + 16) pkt)

  pub length-opts : length (clamp_options mss doff opts) ≡ doff - 20
  length-opts =
      length-clamp_options mss doff opts
      ∙ omega (
        arith,
        length-take (tcp + doff - (tcp + 20)) (drop (tcp + 20) pkt),
        length-drop (tcp + 20) pkt,
      )

  length-urgent : length (slice pkt (tcp + 18) (tcp + 20)) ≡ 2
  length-urgent =
      omega (
        arith,
        length-take (tcp + 20 - (tcp + 18)) (drop (tcp + 18) pkt),
        length-drop (tcp + 18) pkt,
      )

  pub take-rebuilt : take (tcp + 16) (rebuilt mss tcp doff sum pkt) ≡ take (tcp + 16) pkt
  take-rebuilt = take-append (tcp + 16) (take (tcp + 16) pkt) _ length-front

  pub at-rebuilt : (i : ℕ) → i < tcp + 16 → at (rebuilt mss tcp doff sum pkt) i ≡ at pkt i
  at-rebuilt i h =
      sym (get_or-take (tcp + 16) (rebuilt mss tcp doff sum pkt) i 0 h)
      ∙ ap (λ (t : Bytes). at t i) take-rebuilt
      ∙ get_or-take (tcp + 16) pkt i 0 h

  pub drop-rebuilt :
      drop (tcp + 20) (rebuilt mss tcp doff sum pkt)
      ≡ clamp_options mss doff opts ++ drop (tcp + doff) pkt
  drop-rebuilt =
      ap (λ (t : ℕ). drop t (rebuilt mss tcp doff sum pkt))
        (let e : tcp + 20 ≡ tcp + 16 + 4 = omega arith in e)
      ∙ sym (drop-drop 4 (tcp + 16) (rebuilt mss tcp doff sum pkt))
      ∙ ap (drop 4) (drop-append (tcp + 16) (take (tcp + 16) pkt) _ length-front)
      ∙ drop-append 2 (slice pkt (tcp + 18) (tcp + 20)) _ length-urgent

  pub slice-rebuilt :
      slice (rebuilt mss tcp doff sum pkt) (tcp + 20) (tcp + doff) ≡ clamp_options mss doff opts
  slice-rebuilt =
      ap (take (tcp + doff - (tcp + 20))) drop-rebuilt
      ∙ take-append (tcp + doff - (tcp + 20)) (clamp_options mss doff opts) _
          (length-opts ∙ omega arith)

  pub length-rebuilt : length (rebuilt mss tcp doff sum pkt) ≡ length pkt
  length-rebuilt = omega (
    arith,
    length-append (take (tcp + 16) pkt) (
        (sum / 256 % 256)
        ∷ (sum % 256)
        ∷ (slice pkt (tcp + 18) (tcp + 20)
            ++ (clamp_options mss doff opts ++ drop (tcp + doff) pkt))),
    length-append (slice pkt (tcp + 18) (tcp + 20))
        (clamp_options mss doff opts ++ drop (tcp + doff) pkt),
    length-append (clamp_options mss doff opts) (drop (tcp + doff) pkt),
    length-front,
    length-opts,
    length-urgent,
    length-drop (tcp + doff) pkt,
  )
