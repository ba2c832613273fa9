-- ===== src/Packet/Checksum/Verify.antt =====
-- A packet into which the checksum of its blank form is written has checksum 0.
use hopscotch.Common.{
  ℕ, Bool-cases, inl, inr, ◌+◌, ◌-◌, ◌/◌, ◌%◌, ◌≡◌, ◌<◌, ◌∷◌, ◌++◌, length, arith, All, take, drop,
  ap, ◌∙◌, ◌==◌, length-append, length-drop, drop-append, drop-append_le, take-append, All-drop,
  All-append, if◌then◌else◌, true, false,
}
use hopscotch.Common.Bytes.{Bytes, IsByte, slice}
use hopscotch.Packet.Checksum.{complement, add32, pseudo_sum, transport_checksum, next_header_udp}
use hopscotch.Packet.Checksum.Fold.{
  total, total-le, total_filled, IsEven, sum_words-total, complement_completes,
  complement_completes_ffff, complement-lt,
}

-- The sum without wrapping, of a header and what follows it.
abbrev plain_sum : Bytes → Bytes → ℕ → ℕ
plain_sum h r proto = total (drop 8 h) + length r / 65536 + length r % 65536 + proto + total r

slice_header : (h r : Bytes) → length h ≡ 40 → slice (h ++ r) 8 40 ≡ drop 8 h
slice_header h r e =
    ap (take 32) (drop-append_le 8 h r (omega arith))
    ∙ take-append 32 (drop 8 h) r (omega (arith, length-drop 8 h))

plain_sum-lt :
    (h r : Bytes) (proto : ℕ)
    → length h ≡ 40
    → All IsByte h
    → All IsByte r
    → length r < 65536
    → proto < 256
    → plain_sum h r proto < 2200000000
plain_sum-lt h r proto e hb rb fits small =
    omega (arith, total-le (drop 8 h) (All-drop IsByte 8 h hb), total-le r rb, length-drop 8 h)

pseudo_sum-plain :
    (h r : Bytes) (proto : ℕ)
    → length h ≡ 40
    → All IsByte h
    → All IsByte r
    → length r < 65536
    → proto < 256
    → pseudo_sum (h ++ r) proto ≡ plain_sum h r proto
unfolding pseudo_sum
pseudo_sum-plain h r proto e hb rb fits small =
    let bound = plain_sum-lt h r proto e hb rb fits small in
    rw
      (
        slice_header h r e,
        drop-append 40 h r e,
        length-append h r,
        e,
        sum_words-total 0 (drop 8 h) (omega arith),
      )
      (rw
        (sum_words-total
          (add32
            (add32 (add32 (0 + total (drop 8 h)) ((40 + length r - 40) / 65536))
              ((40 + length r - 40) % 65536))
            proto)
          r (omega arith))
        (omega arith))

checksum_other :
    (p : Bytes) (proto : ℕ)
    → (proto == next_header_udp) ≡ false
    → transport_checksum p proto ≡ complement (pseudo_sum p proto)
unfolding transport_checksum
checksum_other p proto h = rw h

checksum_udp :
    (p : Bytes) (proto : ℕ)
    → (proto == next_header_udp) ≡ true
    → transport_checksum p proto
      ≡ (if complement (pseudo_sum p proto) == 0 then 65535 else complement (pseudo_sum p proto))
unfolding transport_checksum
checksum_udp p proto h = rw h

completes_udp :
    (sum : ℕ)
    → sum < 2200000000
    → complement (sum + (if complement sum == 0 then 65535 else complement sum)) ≡ 0
completes_udp sum h = elim (Bool-cases (complement sum == 0)) [
  | inl z ↦ rw z (complement_completes_ffff sum (omega arith) (ground arith))
  | inr n ↦ rw n (complement_completes sum (omega arith))
]

checksum_bound : (p : Bytes) (proto : ℕ) → transport_checksum p proto < 65536
unfolding transport_checksum
checksum_bound p proto = ground (arith, complement-lt (pseudo_sum p proto))

module _ (h xs ys : Bytes) (proto : ℕ) (header : length h ≡ 40) (even : IsEven xs)
    (small : proto < 256) (h_bytes : All IsByte h) (x_bytes : All IsByte xs)
    (y_bytes : All IsByte ys) (fits : length xs + length ys < 65500) where
  abbrev with_word : ℕ → Bytes
  with_word w = h ++ (xs ++ ((w / 256 % 256) ∷ (w % 256) ∷ ys))

  tail : ℕ → Bytes
  tail w = xs ++ ((w / 256 % 256) ∷ (w % 256) ∷ ys)

  length-tail : (w : ℕ) → length (tail w) ≡ length xs + length ys + 2
  unfolding tail
  length-tail w = omega (arith, length-append xs ((w / 256 % 256) ∷ (w % 256) ∷ ys))

  tail_bytes : (w : ℕ) → All IsByte (tail w)
  unfolding tail
  tail_bytes w = All-append IsByte xs _ x_bytes (omega arith, (omega arith, y_bytes))

  pseudo_sum_word :
      (w : ℕ) → w < 65536 → pseudo_sum (with_word w) proto ≡ pseudo_sum (with_word 0) proto + w
  unfolding tail
  pseudo_sum_word w hw =
      rw
        (
          pseudo_sum-plain h (tail w) proto header h_bytes (tail_bytes w)
              (omega (arith, length-tail w)) small,
          pseudo_sum-plain h (tail 0) proto header h_bytes (tail_bytes 0)
              (omega (arith, length-tail 0)) small,
        )
        (omega (arith, total_filled xs ys w even hw, length-tail w, length-tail 0))

  blank_bound : pseudo_sum (with_word 0) proto < 2200000000
  unfolding tail
  blank_bound =
      rw
        (pseudo_sum-plain h (tail 0) proto header h_bytes (tail_bytes 0)
          (omega (arith, length-tail 0)) small)
        (plain_sum-lt h (tail 0) proto header h_bytes (tail_bytes 0) (omega (arith, length-tail 0))
          small)

  -- Any protocol but UDP: the finished packet's checksum comes out as 0.
  pub transport_checksum_filled :
      (proto == next_header_udp) ≡ false
      → transport_checksum (with_word (transport_checksum (with_word 0) proto)) proto ≡ 0
  unfolding transport_checksum
  transport_checksum_filled other =
      let blank = with_word 0 in
      let c = transport_checksum blank proto in
      checksum_other (with_word c) proto other
      ∙ ap complement (
          pseudo_sum_word c (checksum_bound blank proto)
          ∙ ap (λ (t : ℕ). pseudo_sum blank proto + t) (checksum_other blank proto other))
      ∙ complement_completes (pseudo_sum blank proto) (omega (arith, blank_bound))

  -- UDP: the finished packet's checksum comes out as 0, which is written 0xffff.
  pub transport_checksum_filled_udp :
      (proto == next_header_udp) ≡ true
      → transport_checksum (with_word (transport_checksum (with_word 0) proto)) proto ≡ 65535
  transport_checksum_filled_udp udp =
      let blank = with_word 0 in
      let c = transport_checksum blank proto in
      let zero_sum : complement (pseudo_sum (with_word c) proto) ≡ 0 =
        ap complement (
          pseudo_sum_word c (checksum_bound blank proto)
          ∙ ap (λ (t : ℕ). pseudo_sum blank proto + t) (checksum_udp blank proto udp))
        ∙ completes_udp (pseudo_sum blank proto) blank_bound in
      checksum_udp (with_word c) proto udp ∙ rw zero_sum
