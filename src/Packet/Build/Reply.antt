-- ===== src/Packet/Build/Reply.antt =====
-- The echo reply of a node that has no TUN and no userspace stack.
use hopscotch.Common.{
  ℕ, zero, suc, drop-drop, append_assoc, ◌+◌, ◌-◌, ◌/◌, ◌%◌, ◌≡◌, ◌≤◌, ◌<◌, refl, [], ◌∷◌, ◌++◌,
  length, arith, All, take, drop, ap, sym, ◌∙◌, ◌==◌, ◌||◌, not, length-append, length-drop,
  length-take, get_or-take, drop-append, take-append, All-drop, All-take, All-append, false, ltb,
  some,
}
use hopscotch.Common.Bytes.{Bytes, IsByte, slice, at}
use hopscotch.Packet.Checksum.{transport_checksum, next_header_icmpv6}
use hopscotch.Packet.Checksum.Verify.{transport_checksum_filled}
use hopscotch.Packet.Build.{
  echo_reply_with, icmp_echo_reply, icmpv6_echo_request, icmpv6_echo_reply,
}

get_or_byte : (xs : Bytes) (i : ℕ) → All IsByte xs → at xs i < 256
get_or_byte [] i h = omega arith
get_or_byte (x ∷ xs) zero h = h.0
get_or_byte (x ∷ xs) (suc i) h = get_or_byte xs i h.1

at-drop : (n i : ℕ) (xs : Bytes) → at (drop n xs) i ≡ at xs (n + i)
at-drop zero i xs = ap (at xs) (omega arith)
at-drop (suc n) i [] = refl
at-drop (suc n) i (x ∷ xs) =
    at-drop n i xs ∙ ap (at (x ∷ xs)) (let e : suc (n + i) ≡ suc n + i = omega arith in e)

-- The answer to an echo request.
module _ (pkt : Bytes) (long : 48 ≤ length pkt) (short : length pkt < 65000)
    (bytes : All IsByte pkt) (icmp : at pkt 6 ≡ next_header_icmpv6)
    (request : at pkt 40 ≡ icmpv6_echo_request) where
  reply_header : Bytes
  reply_header = take 7 pkt ++ (64 ∷ (slice pkt 24 40 ++ slice pkt 8 24))

  reply : ℕ → Bytes
  unfolding reply_header
  reply sum = echo_reply_with sum pkt

  rest : ℕ → Bytes
  rest sum = icmpv6_echo_reply ∷ at pkt 41 ∷ (sum / 256 % 256) ∷ (sum % 256) ∷ drop 44 pkt

  length-rest : (sum : ℕ) → length (rest sum) ≡ 4 + length (drop 44 pkt)
  unfolding rest
  length-rest sum = omega arith

  length-part : (n : ℕ) → n ≤ 24 → length (slice pkt n (n + 16)) ≡ 16
  length-part n h = omega (arith, length-drop n pkt, length-take (n + 16 - n) (drop n pkt))

  length-front : length (take 7 pkt) ≡ 7
  length-front = omega (arith, length-take 7 pkt)

  length-reply_header : length reply_header ≡ 40
  unfolding reply_header
  length-reply_header = omega (
    arith,
    length-append (take 7 pkt) (64 ∷ (slice pkt 24 40 ++ slice pkt 8 24)),
    length-append (slice pkt 24 40) (slice pkt 8 24),
    length-front,
    length-part 24 (omega arith),
    length-part 8 (omega arith),
  )

  part_bytes : (n k : ℕ) → All IsByte (take k (drop n pkt))
  part_bytes n k = All-take IsByte k (drop n pkt) (All-drop IsByte n pkt bytes)

  reply_header_bytes : All IsByte reply_header
  unfolding reply_header
  reply_header_bytes =
      All-append IsByte (take 7 pkt) _ (All-take IsByte 7 pkt bytes)
        (omega arith, All-append IsByte (slice pkt 24 40) _ (part_bytes 24 16) (part_bytes 8 16))

  code_byte : at pkt 41 < 256
  code_byte = get_or_byte pkt 41 bytes

  drop-reply_8 : (sum : ℕ) → drop 8 (reply sum) ≡ slice pkt 24 40 ++ (slice pkt 8 24 ++ rest sum)
  unfolding reply rest
  drop-reply_8 sum =
      sym (drop-drop 1 7 (reply sum))
      ∙ ap (drop 1) (
          ap (drop 7)
            (append_assoc (take 7 pkt) (64 ∷ (slice pkt 24 40 ++ slice pkt 8 24)) (rest sum))
          ∙ drop-append 7 (take 7 pkt) _ length-front)
      ∙ append_assoc (slice pkt 24 40) (slice pkt 8 24) (rest sum)

  drop-reply_24 : (sum : ℕ) → drop 24 (reply sum) ≡ slice pkt 8 24 ++ rest sum
  drop-reply_24 sum =
      sym (drop-drop 16 8 (reply sum))
      ∙ ap (drop 16) (drop-reply_8 sum)
      ∙ drop-append 16 (slice pkt 24 40) _ (length-part 24 (omega arith))

  drop-reply_40 : (sum : ℕ) → drop 40 (reply sum) ≡ rest sum
  unfolding reply rest
  drop-reply_40 sum = drop-append 40 reply_header _ length-reply_header

  reply_type : (sum : ℕ) → at (reply sum) 40 ≡ 129
  reply_type sum =
      sym (at-drop 40 0 (reply sum)) ∙ ap (λ t. at t 0) (drop-reply_40 sum) ∙ unfold rest in refl

  reply_code : (sum : ℕ) → at (reply sum) 41 ≡ at pkt 41
  reply_code sum =
      sym (at-drop 40 1 (reply sum)) ∙ ap (λ t. at t 1) (drop-reply_40 sum) ∙ unfold rest in refl

  reply_next_header : (sum : ℕ) → at (reply sum) 6 ≡ at pkt 6
  unfolding reply rest
  reply_next_header sum =
      sym (get_or-take 7 (reply sum) 6 0 (omega arith))
      ∙ ap (λ t. at t 6)
          (ap (take 7)
              (append_assoc (take 7 pkt) (64 ∷ (slice pkt 24 40 ++ slice pkt 8 24)) (rest sum))
            ∙ take-append 7 (take 7 pkt) _ length-front)
      ∙ get_or-take 7 pkt 6 0 (omega arith)

  reply_hop_limit : (sum : ℕ) → at (reply sum) 7 ≡ 64
  unfolding reply rest
  reply_hop_limit sum =
      sym (at-drop 7 0 (reply sum))
      ∙ ap (λ t. at t 0)
          (ap (drop 7)
              (append_assoc (take 7 pkt) (64 ∷ (slice pkt 24 40 ++ slice pkt 8 24)) (rest sum))
            ∙ drop-append 7 (take 7 pkt) _ length-front)

  drop-reply_44 : (sum : ℕ) → drop 44 (reply sum) ≡ drop 44 pkt
  unfolding reply
  drop-reply_44 sum =
      sym (drop-drop 4 40 (reply sum))
      ∙ ap (drop 4) (drop-append 40 reply_header _ length-reply_header)

  length-reply : (sum : ℕ) → length (reply sum) ≡ length pkt
  unfolding reply rest
  length-reply sum = omega (
    arith,
    length-append reply_header (rest sum),
    length-reply_header,
    length-drop 44 pkt,
    length-rest sum,
  )

  replied : icmp_echo_reply pkt ≡ some (reply (transport_checksum (reply 0) next_header_icmpv6))
  unfolding icmp_echo_reply reply
  replied =
      let guard : (ltb (length pkt) 48
            || (not (at pkt 6 == next_header_icmpv6) || not (at pkt 40 == icmpv6_echo_request)))
          ≡ false =
        ground arith in
      rw guard

  verified :
      transport_checksum
        (reply (transport_checksum (reply 0) next_header_icmpv6))
        next_header_icmpv6
      ≡ 0
  unfolding reply
  verified =
      transport_checksum_filled reply_header (icmpv6_echo_reply ∷ at pkt 41 ∷ []) (drop 44 pkt)
        next_header_icmpv6 length-reply_header tt (omega arith) reply_header_bytes
        (omega arith, (code_byte, tt)) (All-drop IsByte 44 pkt bytes)
        (omega (arith, length-drop 44 pkt)) refl

  -- The node answers every ICMPv6 echo request of 48 to 64999 bytes, and the answer is an ICMPv6 echo
  -- reply, type 129, with the code of the request and a hop limit of 64: it has the length of the
  -- request, its checksum verifies, its addresses are the request's exchanged, and what follows the
  -- checksum comes back as it was sent.
  pub icmp_echo_reply_lem :
      (out : Bytes) × (icmp_echo_reply pkt ≡ some out)
      × (length out ≡ length pkt)
      × (at out 6 ≡ 58)
      × (at out 7 ≡ 64)
      × (at out 40 ≡ 129)
      × (at out 41 ≡ at pkt 41)
      × (transport_checksum out next_header_icmpv6 ≡ 0)
      × (slice out 8 24 ≡ slice pkt 24 40)
      × (slice out 24 40 ≡ slice pkt 8 24)
      × (drop 44 out ≡ drop 44 pkt)
  icmp_echo_reply_lem =
      let c = transport_checksum (reply 0) next_header_icmpv6 in
      (
        reply c,
        replied,
        length-reply c,
        reply_next_header c ∙ icmp,
        reply_hop_limit c,
        reply_type c,
        reply_code c,
        verified,
        ap (take 16) (drop-reply_8 c)
            ∙ take-append 16 (slice pkt 24 40) _ (length-part 24 (omega arith)),
        ap (take 16) (drop-reply_24 c)
            ∙ take-append 16 (slice pkt 8 24) _ (length-part 8 (omega arith)),
        drop-reply_44 c,
      )
