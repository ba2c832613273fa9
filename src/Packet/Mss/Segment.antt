-- ===== src/Packet/Mss/Segment.antt =====
-- What clamping does to a packet.
use hopscotch.Common.{
  ℕ, ◌+◌, ◌-◌, ◌*◌, ◌/◌, ◌%◌, ◌≡◌, ◌≤◌, ◌<◌, refl, ap, sym, ◌∙◌, Bool, true, false, not, ◌||◌, ◌==◌,
  ltb, if◌then◌else◌, length, take, drop, arith, drop-append, drop-drop, Bool-cases, inl, inr,
}
use hopscotch.Common.Bytes.{Bytes, at, slice}
use hopscotch.Packet.Checksum.{next_header_tcp}
use hopscotch.Packet.Build.{ipv6_header_len}
use hopscotch.Packet.Mss.{
  clamp_options, options_changed, rebuilt, clamp_tcp_mss, syn, tcp_header_min,
}
use hopscotch.Packet.Mss.Rebuilt.{
  length-opts, take-rebuilt, at-rebuilt, drop-rebuilt, slice-rebuilt, length-rebuilt,
}
use hopscotch.Packet.Mss.Options.{
  all_below, clamp_options_unchanged, all_below-clamp_options, options_changed_of_below,
}

-- A chain of three guards before a test, by their values.
guarded :
    {A : Type 0} (P : A → Type 0) (a b c d : Bool) (x y : A)
    → (a ≡ true → P x)
    → (b ≡ true → P x)
    → (c ≡ true → P x)
    → (a ≡ false → b ≡ false → c ≡ false → d ≡ false → P x)
    → (a ≡ false → b ≡ false → c ≡ false → d ≡ true → P y)
    → P (if a then x else if b then x else if c then x else if d then y else x)
guarded P true b c d x y first second third small new = first refl
guarded P false true c d x y first second third small new = second refl
guarded P false false true d x y first second third small new = third refl
guarded P false false false false x y first second third small new = small refl refl refl refl
guarded P false false false true x y first second third small new = new refl refl refl refl

-- A TCP segment of IPv6 with the SYN flag, whose header, options included, is inside the packet.
pub record IsSyn (pkt : Bytes) : Type 0 where
  pub long : 60 ≤ length pkt
  pub tcp : at pkt 6 ≡ 6
  pub header : 20 ≤ at pkt 52 / 16 * 4
  pub inside : 40 + at pkt 52 / 16 * 4 ≤ length pkt
  pub flagged : at pkt 53 / 2 % 2 ≡ 1

module _ (pkt : Bytes) where
  abbrev no_tcp : Bool
  no_tcp = ltb (length pkt) 60 || not (at pkt 6 == next_header_tcp)

  abbrev no_room : Bool
  no_room =
      ltb (at pkt 52 / 16 * 4) tcp_header_min
      || ltb (length pkt) (ipv6_header_len + at pkt 52 / 16 * 4)

  other_IsSyn_tcp : no_tcp ≡ true → ¬ IsSyn pkt
  other_IsSyn_tcp e h = absurd (ground (arith, e, h.long, h.tcp))

  other_IsSyn_room : no_room ≡ true → ¬ IsSyn pkt
  other_IsSyn_room e h = absurd (ground (arith, e, h.header, h.inside))

  other_IsSyn_flag : (syn (at pkt 53) == 0) ≡ true → ¬ IsSyn pkt
  other_IsSyn_flag e h = absurd (ground (arith, e, h.flagged))

  guards-IsSyn : no_tcp ≡ false → no_room ≡ false → (syn (at pkt 53) == 0) ≡ false → IsSyn pkt
  guards-IsSyn tcp room flag = record {
    long = ground (arith, tcp);
    tcp = ground (arith, tcp);
    header = ground (arith, room);
    inside = ground (arith, room);
    flagged = ground (arith, flag);
  }

-- The options of the segment, by the length of its header.
abbrev pub tcp_options : Bytes → Bytes
tcp_options pkt = slice pkt 60 (40 + at pkt 52 / 16 * 4)

-- A property of the clamped packet, from its outcomes.
by_outcome :
    (P : Bytes → Type 0) (pkt : Bytes) (mss : ℕ)
    → (¬ IsSyn pkt → P pkt)
    → (IsSyn pkt → options_changed mss (at pkt 52 / 16 * 4) (tcp_options pkt) ≡ false → P pkt)
    → (IsSyn pkt
        → options_changed mss (at pkt 52 / 16 * 4) (tcp_options pkt) ≡ true
        → (sum : ℕ) → P (rebuilt mss 40 (at pkt 52 / 16 * 4) sum pkt))
    → P (clamp_tcp_mss pkt mss)
unfolding clamp_tcp_mss
by_outcome P pkt mss other small new =
    guarded P (no_tcp pkt) (no_room pkt) (syn (at pkt 53) == 0) _ pkt _
      (λ e. other (other_IsSyn_tcp pkt e)) (λ e. other (other_IsSyn_room pkt e))
      (λ e. other (other_IsSyn_flag pkt e))
      (λ tcp room flag same. small (guards-IsSyn pkt tcp room flag) same)
      (λ tcp room flag changed. new (guards-IsSyn pkt tcp room flag) changed _)

pub clamp_tcp_mss_outcomes :
    (P : Bytes → Type 0) (pkt : Bytes) (mss : ℕ)
    → let doff = at pkt 52 / 16 * 4 in
      P pkt
      → (tcp_header_min ≤ doff
          → 40 + doff ≤ length pkt
          → (sum : ℕ) → P (rebuilt mss 40 doff sum pkt))
      → P (clamp_tcp_mss pkt mss)
clamp_tcp_mss_outcomes P pkt mss kept new =
    by_outcome P pkt mss (λ _. kept) (λ _ _. kept) (λ h _ sum. new h.header h.inside sum)

-- Clamping keeps the length of every packet.
pub length-clamp_tcp_mss : (pkt : Bytes) (mss : ℕ) → length (clamp_tcp_mss pkt mss) ≡ length pkt
length-clamp_tcp_mss pkt mss =
    clamp_tcp_mss_outcomes (λ t. length t ≡ length pkt) pkt mss refl
      (λ enough inside sum. length-rebuilt mss 40 (at pkt 52 / 16 * 4) sum pkt enough inside)

-- What clamping leaves of a segment: its length, all in front of the checksum, and all
-- behind the options.
pub record SameOutside (pkt out : Bytes) : Type 0 where
  pub same_length : length out ≡ length pkt
  pub front : take 56 out ≡ take 56 pkt
  pub payload : drop (40 + at pkt 52 / 16 * 4) out ≡ drop (40 + at pkt 52 / 16 * 4) pkt

-- A packet that is no SYN, or whose MSS options are at most `mss`, is left as it is. Of any other SYN
-- segment the MSS options are at most `mss` afterwards.
pub data Clamped (mss : ℕ) (pkt : Bytes) : Bytes → Type 0 where
  no_syn : ¬ IsSyn pkt → Clamped mss pkt pkt
  small :
      IsSyn pkt → all_below mss (at pkt 52 / 16 * 4) (tcp_options pkt) ≡ true → Clamped mss pkt pkt
  clamped :
      (out : Bytes)
      → IsSyn pkt
      → all_below mss (at pkt 52 / 16 * 4) (tcp_options pkt) ≡ false
      → all_below mss (at out 52 / 16 * 4) (tcp_options out) ≡ true
      → SameOutside pkt out
      → Clamped mss pkt out

module _ (mss : ℕ) (pkt : Bytes) (h : IsSyn pkt) where
  doff : ℕ
  doff = at pkt 52 / 16 * 4

  drop-rebuilt_payload :
      (sum : ℕ) → drop (40 + doff) (rebuilt mss 40 doff sum pkt) ≡ drop (40 + doff) pkt
  unfolding doff
  drop-rebuilt_payload sum =
      let header : 20 ≤ at pkt 52 / 16 * 4 = h.header in
      ap (λ (t : ℕ). drop t (rebuilt mss 40 doff sum pkt))
        (let e : 40 + at pkt 52 / 16 * 4 ≡ 60 + (at pkt 52 / 16 * 4 - 20) = omega (arith, header) in
          e)
      ∙ sym (drop-drop (at pkt 52 / 16 * 4 - 20) 60 (rebuilt mss 40 doff sum pkt))
      ∙ ap (drop (at pkt 52 / 16 * 4 - 20)) (drop-rebuilt mss 40 doff sum pkt header h.inside)
      ∙ drop-append (at pkt 52 / 16 * 4 - 20) (clamp_options mss doff (tcp_options pkt)) _
          (length-opts mss 40 doff sum pkt header h.inside)

  rebuilt-SameOutside : (sum : ℕ) → SameOutside pkt (rebuilt mss 40 doff sum pkt)
  unfolding doff
  rebuilt-SameOutside sum = record {
    same_length = length-rebuilt mss 40 doff sum pkt h.header h.inside;
    front = take-rebuilt mss 40 doff sum pkt h.header h.inside;
    payload = drop-rebuilt_payload sum;
  }

  rebuilt_below :
      (sum : ℕ)
      → mss < 65536
      → all_below mss
          (at (rebuilt mss 40 doff sum pkt) 52 / 16 * 4)
          (tcp_options (rebuilt mss 40 doff sum pkt))
        ≡ true
  unfolding doff
  rebuilt_below sum fits =
      let kept = at-rebuilt mss 40 doff sum pkt h.header h.inside 52 (omega arith) in
      rw (kept, slice-rebuilt mss 40 doff sum pkt h.header h.inside)
        (all_below-clamp_options mss doff _ fits)

  below_of_kept :
      mss < 65536
      → options_changed mss doff (tcp_options pkt) ≡ false
      → all_below mss doff (tcp_options pkt) ≡ true
  below_of_kept fits kept =
      ap (all_below mss doff) (sym (clamp_options_unchanged mss doff (tcp_options pkt) kept))
      ∙ all_below-clamp_options mss doff (tcp_options pkt) fits

  above_of_changed :
      options_changed mss doff (tcp_options pkt) ≡ true
      → all_below mss doff (tcp_options pkt) ≡ false
  above_of_changed changed = elim (Bool-cases (all_below mss doff (tcp_options pkt))) [
    | inl below ↦
        absurd (cc (sym changed ∙ options_changed_of_below mss doff (tcp_options pkt) below))
    | inr above ↦ above
  ]

-- For an `mss` of 16 bits, clamping leaves every packet that is not a whole SYN segment of TCP over
-- IPv6, and every segment whose MSS options are at most `mss`. In any other segment no MSS option is
-- above `mss` afterwards, while its length, what stands before its checksum and what follows its
-- options are kept.
pub clamp_tcp_mss-Clamped :
    (mss : ℕ) (pkt : Bytes) → mss < 65536 → Clamped mss pkt (clamp_tcp_mss pkt mss)
unfolding doff
clamp_tcp_mss-Clamped mss pkt fits =
    by_outcome (Clamped mss pkt) pkt mss no_syn
      (λ h kept. small h (below_of_kept mss pkt h fits kept))
      (λ h changed sum.
        clamped _ h (above_of_changed mss pkt h changed) (rebuilt_below mss pkt h sum fits)
          (rebuilt-SameOutside mss pkt h sum))
