-- ===== src/Packet/Checksum/Fold.antt =====
-- The checksum as arithmetic modulo 65535: a packet that carries its checksum verifies.
use hopscotch.Common.{ℕ, ◌+◌, ◌*◌, ◌/◌, ◌%◌, ◌≡◌, ◌≤◌, ◌<◌, [], ◌∷◌, ◌++◌, length, arith, All}
use hopscotch.Common.Bytes.{Bytes, IsByte}
use hopscotch.Packet.Checksum.{sum_words, fold_carry, complement, add32}

-- The sum without wrapping.
abbrev pub total : Bytes → ℕ
total [] = 0
total (b ∷ []) = b * 256
total (hi ∷ lo ∷ bs) = hi * 256 + lo + total bs

pub total-le : (bs : Bytes) → All IsByte bs → 2 * total bs ≤ 65535 * (length bs + 1)
total-le [] h = omega arith
total-le (b ∷ []) h = omega arith
total-le (hi ∷ lo ∷ bs) h = omega (arith, total-le bs h.1.1)

pub sum_words-total :
    (sum : ℕ) (bs : Bytes) → sum + total bs < 4294967296 → sum_words sum bs ≡ sum + total bs
unfolding sum_words
sum_words-total sum [] h = omega arith
sum_words-total sum (b ∷ []) h = omega arith
sum_words-total sum (hi ∷ lo ∷ bs) h =
    omega (arith, sum_words-total (add32 sum (hi * 256 + lo)) bs (omega arith))

-- Two rounds bring every uint32 to 16 bits, keep it modulo 65535, and keep zero apart.
pub fold_carry_lem :
    (sum : ℕ)
    → sum < 4294967296
    → (fold_carry 2 sum ≤ 65535) × (fold_carry 2 sum % 65535 ≡ sum % 65535)
unfolding fold_carry
fold_carry_lem sum h = ground arith

fold_carry_pos : (sum : ℕ) → sum < 4294967296 → 0 < sum → 0 < fold_carry 2 sum
unfolding fold_carry
fold_carry_pos sum h p = ground arith

fold_carry-le : (sum : ℕ) → sum < 4294967296 → fold_carry 2 sum ≤ sum
unfolding fold_carry
fold_carry-le sum h = ground arith

-- A sum that was completed by its checksum has checksum 0.
pub complement_completes :
    (sum : ℕ) → sum + 65535 < 4294967296 → complement (sum + complement sum) ≡ 0
unfolding complement
complement_completes sum h =
    let filled = sum + complement sum in
    let pos_filled : 0 < filled = omega (arith, fold_carry-le sum (omega arith)) in
    omega (
      arith,
      fold_carry_lem sum (omega arith),
      fold_carry_lem filled (omega arith),
      fold_carry_pos filled (omega arith) pos_filled,
    )

-- The same where the checksum 0 is sent as 0xffff, as UDP asks.
pub complement_completes_ffff :
    (sum : ℕ) → sum + 65535 < 4294967296 → complement sum ≡ 0 → complement (sum + 65535) ≡ 0
unfolding complement
complement_completes_ffff sum h zero_sum = omega (
  arith,
  fold_carry_lem sum (omega arith),
  fold_carry_lem (sum + 65535) (omega arith),
  fold_carry_pos (sum + 65535) (omega arith),
)

pub complement-lt : (sum : ℕ) → complement sum < 65536
unfolding complement
complement-lt sum = omega arith

-- The total of a buffer in two parts, the first of even length.
abbrev pub IsEven : Bytes → Type 0
IsEven [] = Unit {0}
IsEven (b ∷ []) = ⊥
IsEven (hi ∷ lo ∷ bs) = IsEven bs

pub total-append : (xs ys : Bytes) → IsEven xs → total (xs ++ ys) ≡ total xs + total ys
total-append [] ys h = omega arith
total-append (b ∷ []) ys h = absurd h
total-append (hi ∷ lo ∷ xs) ys h = omega (arith, total-append xs ys h)

-- Writing a word into two zero bytes at an even place adds the word.
pub total_filled :
    (xs ys : Bytes) (w : ℕ)
    → IsEven xs
    → w < 65536
    → total (xs ++ ((w / 256 % 256) ∷ (w % 256) ∷ ys)) ≡ total (xs ++ (0 ∷ 0 ∷ ys)) + w
total_filled xs ys w h fits =
    omega
      (arith, total-append xs ((w / 256 % 256) ∷ (w % 256) ∷ ys) h, total-append xs (0 ∷ 0 ∷ ys) h)
