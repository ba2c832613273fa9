-- ===== src/Common/Bytes.antt =====
-- Byte slices and texts are lists of numbers. Big-endian words, slices, and equality.
use Prim.Native.Nat.{ℕ, ◌+◌, ◌*◌, ◌/◌, ◌%◌, ◌<◌, ◌-◌}
use Prim.Native.Char.{code}
use Prim.Native.String.{String}
use mathlib.Core.Path.{◌≡◌, refl, ap₂}
use mathlib.Core.List.{List, [], ◌∷◌}
use native.Mathlib.Omega.{arith}
use native.Mathlib.Decide.{ℕ_discrete}
use mathlib.Core.Bool.{Bool, true, ◌&&◌}
use hopscotch.Common.Tests.{ltb}
use hopscotch.Common.Lists.{All, take, drop, get_or}

abbrev pub Bytes : Type 0
Bytes = List ℕ

abbrev pub IsByte : ℕ → Type 0
IsByte b = b < 256

-- The bytes of an ASCII text.
abbrev pub codes : String → Bytes
codes String.[] = []
codes (String.◌∷◌ c s) = code c ∷ codes s

-- Equality of texts, identities and map keys: Go's `==` on strings and arrays.
same_cons : {a b : ℕ} {xs ys : Bytes} → Dec (a ≡ b) → Dec (xs ≡ ys) → Dec ((a ∷ xs) ≡ (b ∷ ys))
same_cons (yes p) (yes q) = yes (ap₂ ◌∷◌ p q)
same_cons (yes p) (no q) = no (λ e. q (cc))
same_cons (no p) d = no (λ e. p (cc))

unfoldable pub same : Discrete Bytes
unfolding same_cons ℕ_discrete
same [] [] = yes refl
same [] (b ∷ ys) = no (λ e. cc)
same (a ∷ xs) [] = no (λ e. cc)
same (a ∷ xs) (b ∷ ys) = same_cons (ℕ_discrete a b) (same xs ys)

-- pkt[i], at an index the code has checked.
abbrev pub at : Bytes → ℕ → ℕ
at b i = get_or b i 0

-- pkt[lo:hi]
abbrev pub slice : Bytes → ℕ → ℕ → Bytes
slice b lo hi = take (hi - lo) (drop lo b)

-- binary.BigEndian.PutUint16 and PutUint32, and their readings.
abbrev pub put_uint16 : ℕ → Bytes
put_uint16 v = (v / 256 % 256) ∷ (v % 256) ∷ []

abbrev pub put_uint32 : ℕ → Bytes
put_uint32 v = (v / 16777216 % 256) ∷ (v / 65536 % 256) ∷ (v / 256 % 256) ∷ (v % 256) ∷ []

abbrev pub uint16 : ℕ → ℕ → ℕ
uint16 hi lo = hi * 256 + lo

abbrev pub uint32 : ℕ → ℕ → ℕ → ℕ → ℕ
uint32 a b c d = a * 16777216 + b * 65536 + c * 256 + d

pub uint16-put : (v : ℕ) → v < 65536 → uint16 (v / 256 % 256) (v % 256) ≡ v
uint16-put v h = omega arith

pub uint32-put :
    (v : ℕ)
    → v < 4294967296
    → uint32 (v / 16777216 % 256) (v / 65536 % 256) (v / 256 % 256) (v % 256) ≡ v
uint32-put v h = omega arith

abbrev pub are_bytes : Bytes → Bool
are_bytes [] = true
are_bytes (b ∷ bs) = ltb b 256 && are_bytes bs

pub are_bytes-IsByte : (bs : Bytes) → are_bytes bs ≡ true → All IsByte bs
are_bytes-IsByte [] h = tt
are_bytes-IsByte (b ∷ bs) h = (ground arith, are_bytes-IsByte bs (ground arith))
