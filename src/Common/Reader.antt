-- ===== src/Common/Reader.antt =====
-- Reading from a stream that holds the bytes it still gives before it ends.
use Prim.Native.Nat.{ℕ}
use mathlib.Core.Path.{◌≡◌, refl}
use mathlib.Core.Bool.{false}
use mathlib.Core.Logic.{inl, inr}
use mathlib.Core.Option.{Option, none, some}
use mathlib.Core.List.{◌++◌}
use native.Mathlib.Omega.{arith}
use hopscotch.Common.Tests.{ltb, Bool-cases, if◌then◌else◌}
use hopscotch.Common.Lists.{
  length, take, drop, length-append, length-take, take-append, drop-append, take-append-drop,
}
use hopscotch.Common.Bytes.{Bytes}

-- io.ReadFull of `n` bytes: the bytes and what is left.
unfoldable pub read_full : ℕ → Bytes → Option (Bytes × Bytes)
read_full n s = if ltb (length s) n then none else some (take n s, drop n s)

pub read_full-append : (n : ℕ) (a b : Bytes) → length a ≡ n → read_full n (a ++ b) ≡ some (a, b)
unfolding read_full
read_full-append n a b h =
    let fits : ltb (length (a ++ b)) n ≡ false = ground (arith, length-append a b, h) in
    rw (fits, take-append n a b h, drop-append n a b h) refl

-- What was read, before what is left, is what was there.
pub read_full_lem :
    (n : ℕ) (s a b : Bytes) → read_full n s ≡ some (a, b) → (a ++ b ≡ s) × (length a ≡ n)
unfolding read_full
read_full_lem n s a b h = elim (Bool-cases (ltb (length s) n)) [
  | inl short ↦ absurd (ground (arith, h, short))
  | inr fits ↦
      let size : length (take n s) ≡ n = ground (arith, length-take n s, fits) in
      let parts : some (take n s, drop n s) ≡ some (a, b) = rw fits at h in
      let left : take n s ≡ a = cc parts in
      let right : drop n s ≡ b = cc parts in
      (rw (← left, ← right) (take-append-drop n s), rw (← left) size)
]
