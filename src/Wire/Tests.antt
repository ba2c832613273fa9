-- ===== src/Wire/Tests.antt =====
-- Messages of one byte for a codec, and the theorems at concrete inputs.
use hopscotch.Common.{ℕ, ◌≡◌, refl, Option, some, [], ◌∷◌, ◌++◌, length, replicate, arith}
use hopscotch.Common.Bytes.{Bytes}
use hopscotch.Common.Reader.{read_full}
use hopscotch.Wire.{WireError, Result, write, read}
use hopscotch.Wire.Stream.{IsSent, writes, reads, reads-writes, Framed, read_lem}

-- A number is encoded as that many bytes.
abbrev marshal : ℕ → Option Bytes
marshal n = some (replicate n 7)

abbrev unmarshal : Bytes → Option ℕ
unmarshal b = some (length b)

runs : Unit {0}
unfolding read write read_full
runs = tt

sent : IsSent marshal unmarshal 2
sent = record {
  text = 7 ∷ 7 ∷ [];
  encoded = refl;
  decoded = refl;
  some_bytes = omega arith;
  fits = omega arith;
}

reads-writes_example :
    reads marshal unmarshal (2 ∷ 2 ∷ []) (writes marshal unmarshal (2 ∷ 2 ∷ []) ++ (5 ∷ []))
    ≡ Result.ok (2 ∷ 2 ∷ [], 5 ∷ [])
reads-writes_example = reads-writes marshal unmarshal (2 ∷ 2 ∷ []) (5 ∷ []) (sent, (sent, tt))

abbrev stream : Bytes
stream = 0 ∷ 0 ∷ 0 ∷ 2 ∷ 8 ∷ 9 ∷ 5 ∷ []

stream_read : read marshal unmarshal stream ≡ Result.ok (2, 5 ∷ [])
unfolding runs
stream_read = refl

read_lem_example : Framed marshal unmarshal stream 2 (5 ∷ [])
read_lem_example = read_lem marshal unmarshal stream 2 (5 ∷ []) stream_read

empty_message : read marshal unmarshal (0 ∷ 0 ∷ 0 ∷ 0 ∷ []) ≡ Result.err WireError.bad_length
unfolding runs
empty_message = refl

cut_short : read marshal unmarshal (0 ∷ 0 ∷ 0 ∷ 2 ∷ 8 ∷ []) ≡ Result.err WireError.ended
unfolding runs
cut_short = refl
