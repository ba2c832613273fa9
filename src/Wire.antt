-- ===== src/Wire.antt =====
-- internal/proto/proto.go, Write and Read: messages on a stream, each as JSON behind its length.
-- The JSON codec is the standard library's and a parameter. A stream is the bytes that it still
-- gives before it ends; whether a writer takes a piece is an argument.
pub mod Stream
mod Tests
use hopscotch.Common.{
  ℕ, ◌%◌, Bool, true, false, not, ◌||◌, Option, none, some, List, [], ◌∷◌, ◌++◌, ltb, ◌==◌, length,
  if◌then◌else◌,
}
use hopscotch.Common.Bytes.{Bytes, at, put_uint32, uint32}
use hopscotch.Common.Reader.{read_full}

-- 1 << 20
abbrev pub max_msg : ℕ
max_msg = 1048576

pub data WireError : Type 0 where
  not_encoded not_taken ended bad_length not_decoded : WireError

pub data Result {ℓ} (A : Type ℓ) : Type ℓ where
  ok : A → Result A
  err : WireError → Result A

module _ {M : Type 0} (marshal : M → Option Bytes) (unmarshal : Bytes → Option M) where
  -- The bytes that were written, and the error.
  unfoldable pub write : Bool → Bool → M → Bytes × Option WireError
  write header_taken body_taken m = elim (marshal m) [
    | none ↦ ([], some not_encoded)
    | some b ↦
        let header = put_uint32 (length b % 4294967296) in
        if not header_taken
        then ([], some not_taken)
        else if not body_taken
        then (header, some not_taken)
        else (header ++ b, none)
  ]

  -- The message and the rest of the stream.
  unfoldable pub read : Bytes → Result (M × Bytes)
  read s = elim (read_full 4 s) [
    | none ↦ Result.err ended
    | some (hdr, after) ↦
        let n = uint32 (at hdr 0) (at hdr 1) (at hdr 2) (at hdr 3) in
        if n == 0 || ltb max_msg n then Result.err bad_length else elim (read_full n after) [
          | none ↦ Result.err ended
          | some (buf, rest) ↦ elim (unmarshal buf) [
            | none ↦ Result.err not_decoded
            | some m ↦ Result.ok (m, rest)
          ]
        ]
  ]
