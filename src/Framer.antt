-- ===== src/Framer.antt =====
-- internal/backend/framer.go: datagrams on a byte stream, each behind its length in four bytes.
-- The mutex is left out: every method holds it from its first line to its last.
pub mod Stream
mod Tests
use hopscotch.Common.{
  ℕ, ◌+◌, Bool, true, false, ◌&&◌, ◌||◌, Option, none, some, List, [], ◌∷◌, ◌++◌, ltb, leb,
  if◌then◌else◌, length, take, drop,
}
use hopscotch.Common.Bytes.{Bytes, at, put_uint32, uint32}

abbrev pub frame_header : ℕ
frame_header = 4

-- 1 << 20
abbrev pub max_frame : ℕ
max_frame = 1048576

pub data FrameError : Type 0 where
  frame_too_large short_frame : FrameError

pub data Result {ℓ} (A : Type ℓ) : Type ℓ where
  ok : A → Result A
  err : FrameError → Result A

-- A nil error is `none`.
pub record StreamFramer : Type 0 where
  pub buf : Bytes
  pub err : Option FrameError

unfoldable pub encode_frame : Bytes → Result Bytes
encode_frame payload =
    if ltb max_frame (length payload)
    then Result.err frame_too_large
    else ok (put_uint32 (length payload) ++ payload)

-- The length field at the head of the buffer.
abbrev pub head_length : Bytes → ℕ
head_length buf = uint32 (at buf 0) (at buf 1) (at buf 2) (at buf 3)

unfoldable pub write : StreamFramer → Bytes → StreamFramer
write f p = elim f.err [
  | some e ↦ f
  | none ↦
      let buf' = f.buf ++ p in
      record {
        buf = buf';
        err =
            if leb frame_header (length buf') && ltb max_frame (head_length buf')
            then some frame_too_large
            else none;
      }
]

-- `none` is the pair of 0 or a length, and false.
unfoldable pub peek : StreamFramer → Option ℕ
peek f = elim f.err [
  | some e ↦ none
  | none ↦
      let n = head_length f.buf in
      if ltb (length f.buf) frame_header
      then none
      else if ltb max_frame n
      then none
      else if leb (frame_header + n) (length f.buf)
      then some n
      else none
]

unfoldable pub has_frame : StreamFramer → Bool
has_frame f = elim (peek f) [ none ↦ false | some n ↦ true ]

unfoldable pub next_frame : StreamFramer → StreamFramer × Result Bytes
next_frame f = elim f.err [
  | some e ↦ (f, Result.err e)
  | none ↦ elim (peek f) [
    | none ↦ (f, Result.err short_frame)
    | some n ↦
        (record f { buf = drop (frame_header + n) f.buf }, ok (take n (drop frame_header f.buf)))
  ]
]
