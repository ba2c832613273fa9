-- ===== src/Wire/Stream.antt =====
-- Messages survive the stream.
use hopscotch.Common.{
  ◌%◌, ◌≡◌, ◌≤◌, refl, sym, ap, ◌∙◌, true, false, ◌||◌, Option, none, some, List, [], ◌∷◌, ◌++◌,
  ltb, ◌==◌, length, arith, append_assoc, All, Option-cases, Bool-cases, inl, inr,
}
use hopscotch.Common.Bytes.{Bytes, at, put_uint32, uint32, uint32-put}
use hopscotch.Common.Reader.{read_full, read_full-append, read_full_lem}
use hopscotch.Wire.{max_msg, Result, write, read}

module _ {M : Type 0} (marshal : M → Option Bytes) (unmarshal : Bytes → Option M) where
  -- A message whose JSON has at least one byte and at most 1 MiB, and is decoded to the message.
  pub record IsSent (m : M) : Type 0 where
    pub text : Bytes
    pub encoded : marshal m ≡ some text
    pub decoded : unmarshal text ≡ some m
    pub some_bytes : 1 ≤ length text
    pub fits : length text ≤ max_msg

  -- What Write puts on the stream for each message.
  abbrev pub writes : List M → Bytes
  writes [] = []
  writes (m ∷ ms) = (write marshal unmarshal true true m).0 ++ writes ms

  -- As many messages from the stream, and the rest of it.
  abbrev pub reads : List M → Bytes → Result (List M × Bytes)
  reads [] s = Result.ok ([], s)
  reads (m ∷ ms) s = elim (read marshal unmarshal s) [
    | Result.err e ↦ Result.err e
    | Result.ok (got, rest) ↦ elim (reads ms rest) [
      | Result.err e ↦ Result.err e
      | Result.ok (gots, left) ↦ Result.ok (got ∷ gots, left)
    ]
  ]

  write_lem :
      (m : M) (h : IsSent m)
      → write marshal unmarshal true true m ≡ (put_uint32 (length h.text) ++ h.text, none)
  unfolding write
  write_lem m h =
      let small : length h.text % 4294967296 ≡ length h.text = omega (arith, h.fits) in
      rw (h.encoded, write, small) refl

  read-write :
      (m : M) (rest : Bytes)
      → IsSent m
      → read marshal unmarshal ((write marshal unmarshal true true m).0 ++ rest)
        ≡ Result.ok (m, rest)
  unfolding read
  read-write m rest h =
      let n = length h.text in
      let fine : (n == 0 || ltb max_msg n) ≡ false = ground (arith, h.some_bytes, h.fits) in
      rw
        (
          write_lem m h,
          append_assoc (put_uint32 n) h.text rest,
          read_full-append 4 (put_uint32 n) (h.text ++ rest) refl,
          read,
          uint32-put n (omega (arith, h.fits)),
          fine,
          read_full-append n h.text rest refl,
          h.decoded,
        )
        refl

  -- Given a JSON codec that decodes what it encoded, and messages of at most 1 MiB: as many calls of
  -- Read give back the messages that calls of Write put on a stream, in their order, and leave what
  -- follows them.
  pub reads-writes :
      (ms : List M) (rest : Bytes)
      → All IsSent ms
      → reads ms (writes ms ++ rest) ≡ Result.ok (ms, rest)
  reads-writes [] rest h = refl
  reads-writes (m ∷ ms) rest h =
      rw
        (
          append_assoc (write marshal unmarshal true true m).0 (writes ms) rest,
          read-write m (writes ms ++ rest) h.0,
          reads,
          reads-writes ms rest h.1,
        )
        refl

  -- A header, and behind it as many bytes as it says, within the bound, that decode to the message.
  pub record Framed (s : Bytes) (m : M) (rest : Bytes) : Type 0 where
    pub hdr : Bytes
    pub buf : Bytes
    pub stream : hdr ++ (buf ++ rest) ≡ s
    pub header : length hdr ≡ 4
    pub says : uint32 (at hdr 0) (at hdr 1) (at hdr 2) (at hdr 3) ≡ length buf
    pub some_bytes : 1 ≤ length buf
    pub fits : length buf ≤ max_msg
    pub decoded : unmarshal buf ≡ some m

  -- Whatever Read takes from a stream is framed: it begins with four bytes, the length of what
  -- follows, from 1 to 1 MiB; so many bytes follow and decode to the message; and the rest of the
  -- stream is untouched.
  pub read_lem :
      (s : Bytes) (m : M) (rest : Bytes)
      → read marshal unmarshal s ≡ Result.ok (m, rest)
      → Framed s m rest
  unfolding read
  read_lem s m rest h = elim (Option-cases (read_full 4 s)) [
    | inl none_left ↦ absurd (cc (rw (none_left, read) at h))
    | inr ((hdr, after), first) ↦
        let n = uint32 (at hdr 0) (at hdr 1) (at hdr 2) (at hdr 3) in
        elim (Bool-cases (n == 0 || ltb max_msg n)) [
          | inl bad ↦ absurd (cc (rw (first, read, bad) at h))
          | inr good ↦ elim (Option-cases (read_full n after)) [
            | inl none_left ↦ absurd (cc (rw (first, read, good, none_left) at h))
            | inr ((buf, left), second) ↦ elim (Option-cases (unmarshal buf)) [
              | inl bad ↦ absurd (cc (rw (first, read, good, second, bad) at h))
              | inr (got, decoded) ↦
                  let result : Result.ok (got, left) ≡ Result.ok (m, rest) =
                    rw (first, read, good, second, decoded) at h in
                  let got' : got ≡ m = cc result in
                  let left' : left ≡ rest = cc result in
                  let (joined, header) = read_full_lem 4 s hdr after first in
                  let (joined', size) = read_full_lem n after buf left second in
                  record {
                    hdr = hdr;
                    buf = buf;
                    stream = rw (← left', joined') joined;
                    header = header;
                    says = sym size;
                    some_bytes = ground (arith, good, size);
                    fits = ground (arith, good, size);
                    decoded = decoded ∙ ap some got';
                  }
            ]
          ]
        ]
  ]
