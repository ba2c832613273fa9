-- ===== src/Framer/Tests.antt =====
-- Runs of the framer, and the theorem at a concrete input: two datagrams, cut within a length.
use hopscotch.Common.{◌≡◌, refl, some, List, [], ◌∷◌}
use hopscotch.Common.Bytes.{Bytes, codes}
use hopscotch.Framer.{Result, encode_frame, write, frame_too_large}
use hopscotch.Framer.Stream.{encode_all, concat, framing}

abbrev datagrams : List Bytes
datagrams = codes "one" ∷ [] ∷ codes "three" ∷ []

abbrev pieces : List Bytes
pieces =
    (0 ∷ 0 ∷ [])
    ∷ (0 ∷ 3 ∷ codes "one")
    ∷ []
    ∷ (0 ∷ 0 ∷ 0 ∷ 0 ∷ 0 ∷ 0 ∷ 0 ∷ 5 ∷ codes "thr")
    ∷ codes "ee"
    ∷ []

encoded : encode_all datagrams ≡ Result.ok (concat pieces)
unfolding encode_all encode_frame
encoded = refl

-- A length of 1 MiB and one byte is an error as soon as the length is there.
too_large :
    write (framing []) (0 ∷ 16 ∷ 0 ∷ 1 ∷ [])
    ≡ record { buf = 0 ∷ 16 ∷ 0 ∷ 1 ∷ []; err = some frame_too_large }
unfolding write
too_large = refl
