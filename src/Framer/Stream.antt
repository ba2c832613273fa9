-- ===== src/Framer/Stream.antt =====
-- Datagrams survive the stream, however it is cut into pieces.
use hopscotch.Common.{
  ℕ, zero, suc, ◌+◌, ◌≡◌, ◌≤◌, refl, ap, sym, ◌∙◌, Bool, true, false, ◌&&◌, ◌||◌, none, List, [],
  ◌∷◌, ◌++◌, ltb, leb, length, arith, length-append, take-append, drop-append, append_assoc,
  append-nil, All, inl, inr, ◌⊎◌,
}
use hopscotch.Common.Bytes.{Bytes, put_uint32, uint32-put}
use hopscotch.Framer.{
  StreamFramer, FrameError, Result, encode_frame, head_length, write, peek, next_frame,
  frame_header, max_frame,
}

-- A datagram on the wire.
abbrev pub frame : Bytes → Bytes
frame payload = put_uint32 (length payload) ++ payload

-- The datagrams one after the other.
abbrev pub wire : List Bytes → Bytes
wire [] = []
wire (p ∷ ps) = frame p ++ wire ps

abbrev pub IsShort : Bytes → Type 0
IsShort p = length p ≤ max_frame

-- No length at the head is too large, as far as it has arrived.
abbrev pub head_fine : Bytes → Bool
head_fine buf = ltb (length buf) frame_header || leb (head_length buf) max_frame

abbrev pub framing : Bytes → StreamFramer
framing buf = record { buf = buf; err = none }

no_error :
    (len n : ℕ)
    → (ltb len frame_header || leb n max_frame) ≡ true
    → (leb frame_header len && ltb max_frame n) ≡ false
no_error len n h = ground arith

pub write_fine :
    (buf p : Bytes) → head_fine (buf ++ p) ≡ true → write (framing buf) p ≡ framing (buf ++ p)
unfolding write
write_fine buf p h = rw (no_error (length (buf ++ p)) (head_length (buf ++ p)) h) refl

pub head_fine_prefix : (a b : Bytes) → head_fine (a ++ b) ≡ true → head_fine a ≡ true
head_fine_prefix [] b h = refl
head_fine_prefix (x ∷ []) b h = refl
head_fine_prefix (x ∷ y ∷ []) b h = refl
head_fine_prefix (x ∷ y ∷ z ∷ []) b h = refl
head_fine_prefix (x ∷ y ∷ z ∷ w ∷ a) b h = ground arith

pub head_fine-wire : (ps : List Bytes) → All IsShort ps → head_fine (wire ps) ≡ true
head_fine-wire [] h = refl
head_fine-wire (p ∷ ps) h = ground (arith, uint32-put (length p) (omega (arith, h.0)))

-- The pieces of a stream, written one after the other.
abbrev pub writes : StreamFramer → List Bytes → StreamFramer
writes f [] = f
writes f (c ∷ cs) = writes (write f c) cs

abbrev pub concat : List Bytes → Bytes
concat [] = []
concat (c ∷ cs) = c ++ concat cs

writes_fine :
    (buf : Bytes) (cs : List Bytes)
    → head_fine (buf ++ concat cs) ≡ true
    → writes (framing buf) cs ≡ framing (buf ++ concat cs)
writes_fine buf [] h = ap framing (sym (append-nil buf))
writes_fine buf (c ∷ cs) h =
    let assoc = append_assoc buf c (concat cs) in
    let h' : head_fine ((buf ++ c) ++ concat cs) ≡ true = rw assoc h in
    rw (write_fine buf c (head_fine_prefix (buf ++ c) (concat cs) h'))
      (writes_fine (buf ++ c) cs h' ∙ ap framing assoc)

-- One datagram is read off the front.
pub next_frame-frame :
    (p rest : Bytes)
    → IsShort p
    → next_frame (framing (frame p ++ rest)) ≡ (framing rest, Result.ok p)
unfolding next_frame peek
next_frame-frame p rest h = ground (
  arith,
  uint32-put (length p) (omega arith),
  length-append p rest,
  take-append (length p) p rest refl,
  drop-append (length p) p rest refl,
)

-- Reading frames until there is none, at most `fuel` of them.
unfoldable pub drain : ℕ → StreamFramer → List Bytes
drain zero f = []
drain (suc fuel) f =
    let (f', r) = next_frame f in
    let rest = drain fuel f' in elim r [ Result.ok p ↦ p ∷ rest | Result.err e ↦ [] ]

drain-wire :
    (fuel : ℕ) (ps : List Bytes)
    → All IsShort ps
    → length ps ≤ fuel
    → drain fuel (framing (wire ps)) ≡ ps
unfolding drain
drain-wire zero [] h e = refl
drain-wire zero (p ∷ ps) h e = absurd (omega arith)
drain-wire (suc fuel) [] h e = unfold next_frame in unfold peek in refl
drain-wire (suc fuel) (p ∷ ps) h e =
    ap
      (λ (x : StreamFramer × Result Bytes). elim x.1 [
        | Result.ok q ↦ q ∷ drain fuel x.0
        | Result.err _ ↦ []
      ])
      (next_frame-frame p (wire ps) h.0)
    ∙ ap (λ t. p ∷ t) (drain-wire fuel ps h.1 (omega arith))

-- The frames of the datagrams one after the other, where every one is encoded.
unfoldable pub encode_all : List Bytes → Result Bytes
encode_all [] = Result.ok []
encode_all (p ∷ ps) =
    let rest = encode_all ps in
    elim (encode_frame p) [
      | Result.err e ↦ Result.err e
      | Result.ok f ↦ elim rest [ Result.err e ↦ Result.err e | Result.ok r ↦ Result.ok (f ++ r) ]
    ]

pub encode_all_short : (ps : List Bytes) → All IsShort ps → encode_all ps ≡ Result.ok (wire ps)
unfolding encode_all encode_frame
encode_all_short [] h = refl
encode_all_short (p ∷ ps) h = ground (arith, encode_all_short ps h.1)

Result-cases :
    {A : Type 0} (r : Result A)
    → ((e : FrameError) × (r ≡ Result.err e)) ⊎ ((a : A) × (r ≡ Result.ok a))
Result-cases (Result.err e) = inl (e, refl)
Result-cases (Result.ok a) = inr (a, refl)

pub encode_all-IsShort :
    (ps : List Bytes) (s : Bytes) → encode_all ps ≡ Result.ok s → All IsShort ps
unfolding encode_all encode_frame
encode_all-IsShort [] s h = tt
encode_all-IsShort (p ∷ ps) s h = elim (Result-cases (encode_all ps)) [
  | inl (e, bad) ↦ absurd (ground (arith, bad, h))
  | inr (r, fine) ↦ (ground (arith, h), encode_all-IsShort ps r fine)
]

-- However the frames that EncodeFrame makes of a list of datagrams are cut into pieces, a framer
-- that is given the pieces yields the datagrams in order, and then no more.
pub drain-writes :
    (ps cs : List Bytes) (more : ℕ)
    → encode_all ps ≡ Result.ok (concat cs)
    → drain (length ps + more) (writes (framing []) cs) ≡ ps
drain-writes ps cs more h =
    let short = encode_all-IsShort ps (concat cs) h in
    let e : concat cs ≡ wire ps = cc (h, encode_all_short ps short) in
    ap (drain (length ps + more))
      (writes_fine [] cs (rw e (head_fine-wire ps short)) ∙ ap framing e)
    ∙ drain-wire (length ps + more) ps short (omega arith)
