-- ===== src/Tcp/Stream.antt =====
-- Recv gives the datagrams that Send wrote, however the connection cuts the stream.
use mathlib.Core.Path.{ap₂, subst}
use hopscotch.Common.{
  ℕ, zero, suc, ◌+◌, ◌≡◌, ◌≤◌, ◌<◌, refl, sym, ap, ◌∙◌, ◌⊎◌, inl, inr, true, false, Option, none,
  some, List, [], ◌∷◌, ◌++◌, length, arith, length-append, append_assoc, append-nil, All, dec_lt,
}
use hopscotch.Common.Bytes.{Bytes, uint32-put}
use hopscotch.Framer.{StreamFramer, head_length, encode_frame, has_frame, peek}
use hopscotch.Framer.Stream.{
  frame, framing, wire, IsShort, head_fine, head_fine_prefix, head_fine-wire, write_fine,
  next_frame-frame,
}
use hopscotch.Tcp.{
  ReadError, ReadResult, TcpReceived, Recv, tcp_send, give_frame, written, failed_read, after_read,
  tcp_recv,
}

-- Where a list that starts with another is cut.
split_append :
    (c a b d : Bytes)
    → a ++ b ≡ c ++ d
    → length c ≤ length a
    → (rest : Bytes) × (a ≡ c ++ rest) × (rest ++ b ≡ d)
split_append [] a b d e h = (a, refl, e)
split_append (x ∷ c) [] b d e h = absurd (omega arith)
split_append (x ∷ c) (y ∷ a) b d e h =
    let (rest, front, back) = split_append c a b d (cc e) (omega arith) in
    (rest, ap₂ ◌∷◌ (cc e) front, back)

head_length-append : (a b : Bytes) → 4 ≤ length a → head_length (a ++ b) ≡ head_length a
head_length-append [] b h = absurd (omega arith)
head_length-append (x ∷ []) b h = absurd (omega arith)
head_length-append (x ∷ y ∷ []) b h = absurd (omega arith)
head_length-append (x ∷ y ∷ z ∷ []) b h = absurd (omega arith)
head_length-append (x ∷ y ∷ z ∷ w ∷ a) b h = refl

head_length-frame : (p b : Bytes) → IsShort p → head_length (frame p ++ b) ≡ length p
head_length-frame p b h = uint32-put (length p) (omega (arith, h))

-- What is at the front of a stream: a datagram in full, or less than one.
data Front (buf x : Bytes) (ps : List Bytes) : Type 0 where
  full :
      (p rest : Bytes) (qs : List Bytes)
      → ps ≡ p ∷ qs
      → IsShort p
      → buf ≡ frame p ++ rest
      → rest ++ x ≡ wire qs
      → Front buf x ps
  partial : has_frame (framing buf) ≡ false → (x ≡ [] → ps ≡ []) → Front buf x ps

no_frame :
    (buf : Bytes) (n : ℕ)
    → (4 ≤ length buf → head_length buf ≡ n)
    → length buf < 4 + n
    → has_frame (framing buf) ≡ false
unfolding has_frame peek
no_frame buf n head short = ground (arith, head, short)

length-frame : (p : Bytes) → length (frame p) ≡ 4 + length p
length-frame p = omega arith

front : (buf x : Bytes) (ps : List Bytes) → buf ++ x ≡ wire ps → All IsShort ps → Front buf x ps
front [] x [] e h = partial (unfold has_frame in unfold peek in refl) (λ _. refl)
front (b ∷ buf) x [] e h = absurd (cc e)
front buf x (p ∷ ps) e h = elim (dec_lt (length buf) (4 + length p)) [
  | no long ↦
      let (rest, here, later) =
        split_append (frame p) buf x (wire ps) e (omega (arith, length-frame p)) in
      full p rest ps refl h.0 here later
  | yes short ↦
      partial
        (no_frame buf (length p)
          (λ four.
            sym (head_length-append buf x four)
            ∙ ap head_length e
            ∙ head_length-frame p (wire ps) h.0)
          short)
        (λ none_left. absurd (
          omega (
            arith,
            ap length e,
            length-append buf x,
            ap length none_left,
            length-append (frame p) (wire ps),
            length-frame p,
            short,
          )))
]

-- The connection gives bytes, or times out.
abbrev pub IsCalm : ReadResult → Type 0
IsCalm r = (r.error ≡ none) ⊎ (r.error ≡ some ReadError.timeout)

abbrev pub all_bytes : List ReadResult → Bytes
all_bytes [] = []
all_bytes (r ∷ rs) = r.bytes ++ all_bytes rs

-- What Recv gives where `ps` are still to come: the first of them, a timeout, or a wait at the end.
data Arrival (ps : List Bytes) (reads : List ReadResult) : Recv → Type 0 where
  gives :
      (p rest : Bytes) (qs : List Bytes) (rs : List ReadResult)
      → ps ≡ p ∷ qs
      → rest ++ all_bytes rs ≡ wire qs
      → All IsCalm rs
      → length rs ≤ length reads
      → Arrival ps reads (framing rest, (rs, TcpReceived.got p))
  late :
      (buf : Bytes) (rs : List ReadResult)
      → buf ++ all_bytes rs ≡ wire ps
      → All IsCalm rs
      → length rs < length reads
      → Arrival ps reads (framing buf, (rs, TcpReceived.timed_out))
  over : (f : StreamFramer) → ps ≡ [] → Arrival ps reads (f, ([], TcpReceived.waits))

has_frame-frame : (p rest : Bytes) → IsShort p → has_frame (framing (frame p ++ rest)) ≡ true
unfolding has_frame peek
has_frame-frame p rest h =
    ground (arith, head_length-frame p rest h, length-append (frame p) rest, length-frame p)

give_frame-frame :
    (p rest : Bytes) (rs : List ReadResult)
    → IsShort p
    → give_frame (framing (frame p ++ rest)) rs ≡ (framing rest, (rs, TcpReceived.got p))
unfolding give_frame
give_frame-frame p rest rs h = rw (next_frame-frame p rest h) refl

weaken :
    (ps : List Bytes) (r : ReadResult) (rs : List ReadResult) (result : Recv)
    → Arrival ps rs result
    → Arrival ps (r ∷ rs) result
weaken ps r rs _ (gives p rest qs left e f calm h) =
    gives p rest qs left e f calm (omega (arith, h))
weaken ps r rs _ (late buf left e calm h) = late buf left e calm (omega (arith, h))
weaken ps r rs _ (over f e) = over f e

written-framing :
    (buf b : Bytes) → head_fine (buf ++ b) ≡ true → written (framing buf) b ≡ framing (buf ++ b)
written-framing buf [] h = ap framing (sym (append-nil buf))
written-framing buf (x ∷ b) h = write_fine buf (x ∷ b) h

-- After a read that was not enough: on, or a timeout.
after_read-Arrival :
    (ps : List Bytes) (buf b : Bytes) (error : Option ReadError) (rs : List ReadResult)
    (rest : Recv)
    → buf ++ all_bytes rs ≡ wire ps
    → IsCalm (record { bytes = b; error = error })
    → All IsCalm rs
    → Arrival ps rs rest
    → let r : ReadResult = record { bytes = b; error = error } in
      Arrival ps (r ∷ rs) (after_read (framing buf) r rs rest)
unfolding after_read failed_read
after_read-Arrival ps buf b none rs rest e calm more h = weaken ps _ rs rest h
after_read-Arrival ps buf [] (some ReadError.timeout) rs rest e calm more h =
    late buf rs e more (omega arith)
after_read-Arrival ps buf (x ∷ b) (some ReadError.timeout) rs rest e calm more h =
    weaken ps _ rs rest h
after_read-Arrival ps buf b (some ReadError.eof) rs rest e (inl calm) more h = absurd (cc calm)
after_read-Arrival ps buf b (some ReadError.eof) rs rest e (inr calm) more h = absurd (cc calm)
after_read-Arrival ps buf b (some ReadError.broken) rs rest e (inl calm) more h = absurd (cc calm)
after_read-Arrival ps buf b (some ReadError.broken) rs rest e (inr calm) more h = absurd (cc calm)

tcp_recv-Arrival :
    (reads : List ReadResult) (buf : Bytes) (ps : List Bytes)
    → buf ++ all_bytes reads ≡ wire ps
    → All IsShort ps
    → All IsCalm reads
    → Arrival ps reads (tcp_recv (framing buf) reads)
unfolding tcp_recv
tcp_recv-Arrival [] buf ps e h calm = elim (front buf [] ps e h) [
  | full p rest qs first fits here later ↦
      rw (here, has_frame-frame p rest fits, give_frame-frame p rest [] fits)
        (gives p rest qs [] first later tt (omega arith))
  | partial none_yet last ↦ rw none_yet (over (framing buf) (last refl))
]
tcp_recv-Arrival (r ∷ rs) buf ps e h calm = elim (front buf (all_bytes (r ∷ rs)) ps e h) [
  | full p rest qs first fits here later ↦
      rw (here, has_frame-frame p rest fits, give_frame-frame p rest (r ∷ rs) fits)
        (gives p rest qs (r ∷ rs) first later calm (omega arith))
  | partial none_yet last ↦
      let moved : (buf ++ r.bytes) ++ all_bytes rs ≡ wire ps =
        append_assoc buf r.bytes (all_bytes rs) ∙ e in
      let fine : head_fine ((buf ++ r.bytes) ++ all_bytes rs) ≡ true =
        rw moved (head_fine-wire ps h) in
      rw (none_yet, written-framing buf r.bytes (head_fine_prefix (buf ++ r.bytes) _ fine))
        (after_read-Arrival ps (buf ++ r.bytes) r.bytes r.error rs _ moved calm.0 calm.1
          (tcp_recv-Arrival rs (buf ++ r.bytes) ps moved h calm.1))
]

-- Recv again and again, over timeouts, at most `fuel` times.
unfoldable pub receive_all : ℕ → StreamFramer → List ReadResult → List Bytes
receive_all zero f reads = []
receive_all (suc fuel) f reads =
    let (f', (rs, r)) = tcp_recv f reads in
    let rest = receive_all fuel f' rs in
    elim r [
      | TcpReceived.got p ↦ p ∷ rest
      | TcpReceived.timed_out ↦ rest
      | TcpReceived.waits ↦ []
      | TcpReceived.framing_failed e ↦ []
      | TcpReceived.conn_failed e ↦ []
    ]

goes_on-Arrival :
    (fuel : ℕ) (ps : List Bytes) (reads : List ReadResult) (result : Recv)
    → ((f : Bytes) (rs : List ReadResult) (qs : List Bytes)
        → f ++ all_bytes rs ≡ wire qs
        → All IsShort qs
        → All IsCalm rs
        → length qs + length rs ≤ fuel
        → receive_all fuel (framing f) rs ≡ qs)
    → All IsShort ps
    → length ps + length reads ≤ suc fuel
    → Arrival ps reads result
    → elim result.1.1 [
      | TcpReceived.got p ↦ p ∷ receive_all fuel result.0 result.1.0
      | TcpReceived.timed_out ↦ receive_all fuel result.0 result.1.0
      | TcpReceived.waits ↦ []
      | TcpReceived.framing_failed e ↦ []
      | TcpReceived.conn_failed e ↦ []
    ]
      ≡ ps
goes_on-Arrival fuel ps reads _ next short h (gives p rest qs rs first left calm fewer) =
    let shorter : All IsShort (p ∷ qs) = subst (λ t. All IsShort t) first short in
    ap (λ t. p ∷ t) (next rest rs qs left shorter.1 calm (omega (arith, ap length first, h, fewer)))
    ∙ sym first
goes_on-Arrival fuel ps reads _ next short h (late buf rs left calm fewer) =
    next buf rs ps left short calm (omega (arith, h, fewer))
goes_on-Arrival fuel ps reads _ next short h (over f none_left) = sym none_left

receive_all-wire :
    (fuel : ℕ) (buf : Bytes) (reads : List ReadResult) (ps : List Bytes)
    → buf ++ all_bytes reads ≡ wire ps
    → All IsShort ps
    → All IsCalm reads
    → length ps + length reads ≤ fuel
    → receive_all fuel (framing buf) reads ≡ ps
unfolding receive_all
receive_all-wire zero buf reads [] e short calm h = refl
receive_all-wire zero buf reads (p ∷ ps) e short calm h = absurd (omega arith)
receive_all-wire (suc fuel) buf reads ps e short calm h =
    goes_on-Arrival fuel ps reads (tcp_recv (framing buf) reads) (receive_all-wire fuel) short h
      (tcp_recv-Arrival reads buf ps e short calm)

-- What Send puts on a connection that takes all of it.
abbrev pub sent : List Bytes → Bytes
sent [] = []
sent (p ∷ ps) = (tcp_send p true).1 ++ sent ps

-- Send refuses none of them.
abbrev pub AllSent : List Bytes → Type 0
AllSent ps = All (λ p. (tcp_send p true).0 ≡ none) ps

tcp_send-IsShort : (p : Bytes) → (tcp_send p true).0 ≡ none → IsShort p
unfolding tcp_send encode_frame
tcp_send-IsShort p h = ground (arith, h)

tcp_send-frame : (p : Bytes) → IsShort p → (tcp_send p true).1 ≡ frame p
unfolding tcp_send encode_frame
tcp_send-frame p h = ground (arith, h)

sent-wire : (ps : List Bytes) → AllSent ps → (sent ps ≡ wire ps) × All IsShort ps
sent-wire [] h = (refl, tt)
sent-wire (p ∷ ps) h =
    let short = tcp_send-IsShort p h.0 in
    let (rest, shorts) = sent-wire ps h.1 in
    (ap₂ ◌++◌ (tcp_send-frame p short) rest, (short, shorts))

-- Datagrams that Send accepts arrive: however the connection cuts what Send writes into reads, with
-- timeouts between and in them, calling Recv again and again gives these datagrams, each of them once
-- and in their order, and no other, as long as no read fails otherwise.
pub receive_all-sent :
    (ps : List Bytes) (reads : List ReadResult) (more : ℕ)
    → AllSent ps
    → all_bytes reads ≡ sent ps
    → All IsCalm reads
    → receive_all (length ps + length reads + more) (framing []) reads ≡ ps
receive_all-sent ps reads more h e calm =
    let (wired, short) = sent-wire ps h in
    receive_all-wire _ [] reads ps (e ∙ wired) short calm (omega arith)
