-- ===== src/Peers/Print.antt =====
-- A peers file that is written is read back.
use hopscotch.Common.{
  ℕ, ◌+◌, ◌≡◌, refl, sym, ap, ◌∙◌, Bool, true, false, not, ◌&&◌, Option, none, some, List, [], ◌∷◌,
  ◌++◌, append-nil, append_assoc, ◌==◌, if◌then◌else◌, All, All-append, length, arith, ◌⊎◌, inl,
  inr,
}
use hopscotch.Common.Bytes.{Bytes, IsByte, codes}
use hopscotch.Identity.Names
use hopscotch.Identity.Hex.{digit, encode_hex, public_hex, parse_public_key-public_hex}
use hopscotch.Endpoint.{Endpoint, to_string}
use hopscotch.Endpoint
use hopscotch.Peers.{
  Peer, Result, before_hash, flush, fields_from, fields, parse_endpoint, parse_fields, parse_lines,
  parse,
}

-- Neither a space nor a `#`.
abbrev pub is_plain : ℕ → Bool
is_plain c = not (Names.is_space c) && not (c == b'#')

abbrev pub IsPlain : Bytes → Type 0
IsPlain s = All (λ c. is_plain c ≡ true) s

-- A comment behind a line, or none.
abbrev pub comment : Option Bytes → Bytes
comment none = []
comment (some s) = b'#' ∷ s

-- A peer in the file: the address, behind the key if there is one.
abbrev pub line : Peer → Bytes
line p = if length p.key == 0 then p.addr else public_hex p.key ++ 32 ∷ p.addr

-- No key, or one of 32 bytes; and an address as endpoint.Parse and String give it.
pub record IsPeer (p : Peer) : Type 0 where
  pub key : (p.key ≡ []) ⊎ ((length p.key ≡ 32) × All IsByte p.key)
  pub plain : IsPlain p.addr
  pub first : ℕ
  pub others : Bytes
  pub nonempty : p.addr ≡ first ∷ others
  pub endpoint : Endpoint
  pub parsed : Endpoint.parse p.addr (codes "udp") ≡ some endpoint
  pub canonical : to_string endpoint ≡ p.addr

before_hash-comment :
    (s : Bytes) (c : Option Bytes)
    → All (λ b. (b == b'#') ≡ false) s
    → before_hash (s ++ comment c) ≡ s
unfolding before_hash
before_hash-comment [] none h = refl
before_hash-comment [] (some t) h = refl
before_hash-comment (b ∷ s) c h = rw (h.0, before_hash-comment s c h.1) refl

-- A plain text goes on with the field that is being read.
fields_from-plain : (w s t : Bytes) → IsPlain s → fields_from w (s ++ t) ≡ fields_from (w ++ s) t
unfolding fields_from
fields_from-plain w [] t h = rw (append-nil w) refl
fields_from-plain w (c ∷ s) t h =
    let inside : Names.is_space c ≡ false = ground (arith, h.0) in
    rw (inside, fields_from-plain (w ++ c ∷ []) s t h.1, append_assoc w (c ∷ []) s) refl

fields-word : (s : Bytes) → IsPlain s → fields s ≡ flush s []
unfolding fields fields_from
fields-word s h = ap (fields_from []) (sym (append-nil s)) ∙ fields_from-plain [] s [] h

fields-words : (s t : Bytes) → IsPlain s → IsPlain t → fields (s ++ 32 ∷ t) ≡ flush s (flush t [])
unfolding fields fields_from
fields-words s t h k = fields_from-plain [] s (32 ∷ t) h ∙ ap (flush s) (fields-word t k)

encode_hex-IsPlain : (bs : Bytes) → All IsByte bs → IsPlain (encode_hex bs)
unfolding encode_hex digit
encode_hex-IsPlain [] h = tt
encode_hex-IsPlain (b ∷ bs) h =
    (ground (arith, h.0), (ground (arith, h.0), encode_hex-IsPlain bs h.1))

not_hash : (s : Bytes) → IsPlain s → All (λ b. (b == b'#') ≡ false) s
not_hash [] h = tt
not_hash (c ∷ s) h = (ground (arith, h.0), not_hash s h.1)

parse_endpoint-addr : (p : Peer) → IsPeer p → parse_endpoint p.key p.addr ≡ Result.ok p
unfolding parse_endpoint
parse_endpoint-addr p h = rw (h.parsed, parse_endpoint, h.canonical) refl

-- The fields of a line, and the peer that they are read as.
record IsRead (p : Peer) : Type 0 where
  head : Bytes
  tail : List Bytes
  split : fields (line p) ≡ head ∷ tail
  read : parse_fields (head ∷ tail) ≡ Result.ok p
  no_hash : All (λ b. (b == b'#') ≡ false) (line p)

without_key : (p : Peer) → p.key ≡ [] → IsPeer p → IsRead p
unfolding parse_fields
without_key p e h =
    let bare : line p ≡ p.addr = rw e refl in
    let one : flush p.addr [] ≡ p.addr ∷ [] = rw h.nonempty refl in
    record {
      head = p.addr;
      tail = [];
      split = ap fields bare ∙ fields-word p.addr h.plain ∙ one;
      read = ap (λ k. parse_endpoint k p.addr) (sym e) ∙ parse_endpoint-addr p h;
      no_hash = rw bare (not_hash p.addr h.plain);
    }

flush-public_hex :
    (key : Bytes) (rest : List Bytes)
    → length key ≡ 32
    → flush (public_hex key) rest ≡ public_hex key ∷ rest
unfolding public_hex encode_hex
flush-public_hex [] rest long = absurd (omega (arith, long))
flush-public_hex (b ∷ bs) rest long = refl

with_key : (p : Peer) → length p.key ≡ 32 → All IsByte p.key → IsPeer p → IsRead p
unfolding parse_fields
with_key p long bytes h =
    let keyed : line p ≡ public_hex p.key ++ 32 ∷ p.addr = ground (arith, long) in
    let plain : IsPlain (public_hex p.key) = unfold public_hex in encode_hex-IsPlain p.key bytes in
    let one : flush p.addr [] ≡ p.addr ∷ [] = rw h.nonempty refl in
    let two : flush (public_hex p.key) (flush p.addr []) ≡ public_hex p.key ∷ p.addr ∷ [] =
      flush-public_hex p.key (flush p.addr []) long ∙ ap (λ fs. public_hex p.key ∷ fs) one in
    record {
      head = public_hex p.key;
      tail = p.addr ∷ [];
      split = ap fields keyed ∙ fields-words (public_hex p.key) p.addr plain h.plain ∙ two;
      read =
          rw (parse_public_key-public_hex p.key long bytes, parse_fields) (parse_endpoint-addr p h);
      no_hash = rw keyed (
          All-append (λ b. (b == b'#') ≡ false) (public_hex p.key) (32 ∷ p.addr)
            (not_hash (public_hex p.key) plain) (refl, not_hash p.addr h.plain));
    }

IsPeer-IsRead : (p : Peer) → IsPeer p → IsRead p
IsPeer-IsRead p h = elim h.key [
  | inl e ↦ without_key p e h
  | inr (long, bytes) ↦ with_key p long bytes h
]

-- The lines of a file: a peer with a comment or none, or only a comment.
pub data Entry : Type 0 where
  peer : Peer → Option Bytes → Entry
  remark : Option Bytes → Entry

abbrev pub text : Entry → Bytes
text (Entry.peer p c) = line p ++ comment c
text (Entry.remark c) = comment c

abbrev pub texts : List Entry → List Bytes
texts [] = []
texts (e ∷ es) = text e ∷ texts es

abbrev pub peers : List Entry → List Peer
peers [] = []
peers (Entry.peer p c ∷ es) = p ∷ peers es
peers (Entry.remark c ∷ es) = peers es

abbrev pub ArePeers : List Entry → Type 0
ArePeers [] = Unit
ArePeers (Entry.peer p c ∷ es) = IsPeer p × ArePeers es
ArePeers (Entry.remark c ∷ es) = ArePeers es

before_hash_blank : (c : Option Bytes) → fields (before_hash (comment c)) ≡ []
unfolding before_hash fields fields_from
before_hash_blank none = refl
before_hash_blank (some t) = refl

parse_lines-texts :
    (n : ℕ) (es : List Entry) → ArePeers es → parse_lines false n (texts es) ≡ Result.ok (peers es)
unfolding parse_lines
parse_lines-texts n [] h = refl
parse_lines-texts n (Entry.remark c ∷ es) h =
    rw (before_hash_blank c, parse_lines) (parse_lines-texts (n + 1) es h)
parse_lines-texts n (Entry.peer p c ∷ es) h =
    let r = IsPeer-IsRead p h.0 in
    rw
      (
        before_hash-comment (line p) c r.no_hash,
        parse_lines,
        r.split,
        parse_lines,
        r.read,
        parse_lines-texts (n + 1) es h.1,
      )
      refl

-- A peers file is read back as it was written: each line has the address of a peer, in the form of
-- Endpoint.String and without spaces and `#`, behind its key of 32 bytes if it has one, or nothing,
-- and may end in a comment. Parse gives the peers in their order, if the scanner gives these lines and
-- does not fail.
pub parse-texts : (es : List Entry) → ArePeers es → parse false (texts es) ≡ Result.ok (peers es)
unfolding parse
parse-texts es h = parse_lines-texts 0 es h
