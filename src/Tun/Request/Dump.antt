-- ===== src/Tun/Request/Dump.antt =====
-- A dump gives the routes that the kernel reports, in its order.
use hopscotch.Common.{
  ℕ, zero, suc, ◌+◌, ◌-◌, ◌≤◌, ◌<◌, ◌≡◌, ◌≢◌, refl, sym, ap, ◌∙◌, inr, map, Bool, true, false, some,
  ◌*◌, List, [], ◌∷◌, ◌++◌, append_assoc, append-nil, ltb, ◌==◌, if◌then◌else◌, length,
  length-append, drop, take-append, drop-append, All, arith,
}
use mathlib.Core.Path.{ap₂}
use hopscotch.Common.Bytes.{Bytes, slice, uint16-put, uint32-put}
use hopscotch.Tun.Netlink.{Endian, put16, put32, get16, get32, RouteEntry, route_entries}
use hopscotch.Tun.Netlink.Routes.{KernelRoute, kernel_payload, Reports, route_entry-Reports}
use hopscotch.Tun.Request.{
  message, any_route, rtm_getroute, rtm_newroute, nlmsg_done, nlmsg_error, dumped, more,
  read_messages, Receipt, complete, dump_loop, nl_dump, table_of, nl_routes_dump,
}

-- A message of the kernel.
pub record Note : Type 0 where
  pub typ : ℕ
  pub flags : ℕ
  pub seq : ℕ
  pub pid : ℕ
  pub body : Bytes

abbrev pub note_bytes : Endian → Note → Bytes
note_bytes e n =
    put32 e (16 + length n.body)
    ++ (put16 e n.typ ++ (put16 e n.flags ++ (put32 e n.seq ++ (put32 e n.pid ++ n.body))))

pub record IsNote (n : Note) : Type 0 where
  pub typed : n.typ < 65536
  pub fits : length n.body + 16 < 4294967296

length-note_bytes : (e : Endian) (n : Note) → length (note_bytes e n) ≡ 16 + length n.body
unfolding put16 put32
length-note_bytes Endian.little n = omega arith
length-note_bytes Endian.big n = omega arith

get32-note_bytes :
    (e : Endian) (n : Note) (rest : Bytes)
    → IsNote n
    → get32 e (note_bytes e n ++ rest) 0 ≡ 16 + length n.body
unfolding put32 get32
get32-note_bytes Endian.little n rest h = uint32-put _ (omega (arith, h.fits))
get32-note_bytes Endian.big n rest h = uint32-put _ (omega (arith, h.fits))

get16-note_bytes :
    (e : Endian) (n : Note) (rest : Bytes) → IsNote n → get16 e (note_bytes e n ++ rest) 4 ≡ n.typ
unfolding put16 put32 get16
get16-note_bytes Endian.little n rest h = uint16-put _ h.typed
get16-note_bytes Endian.big n rest h = uint16-put _ h.typed

drop-note_bytes :
    (e : Endian) (n : Note) (rest : Bytes) → drop 16 (note_bytes e n ++ rest) ≡ n.body ++ rest
unfolding put16 put32
drop-note_bytes Endian.little n rest = refl
drop-note_bytes Endian.big n rest = refl

slice-note_bytes :
    (e : Endian) (n : Note) (rest : Bytes)
    → slice (note_bytes e n ++ rest) 16 (16 + length n.body) ≡ n.body
slice-note_bytes e n rest = rw (drop-note_bytes e n rest) (take-append _ n.body rest (omega arith))

-- The bodies of the routes among the messages.
abbrev pub bodies : List Note → List Bytes
bodies [] = []
bodies (n ∷ ns) = if n.typ == rtm_newroute then n.body ∷ bodies ns else bodies ns

abbrev pub notes_bytes : Endian → List Note → Bytes
notes_bytes e [] = []
notes_bytes e (n ∷ ns) = note_bytes e n ++ notes_bytes e ns

-- A message that does not end a dump.
abbrev pub Goes : Note → Type 0
Goes n = IsNote n × ((n.typ ≢ nlmsg_done) × (n.typ ≢ nlmsg_error))

collected :
    (is_route : Bool) (payloads : List Bytes) (b : Bytes) (bs : List Bytes)
    → (if is_route then payloads ++ (b ∷ []) else payloads) ++ bs
      ≡ payloads ++ (if is_route then b ∷ bs else bs)
collected true payloads b bs = append_assoc payloads (b ∷ []) bs
collected false payloads b bs = refl

module _ (e : Endian) (n : Note) (rest : Bytes) (fuel : ℕ) (payloads : List Bytes) where
  read_messages-Goes :
      Goes n
      → read_messages e (suc fuel) (note_bytes e n ++ rest) payloads
        ≡ read_messages e fuel rest
            (if n.typ == rtm_newroute then payloads ++ (n.body ∷ []) else payloads)
  unfolding read_messages
  read_messages-Goes h = ground (
    arith,
    get32-note_bytes e n rest h.0,
    get16-note_bytes e n rest h.0,
    slice-note_bytes e n rest,
    length-append (note_bytes e n) rest,
    length-note_bytes e n,
    drop-append (16 + length n.body) (note_bytes e n) rest (length-note_bytes e n),
  )

  read_messages_done :
      IsNote n
      → n.typ ≡ nlmsg_done
      → read_messages e (suc fuel) (note_bytes e n ++ rest) payloads ≡ dumped payloads
  unfolding read_messages
  read_messages_done h end = ground (
    arith,
    get32-note_bytes e n rest h,
    get16-note_bytes e n rest h,
    length-append (note_bytes e n) rest,
    length-note_bytes e n,
  )

read_messages-notes :
    (e : Endian) (ns : List Note) (rest : Bytes) (fuel : ℕ) (payloads : List Bytes)
    → All Goes ns
    → length ns ≤ fuel
    → read_messages e fuel (notes_bytes e ns ++ rest) payloads
      ≡ read_messages e (fuel - length ns) rest (payloads ++ bodies ns)
read_messages-notes e [] rest fuel payloads h enough =
    ap₂ (λ k b. read_messages e k rest b) (omega arith) (sym (append-nil payloads))
read_messages-notes e (n ∷ ns) rest zero payloads h enough = absurd (omega arith)
read_messages-notes e (n ∷ ns) rest (suc fuel) payloads h enough =
    ap (λ b. read_messages e (suc fuel) b payloads)
      (append_assoc (note_bytes e n) (notes_bytes e ns) rest)
    ∙ read_messages-Goes e n (notes_bytes e ns ++ rest) fuel payloads h.0
    ∙ read_messages-notes e ns rest fuel _ h.1 (omega arith)
    ∙ ap₂ (λ k b. read_messages e k rest b) (omega arith)
        (collected (n.typ == rtm_newroute) payloads n.body (bodies ns))

read_messages-nil :
    (e : Endian) (fuel : ℕ) (payloads : List Bytes)
    → read_messages e fuel [] payloads ≡ more payloads
unfolding read_messages
read_messages-nil e zero payloads = refl
read_messages-nil e (suc fuel) payloads = refl

length-notes_bytes : (e : Endian) (ns : List Note) → length ns * 16 ≤ length (notes_bytes e ns)
length-notes_bytes e [] = omega arith
length-notes_bytes e (n ∷ ns) = omega (
  arith,
  length-append (note_bytes e n) (notes_bytes e ns),
  length-note_bytes e n,
  length-notes_bytes e ns,
)

-- What one Recvfrom after the other gives, the last of them with the end of the dump, and the bodies
-- in it.
abbrev pub receipts : Endian → List (List Note) → List Note → Note → Bytes → List Receipt
receipts e [] ns end rest = Receipt.received (notes_bytes e ns ++ (note_bytes e end ++ rest)) ∷ []
receipts e (c ∷ chunks) ns end rest =
    Receipt.received (notes_bytes e c) ∷ receipts e chunks ns end rest

abbrev pub all_bodies : List (List Note) → List Note → List Bytes
all_bodies [] ns = bodies ns
all_bodies (c ∷ chunks) ns = bodies c ++ all_bodies chunks ns

-- A datagram of the socket holds a message at least.
abbrev pub GoesOn : List Note → Type 0
GoesOn c = All Goes c × (0 < length c)

module _ (e : Endian) (payloads : List Bytes) where
  read_chunk :
      (c : List Note)
      → GoesOn c
      → read_messages e (length (notes_bytes e c)) (notes_bytes e c) payloads
        ≡ more (payloads ++ bodies c)
  read_chunk c h =
      let size = length-notes_bytes e c in
      ap (λ b. read_messages e (length (notes_bytes e c)) b payloads)
        (sym (append-nil (notes_bytes e c)))
      ∙ read_messages-notes e c [] _ payloads h.0 (omega (arith, size))
      ∙ read_messages-nil e _ _

  read_last :
      (ns : List Note) (end : Note) (rest : Bytes)
      → All Goes ns
      → IsNote end
      → end.typ ≡ nlmsg_done
      → let b = notes_bytes e ns ++ (note_bytes e end ++ rest) in
        read_messages e (length b) b payloads ≡ dumped (payloads ++ bodies ns)
  read_last ns end rest h fine done =
      let b = notes_bytes e ns ++ (note_bytes e end ++ rest) in
      let size : 16 + length ns ≤ length b = omega (
        arith,
        length-append (notes_bytes e ns) (note_bytes e end ++ rest),
        length-append (note_bytes e end) rest,
        length-note_bytes e end,
        length-notes_bytes e ns,
      ) in
      let enough : length b - length ns ≡ suc (length b - length ns - 1) = omega (arith, size) in
      read_messages-notes e ns (note_bytes e end ++ rest) (length b) payloads h
        (omega (arith, size))
      ∙ ap (λ k. read_messages e k (note_bytes e end ++ rest) (payloads ++ bodies ns)) enough
      ∙ read_messages_done e end rest _ _ fine done

-- The routes that messages report, one for each and in their order.
abbrev pub AreReported : Endian → List KernelRoute → List RouteEntry → Type 0
AreReported e [] [] = Unit {0}
AreReported e [] (r ∷ rs) = ⊥
AreReported e (k ∷ ks) [] = ⊥
AreReported e (k ∷ ks) (r ∷ rs) = Reports e k r × AreReported e ks rs

route_entries-AreReported :
    (e : Endian) (ks : List KernelRoute) (rs : List RouteEntry)
    → AreReported e ks rs
    → route_entries e (map (kernel_payload e) ks) ≡ rs
unfolding route_entries
route_entries-AreReported e [] [] h = refl
route_entries-AreReported e [] (r ∷ rs) h = absurd h
route_entries-AreReported e (k ∷ ks) [] h = absurd h
route_entries-AreReported e (k ∷ ks) (r ∷ rs) h =
    ground (arith, route_entry-Reports e k r h.0, route_entries-AreReported e ks rs h.1)

-- What a run of receipts ends with.
pub record Ends (ns : List Note) (end : Note) : Type 0 where
  pub all_go : All Goes ns
  pub fits : IsNote end
  pub done : end.typ ≡ nlmsg_done

dump_loop-receipts :
    (e : Endian) (chunks : List (List Note)) (ns : List Note) (end : Note) (rest : Bytes)
    (payloads : List Bytes)
    → All GoesOn chunks
    → Ends ns end
    → dump_loop e (receipts e chunks ns end rest) payloads
      ≡ some (complete (payloads ++ all_bodies chunks ns))
unfolding dump_loop
dump_loop-receipts e [] ns end rest payloads h last =
    let long : ltb (length (notes_bytes e ns ++ (note_bytes e end ++ rest))) 16 ≡ false = ground (
      arith,
      length-append (notes_bytes e ns) (note_bytes e end ++ rest),
      length-append (note_bytes e end) rest,
      length-note_bytes e end,
    ) in
    rw (long, read_last e payloads ns end rest last.all_go last.fits last.done) refl
dump_loop-receipts e (c ∷ chunks) ns end rest payloads h last =
    let long : ltb (length (notes_bytes e c)) 16 ≡ false =
      ground (arith, length-notes_bytes e c, h.0.1) in
    rw (long, read_chunk e payloads c h.0)
      (dump_loop-receipts e chunks ns end rest (payloads ++ bodies c) h.1 last
        ∙ ap (λ b. some (complete b)) (append_assoc payloads (bodies c) (all_bodies chunks ns)))

-- The kernel answers the dump of the routes by datagrams of messages, the last of them with the end of
-- the dump. Each route message is a struct rtmsg with attributes of any types behind it, none of them
-- empty or above 65,531 bytes, among them at most a gateway of the size of its family and an interface
-- as a word. Whichever datagrams they are spread over and whatever other messages stand between them,
-- nlRoutesDump gives family, prefix length, gateway and interface of each route, nil and 0 where an
-- attribute is not there and by the last one where it is repeated, each route once and in the order of
-- the kernel, in either byte order.
pub nl_routes_dump_lem :
    (e : Endian) (pid : ℕ) (exchange : Bytes → List Receipt) (chunks : List (List Note))
    (ns : List Note) (end : Note) (rest : Bytes) (routes : List KernelRoute)
    (entries : List RouteEntry)
    → exchange (message e rtm_getroute 769 pid any_route) ≡ receipts e chunks ns end rest
    → All GoesOn chunks
    → Ends ns end
    → all_bodies chunks ns ≡ map (kernel_payload e) routes
    → AreReported e routes entries
    → nl_routes_dump e pid exchange ≡ some (inr entries)
unfolding nl_routes_dump nl_dump
nl_routes_dump_lem e pid exchange chunks ns end rest routes entries answers h last same_bodies
      fine =
    ap (λ rs. table_of e (dump_loop e rs [])) answers
    ∙ ap (table_of e) (dump_loop-receipts e chunks ns end rest [] h last)
    ∙ rw same_bodies (
        unfold table_of in ap (λ t. some (inr t)) (route_entries-AreReported e routes entries fine))
