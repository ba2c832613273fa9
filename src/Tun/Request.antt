-- ===== src/Tun/Request.antt =====
-- internal/tun/tun_linux.go and rtnetlink_linux.go: netlink requests, their acknowledgments, and the
-- replies to a dump. The socket is a parameter: what it answers to the bytes that are sent.
pub mod Dump
use hopscotch.Common.{
  ℕ, zero, suc, ◌+◌, ◌-◌, ◌⊎◌, inl, inr, Bool, true, false, ◌||◌, Option, none, some, List, [], ◌∷◌,
  ◌++◌, ltb, ◌==◌, if◌then◌else◌, length, drop,
}
use hopscotch.Common.Bytes.{Bytes, slice}
use hopscotch.Tun.Netlink.{
  Endian, put16, put32, get16, get32, size_header, size_error, size_route, RouteSpec, RouteEntry,
  route_payload, route_entries,
}

pub data RequestError : Type 0 where
  errno : ℕ → RequestError
  short_reply short_dump short_error : RequestError

-- What one Recvfrom gives, or the error of a system call before it.
pub data Receipt : Type 0 where
  failed : ℕ → Receipt
  received : Bytes → Receipt

abbrev pub nlmsg_error : ℕ
nlmsg_error = 2

abbrev pub nlmsg_done : ℕ
nlmsg_done = 3

abbrev pub rtm_newroute : ℕ
rtm_newroute = 24

abbrev pub rtm_delroute : ℕ
rtm_delroute = 25

abbrev pub rtm_getroute : ℕ
rtm_getroute = 26

-- unix.NlMsghdr with the sequence number 1, and the payload.
unfoldable pub message : Endian → ℕ → ℕ → ℕ → Bytes → Bytes
message e typ flags pid payload =
    put32 e (size_header + length payload)
    ++ (put16 e typ ++ (put16 e flags ++ (put32 e 1 ++ (put32 e pid ++ payload))))

-- syscall.Errno(-code), of a code that is a two's complement word of 32 bits.
unfoldable pub negated : ℕ → ℕ
negated code = if ltb 2147483648 code then 4294967296 - code else 18446744073709551616 - code

-- The end of nlReq: a route or an address that is there already is no error.
unfoldable pub acknowledged : Endian → Bytes → Option RequestError
acknowledged e b =
    let code = get32 e b size_header in
    if ltb (length b) (size_header + size_error)
    then some RequestError.short_reply
    else if get16 e b 4 == nlmsg_error
    then if code == 0
      then none
      else if negated code == 17
      then none
      else some (RequestError.errno (negated code))
    else none

module _ (e : Endian) (pid : ℕ) (exchange : Bytes → Receipt) where
  unfoldable pub nl_req : ℕ → ℕ → Bytes → Option RequestError
  nl_req typ flags payload = elim (exchange (message e typ flags pid payload)) [
    | Receipt.failed n ↦ some (RequestError.errno n)
    | Receipt.received b ↦ acknowledged e b
  ]

  unfoldable pub nl_route_msg : ℕ → ℕ → RouteSpec → Option RequestError
  nl_route_msg typ flags s = nl_req typ flags (route_payload e s)

  -- The flags are request, ack, create and replace.
  unfoldable pub nl_route_replace : RouteSpec → Option RequestError
  nl_route_replace s = nl_route_msg rtm_newroute 1285 s

  -- The flags are request and ack. ESRCH and ENOENT are no error.
  unfoldable pub nl_route_delete : RouteSpec → Option RequestError
  nl_route_delete s = elim (nl_route_msg rtm_delroute 5 s) [
    | some (RequestError.errno n) ↦
        if (n == 3) || (n == 2) then none else some (RequestError.errno n)
    | r ↦ r
  ]

-- How the messages of one receipt end: with what the dump comes to, or with the payloads so far.
pub data Messages : Type 0 where
  dumped more : List Bytes → Messages
  refused : RequestError → Messages

-- The end of a dump by an error message: code 0 is success.
unfoldable pub dump_error : Endian → Bytes → List Bytes → Messages
dump_error e body payloads =
    let code = get32 e body 0 in
    if ltb (length body) size_error
    then refused RequestError.short_error
    else if code == 0
    then dumped payloads
    else refused (RequestError.errno (negated code))

-- The loop over the messages of a receipt, on what is left of it, and on fuel: each takes at least
-- sixteen bytes off.
unfoldable pub read_messages : Endian → ℕ → Bytes → List Bytes → Messages
read_messages e zero b payloads = more payloads
read_messages e (suc fuel) b payloads =
    let len = get32 e b 0 in
    let typ = get16 e b 4 in
    let body = slice b size_header len in
    let payloads' = if typ == rtm_newroute then payloads ++ (body ∷ []) else payloads in
    let rest = read_messages e fuel (drop len b) payloads' in
    if ltb (length b) size_header
    then more payloads
    else if ltb len size_header || ltb (length b) len
    then more payloads
    else if typ == nlmsg_done
    then dumped payloads
    else if typ == nlmsg_error
    then dump_error e body payloads
    else rest

pub data Reply : Type 0 where
  complete : List Bytes → Reply
  broken : RequestError → Reply

-- The loop of nlDump over the receipts; `none` still waits for one.
unfoldable pub dump_loop : Endian → List Receipt → List Bytes → Option Reply
dump_loop e [] payloads = none
dump_loop e (Receipt.failed n ∷ rs) payloads = some (broken (RequestError.errno n))
dump_loop e (Receipt.received b ∷ rs) payloads =
    if ltb (length b) size_header
    then some (broken RequestError.short_dump)
    else elim (read_messages e (length b) b payloads) [
      | dumped all ↦ some (complete all)
      | refused why ↦ some (broken why)
      | more all ↦ dump_loop e rs all
    ]

-- The request of nlDump, with the flags request and dump, and what comes back. An error before the
-- first Recvfrom is a first receipt that failed.
unfoldable pub nl_dump : Endian → ℕ → (Bytes → List Receipt) → ℕ → Bytes → Option Reply
nl_dump e pid exchange typ payload = dump_loop e (exchange (message e typ 769 pid payload)) []

-- What nlRoutesDump makes of a dump.
unfoldable pub table_of : Endian → Option Reply → Option (RequestError ⊎ List RouteEntry)
table_of e none = none
table_of e (some (broken why)) = some (inl why)
table_of e (some (complete payloads)) = some (inr (route_entries e payloads))

-- An RtMsg of the main table, empty but for that.
abbrev pub any_route : Bytes
any_route = 0 ∷ 0 ∷ 0 ∷ 0 ∷ 254 ∷ 0 ∷ 0 ∷ 0 ∷ 0 ∷ 0 ∷ 0 ∷ 0 ∷ []

-- `none` still waits.
unfoldable pub nl_routes_dump :
    Endian → ℕ → (Bytes → List Receipt) → Option (RequestError ⊎ List RouteEntry)
nl_routes_dump e pid exchange = table_of e (nl_dump e pid exchange rtm_getroute any_route)
