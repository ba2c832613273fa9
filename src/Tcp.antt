-- ===== src/Tcp.antt =====
-- internal/backend/tcp.go: datagrams over a TCP connection. The connection is what its reads give, in
-- their order. A deadline that cannot be set ends Recv as a read that fails without bytes does.
pub mod Stream
mod Tests
use hopscotch.Common.{Bool, true, false, Option, none, some, List, [], ◌∷◌, if◌then◌else◌}
use hopscotch.Common.Bytes.{Bytes}
use hopscotch.Framer.{StreamFramer, FrameError, Result, encode_frame, write, has_frame, next_frame}

pub data ReadError : Type 0 where
  timeout eof broken : ReadError

-- What one Read of the connection gives: the bytes, and an error or none.
pub record ReadResult : Type 0 where
  pub bytes : Bytes
  pub error : Option ReadError

-- What Recv returns; `waits` still reads.
pub data TcpReceived : Type 0 where
  got : Bytes → TcpReceived
  framing_failed : FrameError → TcpReceived
  conn_failed : ReadError → TcpReceived
  timed_out waits : TcpReceived

-- The framer, the reads that are left, and what Recv returns.
abbrev pub Recv : Type 0
Recv = StreamFramer × (List ReadResult × TcpReceived)

pub data TcpError : Type 0 where
  not_framed : FrameError → TcpError
  not_written : TcpError

-- The bytes that Send writes, or its error; whether the connection takes them is an argument.
unfoldable pub tcp_send : Bytes → Bool → Option TcpError × Bytes
tcp_send payload works = elim (encode_frame payload) [
  | Result.err e ↦ (some (TcpError.not_framed e), [])
  | Result.ok buf ↦ if works then (none, buf) else (some TcpError.not_written, [])
]

-- return s.framer.NextFrame()
unfoldable pub give_frame : StreamFramer → List ReadResult → Recv
give_frame f rs =
    let (f', r) = next_frame f in
    (f', (rs, elim r [ Result.ok p ↦ got p | Result.err e ↦ framing_failed e ]))

abbrev pub is_empty : Bytes → Bool
is_empty [] = true
is_empty (b ∷ bs) = false

-- if n > 0 { s.framer.Write(buf[:n]) }
abbrev pub written : StreamFramer → Bytes → StreamFramer
written f b = if is_empty b then f else write f b

-- A read that failed, with the framer after its bytes. With bytes, a timeout goes on: `rest`.
unfoldable pub failed_read : StreamFramer → ReadResult → ReadError → List ReadResult → Recv → Recv
failed_read f r ReadError.timeout rs rest = if is_empty r.bytes then (f, (rs, timed_out)) else rest
failed_read f r ReadError.eof rs rest =
    if has_frame f then give_frame f rs else (f, (rs, conn_failed ReadError.eof))
failed_read f r ReadError.broken rs rest = (f, (rs, conn_failed ReadError.broken))

unfoldable pub after_read : StreamFramer → ReadResult → List ReadResult → Recv → Recv
after_read f r rs rest = elim r.error [ none ↦ rest | some e ↦ failed_read f r e rs rest ]

unfoldable pub tcp_recv : StreamFramer → List ReadResult → Recv
tcp_recv f [] = elim f.err [
  | some e ↦ (f, ([], framing_failed e))
  | none ↦ if has_frame f then give_frame f [] else (f, ([], waits))
]
tcp_recv f (r ∷ rs) =
    let f' = written f r.bytes in
    let rest = tcp_recv f' rs in
    elim f.err [
      | some e ↦ (f, (r ∷ rs, framing_failed e))
      | none ↦ if has_frame f then give_frame f (r ∷ rs) else after_read f' r rs rest
    ]
