-- ===== src/Tcp/Tests.antt =====
-- A connection that cuts its stream, and the theorem at a concrete input.
use hopscotch.Common.{◌≡◌, refl, none, some, inl, inr, List, [], ◌∷◌}
use hopscotch.Common.Bytes.{Bytes}
use hopscotch.Framer.{encode_frame, write, peek, has_frame, next_frame}
use hopscotch.Framer.Stream.{framing}
use hopscotch.Tcp.{
  ReadError, ReadResult, tcp_send, give_frame, failed_read, after_read, tcp_recv, TcpReceived,
}
use hopscotch.Tcp.Stream.{receive_all, AllSent, receive_all-sent}

abbrev datagrams : List Bytes
datagrams = (7 ∷ 8 ∷ []) ∷ [] ∷ (9 ∷ []) ∷ []

abbrev plain : Bytes → ReadResult
plain b = record { bytes = b; error = none }

abbrev slow : Bytes → ReadResult
slow b = record { bytes = b; error = some ReadError.timeout }

abbrev reads : List ReadResult
reads =
    plain (0 ∷ 0 ∷ 0 ∷ [])
    ∷ slow []
    ∷ slow (2 ∷ 7 ∷ [])
    ∷ plain (8 ∷ 0 ∷ 0 ∷ 0 ∷ 0 ∷ 0 ∷ [])
    ∷ plain (0 ∷ 0 ∷ 1 ∷ 9 ∷ [])
    ∷ []

all_sent : AllSent datagrams
unfolding tcp_send encode_frame
all_sent = (refl, (refl, (refl, tt)))

at_eof :
    (tcp_recv
      (framing [])
      (record { bytes = 0 ∷ 0 ∷ 0 ∷ 1 ∷ 5 ∷ []; error = some ReadError.eof } ∷ [])).1.1
    ≡ TcpReceived.got (5 ∷ [])
unfolding tcp_recv after_read failed_read give_frame next_frame has_frame peek write
at_eof = refl

receive_all-sent_example : receive_all 8 (framing []) reads ≡ datagrams
receive_all-sent_example =
    receive_all-sent datagrams reads 0 all_sent (unfold tcp_send in unfold encode_frame in refl)
      (inl refl, (inr refl, (inr refl, (inl refl, (inl refl, tt)))))
