-- ===== src/Socks/Client.antt =====
-- What a client of the proxy gets.
use hopscotch.Common.{
  ℕ, ◌≡◌, ◌<◌, refl, ap, ◌∙◌, Bool, true, false, none, some, [], ◌∷◌, ◌++◌, length,
}
use hopscotch.Common.Bytes.{Bytes, same}
use hopscotch.Common.Reader.{read_full-append}
use hopscotch.Ip.{to4}
use hopscotch.Socks.{
  ver5, atyp_ipv4, rep_success, rep_general, rep_host, rep_refused, SocksError, Result, handshake,
  read_request, write_reply, Dialed, Served, answer, after_handshake, handle,
}
use hopscotch.Socks.Request.{Host, IsHost, host_text, request, read_request-request}

-- The greeting of a client that offers `methods`, and the answer to it.
abbrev pub greeting : Bytes → Bytes
greeting methods = ver5 ∷ length methods ∷ methods

abbrev pub no_auth : Bytes
no_auth = ver5 ∷ 0 ∷ []

-- A reply as RFC 1928 lays it out, with the address 0.0.0.0 and the port 0.
abbrev pub reply : ℕ → Bytes
reply rep = ver5 ∷ rep ∷ 0 ∷ atyp_ipv4 ∷ 0 ∷ 0 ∷ 0 ∷ 0 ∷ 0 ∷ 0 ∷ []

abbrev pub reply_code : Dialed → ℕ
reply_code Dialed.connected = rep_success
reply_code Dialed.refused = rep_refused
reply_code Dialed.failed = rep_host

abbrev pub is_connected : Dialed → Bool
is_connected Dialed.connected = true
is_connected Dialed.refused = false
is_connected Dialed.failed = false

-- One dial, and one reply after the answer to the greeting.
abbrev pub served : Bytes → ℕ → Dialed → Served
served host port d = record {
  sent = no_auth ∷ reply (reply_code d) ∷ [];
  dialed = some (host, port);
  joined = is_connected d;
}

handshake-greeting :
    (methods rest : Bytes)
    → handshake true (greeting methods ++ rest) ≡ (no_auth ∷ [], Result.ok rest)
unfolding handshake
handshake-greeting methods rest =
    rw
      (
        read_full-append 2 (ver5 ∷ length methods ∷ []) (methods ++ rest) refl,
        handshake,
        read_full-append (length methods) methods rest refl,
      )
      refl

answer_lem :
    (host : Bytes) (port : ℕ) (d : Dialed)
    → answer true (no_auth ∷ []) (host, port) d ≡ served host port d
unfolding answer write_reply to4 same
answer_lem host port Dialed.connected = refl
answer_lem host port Dialed.refused = refl
answer_lem host port Dialed.failed = refl

-- A client that greets with its methods behind their number, and sends a request for an address of 4
-- or 16 bytes or a name of at most 255 bytes, and a port of 16 bits, whatever follows: it is answered
-- without authentication, its host and port are dialed, and it gets one reply, by the result: success,
-- refused, or host unreachable. The connections are joined exactly if the dial succeeded. What is
-- written to the client is taken.
pub handle_lem :
    (dial : Bytes → ℕ → Dialed) (methods : Bytes) (h : Host) (port : ℕ) (rest : Bytes)
    → IsHost h
    → port < 65536
    → handle true true dial (greeting methods ++ (request h port ++ rest))
      ≡ served (host_text h) port (dial (host_text h) port)
unfolding handle after_handshake
handle_lem dial methods h port rest e e' =
    let read = read_request-request h port rest e e' in
    let answered : after_handshake true dial (no_auth ∷ [], Result.ok (request h port ++ rest))
        ≡ answer true (no_auth ∷ []) (host_text h, port) (dial (host_text h) port) =
      rw (read, after_handshake) refl in
    ap (after_handshake true dial) (handshake-greeting methods (request h port ++ rest))
    ∙ answered
    ∙ answer_lem (host_text h) port (dial (host_text h) port)

reply_general : write_reply rep_general [] 0 ≡ reply rep_general
unfolding write_reply to4 same
reply_general = refl

-- A client that greets and whose request cannot be read, so cut short, of another version or command,
-- or with an unknown type of address, gets the reply of a general failure, and nothing is dialed.
pub handle-read_request :
    (taken : Bool) (dial : Bytes → ℕ → Dialed) (methods rest : Bytes) (e : SocksError)
    → read_request rest ≡ Result.err e
    → handle true taken dial (greeting methods ++ rest)
      ≡ record { sent = no_auth ∷ reply rep_general ∷ []; dialed = none; joined = false }
unfolding handle after_handshake
handle-read_request taken dial methods rest e bad =
    ap (after_handshake taken dial) (handshake-greeting methods rest)
    ∙ rw (bad, after_handshake, reply_general) refl
