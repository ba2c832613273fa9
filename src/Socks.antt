-- ===== src/Socks.antt =====
-- internal/socks/socks.go: the CONNECT proxy, for one client.
-- What a client sends is the bytes that its connection gives before it ends; the function that dials,
-- and whether the connection takes what is written, are arguments. Deadlines, logging and the copying
-- of the two directions are left out.
pub mod Request
pub mod Client
mod Tests
use hopscotch.Common.{
  ℕ, ◌+◌, ◌*◌, ◌%◌, Bool, true, false, not, ◌||◌, Option, none, some, List, [], ◌∷◌, ◌++◌, ◌==◌,
  length, if◌then◌else◌,
}
use hopscotch.Common.Bytes.{Bytes, at, uint16, put_uint16}
use hopscotch.Common.Reader.{read_full}
use hopscotch.Ip.{to4, to16, ip_string, v4_prefix}

abbrev pub ver5 : ℕ
ver5 = 5

abbrev pub cmd_connect : ℕ
cmd_connect = 1

abbrev pub atyp_ipv4 : ℕ
atyp_ipv4 = 1

abbrev pub atyp_domain : ℕ
atyp_domain = 3

abbrev pub atyp_ipv6 : ℕ
atyp_ipv6 = 4

abbrev pub rep_success : ℕ
rep_success = 0

abbrev pub rep_general : ℕ
rep_general = 1

abbrev pub rep_host : ℕ
rep_host = 4

abbrev pub rep_refused : ℕ
rep_refused = 5

pub data SocksError : Type 0 where
  ended version not_written unsupported_cmd unsupported_atyp : SocksError

pub data Result {ℓ} (A : Type ℓ) : Type ℓ where
  ok : A → Result A
  err : SocksError → Result A

-- What is written, and the rest of the stream.
unfoldable pub handshake : Bool → Bytes → List Bytes × Result Bytes
handshake taken c = elim (read_full 2 c) [
  | none ↦ ([], Result.err ended)
  | some (hdr, after) ↦
      if not (at hdr 0 == ver5)
      then ([], Result.err version)
      else elim (read_full (at hdr 1) after) [
        | none ↦ ([], Result.err ended)
        | some (methods, rest) ↦
            if taken then ((ver5 ∷ 0 ∷ []) ∷ [], Result.ok rest) else ([], Result.err not_written)
      ]
]

-- The port behind the host, and the rest of the stream.
unfoldable pub read_port : Bytes → Bytes → Result ((Bytes × ℕ) × Bytes)
read_port host c = elim (read_full 2 c) [
  | none ↦ Result.err ended
  | some (pb, rest) ↦ Result.ok ((host, uint16 (at pb 0) (at pb 1)), rest)
]

-- The host as a text, in the form that `atyp` says.
unfoldable pub read_host : ℕ → Bytes → Result (Bytes × Bytes)
read_host atyp c =
    if atyp == atyp_ipv4
    then elim (read_full 4 c) [
      | none ↦ Result.err ended
      | some (a, rest) ↦ Result.ok (ip_string a, rest)
    ]
    else if atyp == atyp_ipv6
    then elim (read_full 16 c) [
      | none ↦ Result.err ended
      | some (a, rest) ↦ Result.ok (ip_string a, rest)
    ]
    else if atyp == atyp_domain
    then elim (read_full 1 c) [
      | none ↦ Result.err ended
      | some (n, after) ↦ elim (read_full (at n 0) after) [
        | none ↦ Result.err ended
        | some (b, rest) ↦ Result.ok (b, rest)
      ]
    ]
    else Result.err unsupported_atyp

unfoldable pub read_request : Bytes → Result ((Bytes × ℕ) × Bytes)
read_request c = elim (read_full 4 c) [
  | none ↦ Result.err ended
  | some (hdr, after) ↦
      if not (at hdr 0 == ver5) || not (at hdr 1 == cmd_connect)
      then Result.err unsupported_cmd
      else elim (read_host (at hdr 3) after) [
        | Result.err e ↦ Result.err e
        | Result.ok (host, rest) ↦ read_port host rest
      ]
]

-- net.IPv4zero
abbrev pub ipv4_zero : Bytes
ipv4_zero = v4_prefix ++ 0 ∷ 0 ∷ 0 ∷ 0 ∷ []

-- A nil address is `[]`.
unfoldable pub write_reply : ℕ → Bytes → ℕ → Bytes
write_reply rep ip port =
    let addr = if length ip == 0 then ipv4_zero else ip in
    (if length (to4 addr) == 0
      then ver5 ∷ rep ∷ 0 ∷ atyp_ipv6 ∷ to16 addr
      else ver5 ∷ rep ∷ 0 ∷ atyp_ipv4 ∷ to4 addr)
    ++ put_uint16 port

-- What the dialing function returns: a connection, or an error with or without "refused" in its text.
pub data Dialed : Type 0 where
  connected refused failed : Dialed

-- What became of a client: what was written, where was dialed, and whether the two connections were
-- joined.
pub record Served : Type 0 where
  pub sent : List Bytes
  pub dialed : Option (Bytes × ℕ)
  pub joined : Bool

-- From the dialing on; `taken` is whether the reply of a success was written.
unfoldable pub answer : Bool → List Bytes → Bytes × ℕ → Dialed → Served
answer taken sent target Dialed.connected =
    if taken
    then record {
      sent = sent ++ write_reply rep_success ipv4_zero 0 ∷ [];
      dialed = some target;
      joined = true;
    }
    else record { sent = sent; dialed = some target; joined = false }
answer taken sent target Dialed.refused = record {
  sent = sent ++ write_reply rep_refused [] 0 ∷ [];
  dialed = some target;
  joined = false;
}
answer taken sent target Dialed.failed = record {
  sent = sent ++ write_reply rep_host [] 0 ∷ [];
  dialed = some target;
  joined = false;
}

-- What handle does after the handshake.
unfoldable pub after_handshake : Bool → (Bytes → ℕ → Dialed) → List Bytes × Result Bytes → Served
after_handshake taken dial (sent, Result.err e) = record {
  sent = sent;
  dialed = none;
  joined = false;
}
after_handshake taken dial (sent, Result.ok rest) = elim (read_request rest) [
  | Result.err e ↦ record {
    sent = sent ++ write_reply rep_general [] 0 ∷ [];
    dialed = none;
    joined = false;
  }
  | Result.ok (target, left) ↦ answer taken sent target (dial target.0 target.1)
]

unfoldable pub handle : Bool → Bool → (Bytes → ℕ → Dialed) → Bytes → Served
handle greeted taken dial c = after_handshake taken dial (handshake greeted c)
