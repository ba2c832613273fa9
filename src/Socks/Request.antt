-- ===== src/Socks/Request.antt =====
-- What a client asks for, on the wire (RFC 1928), is what the proxy reads.
use hopscotch.Common.{ℕ, ◌≡◌, ◌<◌, refl, [], ◌∷◌, ◌++◌, length, append_assoc}
use hopscotch.Common.Bytes.{Bytes, put_uint16, uint16-put}
use hopscotch.Common.Reader.{read_full-append}
use hopscotch.Ip.{ip_string}
use hopscotch.Socks.{
  ver5, cmd_connect, atyp_ipv4, atyp_ipv6, atyp_domain, Result, read_host, read_port, read_request,
}

-- The host of a request.
pub data Host : Type 0 where
  ipv4 ipv6 domain : Bytes → Host

abbrev pub IsHost : Host → Type 0
IsHost (Host.ipv4 a) = length a ≡ 4
IsHost (Host.ipv6 a) = length a ≡ 16
IsHost (Host.domain name) = length name < 256

abbrev pub host_type : Host → ℕ
host_type (Host.ipv4 a) = atyp_ipv4
host_type (Host.ipv6 a) = atyp_ipv6
host_type (Host.domain name) = atyp_domain

abbrev pub host_bytes : Host → Bytes
host_bytes (Host.ipv4 a) = a
host_bytes (Host.ipv6 a) = a
host_bytes (Host.domain name) = length name ∷ name

-- The text that the proxy dials.
abbrev pub host_text : Host → Bytes
host_text (Host.ipv4 a) = ip_string a
host_text (Host.ipv6 a) = ip_string a
host_text (Host.domain name) = name

abbrev pub request : Host → ℕ → Bytes
request h port = ver5 ∷ cmd_connect ∷ 0 ∷ host_type h ∷ (host_bytes h ++ put_uint16 port)

read_host-host_bytes :
    (h : Host) (rest : Bytes)
    → IsHost h
    → read_host (host_type h) (host_bytes h ++ rest) ≡ Result.ok (host_text h, rest)
unfolding read_host
read_host-host_bytes (Host.ipv4 a) rest e = rw (read_full-append 4 a rest e) refl
read_host-host_bytes (Host.ipv6 a) rest e = rw (read_full-append 16 a rest e) refl
read_host-host_bytes (Host.domain name) rest e =
    rw
      (
        read_full-append 1 (length name ∷ []) (name ++ rest) refl,
        read_host,
        read_full-append (length name) name rest refl,
      )
      refl

read_port-put_uint16 :
    (host : Bytes) (port : ℕ) (rest : Bytes)
    → port < 65536
    → read_port host (put_uint16 port ++ rest) ≡ Result.ok ((host, port), rest)
unfolding read_port
read_port-put_uint16 host port rest e =
    rw (read_full-append 2 (put_uint16 port) rest refl, read_port, uint16-put port e) refl

-- The request of a client, for an IPv4 or IPv6 address of 4 or 16 bytes or a name of at most 255
-- bytes, and a port of 16 bits, is read to the text of that host and that port; what follows it on the
-- stream is left.
pub read_request-request :
    (h : Host) (port : ℕ) (rest : Bytes)
    → IsHost h
    → port < 65536
    → read_request (request h port ++ rest) ≡ Result.ok ((host_text h, port), rest)
unfolding read_request
read_request-request h port rest e e' =
    rw
      (
        read_full-append 4 (ver5 ∷ cmd_connect ∷ 0 ∷ host_type h ∷ [])
            ((host_bytes h ++ put_uint16 port) ++ rest) refl,
        read_request,
        append_assoc (host_bytes h) (put_uint16 port) rest,
        read_host-host_bytes h (put_uint16 port ++ rest) e,
        read_port-put_uint16 (host_text h) port rest e',
      )
      refl
