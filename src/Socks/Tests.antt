-- ===== src/Socks/Tests.antt =====
-- Clients of the proxy, and the theorems at concrete inputs.
use hopscotch.Common.{◌≡◌, refl, true, [], ◌∷◌, ◌++◌, arith, ℕ}
use hopscotch.Common.Bytes.{Bytes, codes}
use hopscotch.Common.Reader.{read_full}
use hopscotch.Socks.{
  SocksError, Result, Dialed, read_host, read_port, read_request, handshake, handle,
}
use hopscotch.Socks.Request.{Host, request}
use hopscotch.Socks.Client.{greeting, served, handle_lem}

runs : Unit {0}
unfolding read_full read_host read_port read_request handshake handle
runs = tt

abbrev exit_host : Host
exit_host = Host.domain (codes "alpha.hopscotch")

abbrev dial : Bytes → ℕ → Dialed
dial host port = Dialed.connected

handle_lem_example :
    handle true true dial (greeting (0 ∷ []) ++ (request exit_host 8080 ++ []))
    ≡ served (codes "alpha.hopscotch") 8080 Dialed.connected
handle_lem_example = handle_lem dial (0 ∷ []) exit_host 8080 [] (omega arith) (omega arith)

-- BIND is not supported.
bind : read_request (5 ∷ 2 ∷ 0 ∷ 1 ∷ []) ≡ Result.err SocksError.unsupported_cmd
unfolding runs
bind = refl

cut_short : read_request (5 ∷ 1 ∷ 0 ∷ 3 ∷ 4 ∷ 97 ∷ []) ≡ Result.err SocksError.ended
unfolding runs
cut_short = refl
