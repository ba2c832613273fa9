-- ===== src/Exit/Clients.antt =====
-- The clients of an exit by their plumbing addresses.
use hopscotch.Common.{◌≡◌, ◌≤◌, ◌<◌, refl, some, [], ◌∷◌, ◌++◌, length, take, arith, ite}
use hopscotch.Common.Bytes.{Bytes, at, same}
use hopscotch.Common.Maps.{lookup-insert}
use hopscotch.Ip.{to16, ip_string, v4_prefix}
use hopscotch.Packet.Build.Laws.{to16_fixed}
use hopscotch.Packet.Header.{IsIp6}
use hopscotch.Exit.{Clients, plumbing_ipv4, remember_exit_client, client_ula_for_plumbing}

-- The plumbing address of every address of 16 bytes is an IPv4 address within 100.64.0.0/10, and
-- does not end in 0.
pub plumbing_ipv4_bounds :
    (ula : Bytes)
    → IsIp6 ula
    → (length (plumbing_ipv4 ula) ≡ 16)
      × (take 13 (plumbing_ipv4 ula) ≡ v4_prefix ++ (100 ∷ []))
      × (64 ≤ at (plumbing_ipv4 ula) 13)
      × (at (plumbing_ipv4 ula) 13 < 128)
      × (1 ≤ at (plumbing_ipv4 ula) 15)
unfolding plumbing_ipv4
plumbing_ipv4_bounds ula ip =
    rw (to16_fixed ula ip.0, ip.0) (refl, refl, omega arith, omega arith, ground arith)

-- After a client with an address of 16 bytes is remembered, the exit finds it under every address
-- with the text of its plumbing address, and under every other address what it found before.
pub client_ula_for_plumbing-remember_exit_client :
    (ula ip : Bytes) (clients : Clients)
    → IsIp6 ula
    → client_ula_for_plumbing ip (remember_exit_client ula clients)
      ≡ ite
          (same (ip_string (plumbing_ipv4 ula)) (ip_string ip))
          (some ula)
          (client_ula_for_plumbing ip clients)
unfolding client_ula_for_plumbing remember_exit_client
client_ula_for_plumbing-remember_exit_client ula ip clients ula_ip = ground (
  arith,
  lookup-insert same (ip_string (plumbing_ipv4 ula)) (ip_string ip) (to16 ula) clients,
  to16_fixed ula ula_ip.0,
)
