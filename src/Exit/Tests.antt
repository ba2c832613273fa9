-- ===== src/Exit/Tests.antt =====
-- Runs of the tunnel, and the theorems at concrete inputs.
use hopscotch.Common.{◌≡◌, refl, true, some, [], ◌∷◌, ◌++◌, replicate, inl, arith, ℕ_discrete}
use hopscotch.Common.Bytes.{Bytes, same, codes, are_bytes-IsByte}
use hopscotch.Ip.{to16, to4, ip_string}
use hopscotch.Identity.Address.{is_mesh_ula}
use hopscotch.Packet.Header.{IsIp6}
use hopscotch.Exit.{plumbing_ipv4, encapsulate_exit, decapsulate_exit}
use hopscotch.Exit.Tunnel.{decapsulate_exit-encapsulate_exit}

abbrev client : Bytes
client = 0xfd ∷ (replicate 12 1 ++ (0x41 ∷ 7 ∷ 0 ∷ []))

abbrev exit : Bytes
exit = 0xfd ∷ replicate 15 2

client-IsIp6 : IsIp6 client
client-IsIp6 = (refl, are_bytes-IsByte client refl)

exit-IsIp6 : IsIp6 exit
exit-IsIp6 = (refl, are_bytes-IsByte exit refl)

client_mesh : is_mesh_ula client ≡ true
unfolding is_mesh_ula to16 to4 same ℕ_discrete
client_mesh = refl

-- An IPv4 header.
abbrev inner : Bytes
inner = 0x45 ∷ replicate 19 0

decapsulate_exit-encapsulate_exit_example :
    decapsulate_exit (encapsulate_exit client exit inner) exit ≡ some (client, inner)
decapsulate_exit-encapsulate_exit_example =
    decapsulate_exit-encapsulate_exit client exit inner client-IsIp6 exit-IsIp6 (omega arith)
      client_mesh (inl refl)

-- A packet of no IP version is not wrapped.
no_version : encapsulate_exit client exit (0x15 ∷ []) ≡ []
unfolding encapsulate_exit to16
no_version = refl

plumbed : ip_string (plumbing_ipv4 client) ≡ codes "100.65.7.1"
unfolding plumbing_ipv4 ip_string to16 same ℕ_discrete
plumbed = refl
