-- ===== src/Identity/Address.antt =====
-- internal/identity/identity.go: the overlay address (ULA) of a NodeID, and its tests.
pub mod Laws
use hopscotch.Common.{
  ℕ, Bool, true, false, ◌&&◌, not, ◌≡◌, List, [], ◌∷◌, ◌++◌, ◌==◌, length, take, drop, replicate,
}
use hopscotch.Common.Bytes.{Bytes, at}
use hopscotch.Ip.{to4, to16, ip_equal}

-- make(net.IP, 16) with ip[0] = 0xfd, copy(ip[1:6], id[:5]) and copy(ip[8:16], id[24:]).
unfoldable pub ula : Bytes → Bytes
ula id = 0xfd ∷ (take 5 id ++ (0 ∷ 0 ∷ drop 24 id))

abbrev nonempty : Bytes → Bool
nonempty [] = false
nonempty (b ∷ bs) = true

unfoldable pub is_mesh_ula : Bytes → Bool
unfolding to16 to4
is_mesh_ula ip =
    let ip16 = to16 ip in nonempty ip16 && (not (nonempty (to4 ip16)) && at ip16 0 == 0xfd)

unfoldable pub resolver_ula : Bytes
resolver_ula = 0xfd ∷ (replicate 14 0 ++ (0x53 ∷ []))

unfoldable pub is_resolver_ula : Bytes → Bool
unfolding to16 ip_equal resolver_ula
is_resolver_ula ip = let got = to16 ip in nonempty got && ip_equal got resolver_ula
