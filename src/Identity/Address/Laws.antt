-- ===== src/Identity/Address/Laws.antt =====
-- The addresses of nodes: their form, and what of the NodeID they keep.
use hopscotch.Common.{
  ◌≡◌, true, ◌∷◌, length, take, drop, arith, length-append, length-take, length-drop,
}
use hopscotch.Common.Bytes.{Bytes}
use hopscotch.Identity.Address.{ula, is_mesh_ula}

pub length-ula : (id : Bytes) → length id ≡ 32 → length (ula id) ≡ 16
unfolding ula
length-ula id h =
    omega
      (arith, length-append (take 5 id) (0 ∷ 0 ∷ drop 24 id), length-take 5 id, length-drop 24 id)

-- The address of every NodeID of 32 bytes lies in the mesh.
pub is_mesh_ula-ula : (id : Bytes) → length id ≡ 32 → is_mesh_ula (ula id) ≡ true
unfolding is_mesh_ula ula
is_mesh_ula-ula id h = ground (arith, length-ula id h)
