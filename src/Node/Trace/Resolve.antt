-- ===== src/Node/Trace/Resolve.antt =====
-- What a destination resolves to.
use hopscotch.Common.{
  ◌≡◌, ◌≢◌, refl, true, not, Option, none, some, [], ◌∷◌, ite, length, arith, if◌then◌else◌,
  Option-cases, Bool-cases, inl, inr,
}
use hopscotch.Common.Bytes.{Bytes, same}
use hopscotch.Ip.{parse_ip, to16, to4}
use hopscotch.Identity.Address.{is_mesh_ula, resolver_ula}
use hopscotch.Identity.Address.Laws.{is_mesh_ula-ula}
use hopscotch.Identity.Names
use hopscotch.Identity.Names.Laws.{Parsed-cases}
use hopscotch.Session.{Session, Sessions, session_by_name}
use hopscotch.Node.{Node}
use hopscotch.Node.Overlay.{overlay_ip}
use hopscotch.Node.Trace.{
  ResolveError, Resolved, overlay_name, literal, echoed, resolve_ula, resolve_overlay_dest,
}

-- Every NodeID has 32 bytes.
abbrev pub AreIds : Sessions → Type 0
AreIds [] = Unit
AreIds ((id, s) ∷ m) = (length s.id ≡ 32) × AreIds m

abbrev pub IsMesh : Resolved → Type 0
IsMesh (Resolved.ok ip) = is_mesh_ula ip ≡ true
IsMesh (Resolved.err e) = Unit

mesh_session :
    (m : Sessions) (name : Bytes) (s : Session)
    → AreIds m
    → session_by_name m name ≡ some s
    → length s.id ≡ 32
unfolding session_by_name
mesh_session [] name s h e = absurd (cc e)
mesh_session ((id, t) ∷ m) name s h e = ground (arith, h.0, e, mesh_session m name s h.1)

is_mesh_ula-to16 : (ip : Bytes) → is_mesh_ula ip ≡ true → is_mesh_ula (to16 ip) ≡ true
unfolding is_mesh_ula to16
is_mesh_ula-to16 ip h = ground (arith, h)

literal_or-IsMesh :
    (e : ResolveError) (ip : Bytes)
    → IsMesh (if not (is_mesh_ula ip) then Resolved.err e else Resolved.ok (to16 ip))
literal_or-IsMesh e ip = elim (Bool-cases (is_mesh_ula ip)) [
  | inl mesh ↦ rw mesh (is_mesh_ula-to16 ip mesh)
  | inr other ↦ rw other tt
]

literal-IsMesh : (ip : Bytes) → IsMesh (literal ip)
unfolding literal
literal-IsMesh ip = literal_or-IsMesh ResolveError.not_mesh ip

echoed-IsMesh : (reply : Option Bytes) → IsMesh (echoed reply)
unfolding echoed
echoed-IsMesh none = tt
echoed-IsMesh (some text) =
    elim (parse_ip text)
      as (λ o. IsMesh (elim o as (λ _. Resolved) [
        | none ↦ Resolved.err ResolveError.no_ula
        | some ip ↦
            if not (is_mesh_ula ip) then Resolved.err ResolveError.no_ula else Resolved.ok (to16 ip)
      ])) [ none ↦ tt | some ip ↦ literal_or-IsMesh ResolveError.no_ula ip ]

is_mesh_ula-resolver_ula : is_mesh_ula resolver_ula ≡ true
unfolding is_mesh_ula resolver_ula to16 to4 same
is_mesh_ula-resolver_ula = refl

-- An address that local knowledge gives for a name lies in the mesh.
overlay_ip_mesh :
    (n : Node) (name : Bytes)
    → length n.id ≡ 32
    → AreIds n.sessions
    → overlay_ip n name ≢ []
    → is_mesh_ula (overlay_ip n name) ≡ true
unfolding overlay_ip
overlay_ip_mesh n name own others found =
    let key = Names.to_lower name in
    elim (Option-cases (session_by_name n.sessions key)) [
      | inl e ↦ ground (arith, e, found, is_mesh_ula-resolver_ula, is_mesh_ula-ula n.id own)
      | inr (s, e) ↦ ground (
        arith,
        e,
        is_mesh_ula-resolver_ula,
        is_mesh_ula-ula n.id own,
        is_mesh_ula-ula s.id (mesh_session n.sessions key s others e),
      )
    ]

-- What a name resolves to, by the local knowledge and what is tried without it.
named-IsMesh :
    (n : Node) (name : Bytes) (otherwise : Resolved)
    → length n.id ≡ 32
    → AreIds n.sessions
    → IsMesh otherwise
    → IsMesh (ite (same (overlay_ip n name) []) otherwise (Resolved.ok (overlay_ip n name)))
named-IsMesh n name otherwise own others h =
    elim (same (overlay_ip n name) [])
      as (λ b. IsMesh (ite b otherwise (Resolved.ok (overlay_ip n name)))) [
        | yes e ↦ h
        | no found ↦ overlay_ip_mesh n name own others found
      ]

-- In a node whose NodeID and whose sessions' NodeIDs have 32 bytes: whatever the mesh answers to an
-- echo, a destination that ResolveULA accepts is an address of the mesh.
pub resolve_ula-IsMesh :
    (echo : Bytes → Option Bytes) (n : Node) (dest : Bytes)
    → length n.id ≡ 32
    → AreIds n.sessions
    → IsMesh (resolve_ula echo n dest)
unfolding resolve_ula
resolve_ula-IsMesh echo n dest own others = elim (Option-cases (parse_ip dest)) [
  | inr (ip, e) ↦ rw (e, resolve_ula) (literal-IsMesh ip)
  | inl e ↦ elim (Parsed-cases (overlay_name dest)) [
    | inr (name, found) ↦
        rw (e, resolve_ula, found)
          (named-IsMesh n name (echoed (echo name)) own others (echoed-IsMesh (echo name)))
    | inl (bad, found) ↦ rw (e, resolve_ula, found) tt
  ]
]

-- Where local knowledge is enough, asking the mesh changes nothing: an address that
-- resolveOverlayDest gives is the one that ResolveULA gives, whatever an echo would answer.
pub resolve_ula-resolve_overlay_dest :
    (echo : Bytes → Option Bytes) (n : Node) (dest ip : Bytes)
    → resolve_overlay_dest n dest ≡ Resolved.ok ip
    → resolve_ula echo n dest ≡ Resolved.ok ip
unfolding resolve_ula resolve_overlay_dest
resolve_ula-resolve_overlay_dest echo n dest ip h = ground (arith, h)
