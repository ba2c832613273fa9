-- ===== src/Tun/Netlink/Attrs.antt =====
-- Attributes are read back as nla and nlaU32 write them.
use hopscotch.Common.{
  ℕ, zero, suc, ◌+◌, ◌-◌, ◌≤◌, ◌<◌, ◌≡◌, refl, ap, ◌∙◌, inl, inr, ◌||◌, Bool-cases, List, [], ◌∷◌,
  ◌++◌, length, drop, replicate, length-append, length-replicate, length-drop, take-append,
  drop-append, append_assoc, ℕ_discrete, arith, All, ltb,
}
use hopscotch.Common.Bytes.{Bytes, slice, uint16-put, uint32-put}
use hopscotch.Common.Maps.{Assoc, insert}
use hopscotch.Tun.Netlink.{
  Endian, put16, put32, get16, get32, size_attr, pad4, nla, add_attr, attrs_loop, parse_rt_attrs,
}

pub get16-put16 : (e : Endian) (v : ℕ) (b : Bytes) → v < 65536 → get16 e (put16 e v ++ b) 0 ≡ v
unfolding put16 get16
get16-put16 Endian.little v b h = uint16-put v h
get16-put16 Endian.big v b h = uint16-put v h

get16-put16_second :
    (e : Endian) (u v : ℕ) (b : Bytes) → v < 65536 → get16 e (put16 e u ++ (put16 e v ++ b)) 2 ≡ v
unfolding put16 get16
get16-put16_second Endian.little u v b h = uint16-put v h
get16-put16_second Endian.big u v b h = uint16-put v h

pub get32-put32 : (e : Endian) (v : ℕ) → v < 4294967296 → get32 e (put32 e v) 0 ≡ v
unfolding put32 get32
get32-put32 Endian.little v h = uint32-put v h
get32-put32 Endian.big v h = uint32-put v h

pub length-put16 : (e : Endian) (v : ℕ) → length (put16 e v) ≡ 2
unfolding put16
length-put16 Endian.little v = refl
length-put16 Endian.big v = refl

pub length-put32 : (e : Endian) (v : ℕ) → length (put32 e v) ≡ 4
unfolding put32
length-put32 Endian.little v = refl
length-put32 Endian.big v = refl

drop-put16s : (e : Endian) (u v : ℕ) (b : Bytes) → drop 4 (put16 e u ++ (put16 e v ++ b)) ≡ b
unfolding put16
drop-put16s Endian.little u v b = refl
drop-put16s Endian.big u v b = refl

pub length-nla : (e : Endian) (typ : ℕ) (b : Bytes) → length (nla e typ b) ≡ pad4 (4 + length b)
unfolding nla
length-nla e typ b =
    let l = 4 + length b in
    let pad : Bytes = replicate (pad4 l - l) 0 in
    omega (
      arith,
      length-append (put16 e l) (put16 e typ ++ (b ++ pad)),
      length-append (put16 e typ) (b ++ pad),
      length-append b pad,
      length-replicate (pad4 l - l) zero,
      length-put16 e l,
      length-put16 e typ,
    )

-- What an attribute can hold: its length is a word of 16 bits, and an empty one is not kept.
pub record IsAttr (a : ℕ × Bytes) : Type 0 where
  pub typed : a.0 < 65536
  pub filled : 0 < length a.1
  pub fits : length a.1 + 4 < 65536

module _ (e : Endian) (typ : ℕ) (b rest : Bytes) (fine : IsAttr (typ, b)) where
  nla_parts :
      nla e typ b ++ rest
      ≡ put16 e (4 + length b)
        ++ (put16 e typ ++ (b ++ (replicate (pad4 (4 + length b) - (4 + length b)) 0 ++ rest)))
  unfolding nla
  nla_parts =
      append_assoc (put16 e (4 + length b)) _ rest
      ∙ ap (λ x. put16 e (4 + length b) ++ x)
          (append_assoc (put16 e typ) _ rest ∙ ap (λ x. put16 e typ ++ x) (append_assoc b _ rest))

  get16-nla : get16 e (nla e typ b ++ rest) 0 ≡ 4 + length b
  get16-nla = rw nla_parts (get16-put16 e _ _ (omega (arith, fine.fits)))

  get16-nla_second : get16 e (nla e typ b ++ rest) 2 ≡ typ
  get16-nla_second = rw nla_parts (get16-put16_second e _ _ _ fine.typed)

  slice-nla : slice (nla e typ b ++ rest) 4 (4 + length b) ≡ b
  slice-nla = rw (nla_parts, drop-put16s e (4 + length b) typ _) (take-append _ b _ (omega arith))

  add_attr-nla :
      (m : Assoc ℕ Bytes) → add_attr e (nla e typ b ++ rest) m ≡ insert ℕ_discrete typ b m
  unfolding add_attr
  add_attr-nla m = ground (
    arith,
    get16-nla,
    get16-nla_second,
    slice-nla,
    fine.filled,
    length-append (nla e typ b) rest,
    length-nla e typ b,
  )

  attrs_loop-nla :
      (fuel : ℕ) (m : Assoc ℕ Bytes)
      → attrs_loop e (suc fuel) (nla e typ b ++ rest) m
        ≡ attrs_loop e fuel rest (insert ℕ_discrete typ b m)
  unfolding attrs_loop
  attrs_loop-nla fuel m = ground (
    arith,
    get16-nla,
    add_attr-nla m,
    length-append (nla e typ b) rest,
    length-nla e typ b,
    drop-append (pad4 (4 + length b)) (nla e typ b) rest (length-nla e typ b),
  )

-- Attributes one after the other, and the map that they give: the last of a type counts.
abbrev pub encode : Endian → List (ℕ × Bytes) → Bytes
encode e [] = []
encode e ((typ, b) ∷ attrs) = nla e typ b ++ encode e attrs

abbrev pub insert_all : List (ℕ × Bytes) → Assoc ℕ Bytes → Assoc ℕ Bytes
insert_all [] m = m
insert_all ((typ, b) ∷ attrs) m = insert_all attrs (insert ℕ_discrete typ b m)

attrs_loop-nil : (e : Endian) (fuel : ℕ) (m : Assoc ℕ Bytes) → attrs_loop e fuel [] m ≡ m
unfolding attrs_loop
attrs_loop-nil e zero m = refl
attrs_loop-nil e (suc fuel) m = refl

attrs_loop-encode :
    (e : Endian) (attrs : List (ℕ × Bytes)) (fuel : ℕ) (m : Assoc ℕ Bytes)
    → All IsAttr attrs
    → length (encode e attrs) ≤ fuel
    → attrs_loop e fuel (encode e attrs) m ≡ insert_all attrs m
attrs_loop-encode e [] fuel m fine h = attrs_loop-nil e fuel m
attrs_loop-encode e ((typ, b) ∷ attrs) fuel m fine h =
    let size = length-append (nla e typ b) (encode e attrs) in
    let first = length-nla e typ b in
    let enough : fuel ≡ suc (fuel - 1) = omega (arith, size, first, h) in
    rw enough (
      attrs_loop-nla e typ b (encode e attrs) fine.0 (fuel - 1) m
      ∙ attrs_loop-encode e attrs (fuel - 1) (insert ℕ_discrete typ b m) fine.1
          (omega (arith, size, first, h)))

-- As much fuel as there are bytes is enough.
pub attrs_loop_enough :
    (e : Endian) (f g : ℕ) (b : Bytes) (m : Assoc ℕ Bytes)
    → length b ≤ f
    → length b ≤ g
    → attrs_loop e f b m ≡ attrs_loop e g b m
unfolding attrs_loop
attrs_loop_enough e zero zero b m h k = refl
attrs_loop_enough e zero (suc g) [] m h k = refl
attrs_loop_enough e zero (suc g) (x ∷ b) m h k = absurd (omega arith)
attrs_loop_enough e (suc f) zero [] m h k = refl
attrs_loop_enough e (suc f) zero (x ∷ b) m h k = absurd (omega arith)
attrs_loop_enough e (suc f) (suc g) b m h k =
    let l = get16 e b 0 in
    let shorter = length-drop (pad4 l) b in
    elim (Bool-cases (ltb (length b) size_attr || ltb l size_attr)) [
      | inl ends ↦ rw ends refl
      | inr goes ↦
          let large : 4 ≤ l = ground (arith, goes) in
          let some_left : 4 ≤ length b = ground (arith, goes) in
          rw
            (attrs_loop_enough e f g (drop (pad4 l) b) (add_attr e b m)
              (omega (arith, shorter, large, some_left, h))
              (omega (arith, shorter, large, some_left, k)))
            refl
    ]

-- Parsing attributes that nla wrote one after the other, of types below 2^16 and with data that is
-- not empty and shorter than 65,532 bytes, gives the map of them, where the last of a type counts.
pub parse_rt_attrs-encode :
    (e : Endian) (attrs : List (ℕ × Bytes))
    → All IsAttr attrs
    → parse_rt_attrs e (encode e attrs) ≡ insert_all attrs []
unfolding parse_rt_attrs
parse_rt_attrs-encode e attrs fine =
    attrs_loop-encode e attrs (length (encode e attrs)) [] fine (omega arith)
