-- ===== src/Identity/Hex.antt =====
-- internal/identity/identity.go: NodeIDs and public keys as hexadecimal text.
use hopscotch.Common.{
  ℕ, ◌+◌, ◌-◌, ◌*◌, ◌/◌, ◌%◌, ◌<◌, ◌≡◌, refl, ◌&&◌, Option, none, some, [], ◌∷◌, ◌==◌, ltb, leb,
  if◌then◌else◌, length, take, All, arith, ap,
}
use hopscotch.Common.Bytes.{Bytes, IsByte}

unfoldable pub digit : ℕ → ℕ
digit d = if ltb d 10 then b'0' + d else b'a' + (d - 10)

-- fmt's %x of a byte slice, and hex.EncodeToString.
unfoldable pub encode_hex : Bytes → Bytes
unfolding digit
encode_hex [] = []
encode_hex (b ∷ bs) = digit (b / 16) ∷ digit (b % 16) ∷ encode_hex bs

value : ℕ → Option ℕ
value c =
    if leb b'0' c && leb c b'9'
    then some (c - b'0')
    else if leb b'a' c && leb c b'f'
    then some (c - b'a' + 10)
    else if leb b'A' c && leb c b'F'
    then some (c - b'A' + 10)
    else none

join_digits : Option ℕ → Option ℕ → Option Bytes → Option Bytes
join_digits (some h) (some l) (some bs) = some ((h * 16 + l) ∷ bs)
join_digits _ _ _ = none

-- hex.DecodeString
unfoldable pub decode_hex : Bytes → Option Bytes
unfolding value join_digits
decode_hex [] = some []
decode_hex (c ∷ []) = none
decode_hex (c ∷ d ∷ s) = join_digits (value c) (value d) (decode_hex s)

-- `id.Hex()`, `id.Short()`, `PublicHex`
unfoldable pub id_hex : Bytes → Bytes
id_hex id = encode_hex id

unfoldable pub id_short : Bytes → Bytes
id_short id = encode_hex (take 4 id)

unfoldable pub public_hex : Bytes → Bytes
public_hex pub_key = encode_hex pub_key

unfoldable pub parse_public_key : Bytes → Option Bytes
parse_public_key s = elim (decode_hex s) [
  | none ↦ none
  | some b ↦ if length b == 32 then some b else none
]

value-digit : (d : ℕ) → d < 16 → value (digit d) ≡ some d
unfolding value digit
value-digit d h = ground arith

decode_hex-encode_hex : (bs : Bytes) → All IsByte bs → decode_hex (encode_hex bs) ≡ some bs
unfolding encode_hex decode_hex join_digits
decode_hex-encode_hex [] h = refl
decode_hex-encode_hex (b ∷ bs) h =
    rw
      (
        value-digit (b / 16) (omega arith),
        value-digit (b % 16) (omega arith),
        decode_hex-encode_hex bs h.1,
      )
      (ap (λ x. some (x ∷ bs)) (omega arith))

-- A key of 32 bytes printed for a peers file is read back as the same key.
pub parse_public_key-public_hex :
    (pub_key : Bytes)
    → length pub_key ≡ 32
    → All IsByte pub_key
    → parse_public_key (public_hex pub_key) ≡ some pub_key
unfolding parse_public_key public_hex
parse_public_key-public_hex pub_key h bytes = ground (arith, decode_hex-encode_hex pub_key bytes)

length-join_digits :
    (x y : Option ℕ) (z : Option Bytes) (b : Bytes)
    → join_digits x y z ≡ some b
    → (r : Bytes) × (z ≡ some r) × (length b ≡ length r + 1)
unfolding join_digits
length-join_digits (some h) (some l) (some bs) b e = (bs, refl, ground arith)
length-join_digits (some h) (some l) none b e = cc
length-join_digits (some h) none z b e = cc
length-join_digits none y z b e = cc

length-decode_hex : (s b : Bytes) → decode_hex s ≡ some b → length s ≡ 2 * length b
unfolding decode_hex
length-decode_hex [] b e = ground arith
length-decode_hex (c ∷ []) b e = cc
length-decode_hex (c ∷ d ∷ s) b e =
    let (r, z, l) = length-join_digits (value c) (value d) (decode_hex s) b e in
    omega (arith, length-decode_hex s r z, l)

-- A key that is accepted was written as 64 digits and has 32 bytes.
pub parse_public_key_shape :
    (s b : Bytes) → parse_public_key s ≡ some b → (length s ≡ 64) × (length b ≡ 32)
unfolding parse_public_key
parse_public_key_shape s b e = ground (arith, length-decode_hex s b)
