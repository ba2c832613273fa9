-- ===== src/Identity/Names.antt =====
-- internal/identity/names.go: node names. A text is the list of its bytes and is ASCII, so that
-- strings.ToLower and strings.TrimSpace act on single bytes.
pub mod Laws
use hopscotch.Common.{
  ℕ, zero, suc, ◌+◌, Bool, true, false, ◌&&◌, ◌||◌, not, ◌≡◌, Option, none, some, List, [], ◌∷◌,
  ◌++◌, ◌==◌, ltb, leb, if◌then◌else◌, length, ite,
}
use hopscotch.Common.Bytes.{Bytes, same, codes}

pub data NameError : Type 0 where
  empty_name too_long bad_start bad_char : NameError

pub data Parsed {ℓ} (A : Type ℓ) : Type ℓ where
  ok : A → Parsed A
  err : NameError → Parsed A

abbrev pub is_space : ℕ → Bool
is_space c = c == 32 || (leb 9 c && leb c 13)

lower_byte : ℕ → ℕ
lower_byte c = if leb b'A' c && leb c b'Z' then c + 32 else c

-- strings.ToLower
unfoldable pub to_lower : Bytes → Bytes
unfolding lower_byte
to_lower [] = []
to_lower (c ∷ s) = lower_byte c ∷ to_lower s

trim_left : Bytes → Bytes
trim_left [] = []
trim_left (c ∷ s) = let rest = trim_left s in if is_space c then rest else c ∷ s

keep_unless_blank : ℕ → Bytes → Bytes
keep_unless_blank c [] = if is_space c then [] else c ∷ []
keep_unless_blank c (d ∷ s) = c ∷ d ∷ s

trim_right : Bytes → Bytes
unfolding keep_unless_blank
trim_right [] = []
trim_right (c ∷ s) = keep_unless_blank c (trim_right s)

-- strings.TrimSpace
unfoldable pub trim_space : Bytes → Bytes
unfolding trim_left trim_right
trim_space s = trim_right (trim_left s)

abbrev pub is_letter : ℕ → Bool
is_letter c = leb b'a' c && leb c b'z'

abbrev pub is_name_char : ℕ → Bool
is_name_char c = is_letter c || ((leb b'0' c && leb c b'9') || c == b'-')

-- The loop over s[1:].
abbrev pub all_name_chars : Bytes → Bool
all_name_chars [] = true
all_name_chars (c ∷ s) = is_name_char c && all_name_chars s

check_name : Bytes → Parsed Bytes
check_name [] = err empty_name
check_name (c ∷ s) =
    if ltb 63 (length (c ∷ s))
    then err too_long
    else if not (is_letter c)
    then err bad_start
    else if all_name_chars s
    then ok (c ∷ s)
    else err bad_char

unfoldable pub parse_name : Bytes → Parsed Bytes
unfolding check_name
parse_name s = check_name (to_lower (trim_space s))

-- A `map[string]bool` that is only added to: the keys in it.
abbrev pub seen : Bytes → List Bytes → Bool
seen n [] = false
seen n (m ∷ ms) = ite (same n m) true (seen n ms)

normalize_loop : List Bytes → List Bytes → Parsed (List Bytes)
normalize_loop out [] = ok out
normalize_loop out (raw ∷ names) = elim (parse_name raw) [
  | err e ↦ err e
  | ok n ↦ normalize_loop (if seen n out then out else out ++ (n ∷ [])) names
]

-- `seen` and `out` hold the same names.
unfoldable pub normalize_names : List Bytes → Parsed (List Bytes)
unfolding normalize_loop
normalize_names names = normalize_loop [] names

-- What the code reads of a certificate's URI; a nil URI is `none`.
pub record CertUri : Type 0 where
  pub scheme : Bytes
  pub opaque : Bytes
  pub host : Bytes

abbrev pub name_uri_scheme : Bytes
name_uri_scheme = codes "hopscotch"

add_name : Bytes → List Bytes → List Bytes
add_name raw out = elim (parse_name raw) [
  | err e ↦ out
  | ok n ↦ if seen n out then out else out ++ (n ∷ [])
]

add_uri : CertUri → List Bytes → List Bytes
unfolding add_name
add_uri u out =
    ite (same u.scheme name_uri_scheme)
      (ite (same u.opaque []) (ite (same u.host []) out (add_name u.host out))
        (add_name u.opaque out))
      out

names_loop : List Bytes → List (Option CertUri) → List Bytes
names_loop out [] = out
names_loop out (none ∷ us) = names_loop out us
names_loop out (some u ∷ us) = names_loop (add_uri u out) us

-- A nil certificate has no URIs.
unfoldable pub names_from_cert : List (Option CertUri) → List Bytes
unfolding names_loop add_uri
names_from_cert uris = names_loop [] uris
