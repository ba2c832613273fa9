-- ===== src/Identity/Names/Laws.antt =====
-- What a parsed name looks like, and the lists of names that certificates and options give.
use hopscotch.Common.{
  ℕ, ◌≤◌, ◌≡◌, refl, ◌≢◌, true, false, Option, none, some, List, [], ◌∷◌, ◌++◌, if◌then◌else◌,
  length, arith, ap, ◌∙◌, All, All-append, Bool-cases, inl, inr, ◌⊎◌,
}
use hopscotch.Common.Bytes.{Bytes}
use hopscotch.Identity.Names

-- Between 1 and 63 bytes: a lower-case letter, then lower-case letters, digits and hyphens.
abbrev pub IsName : Bytes → Type 0
IsName [] = ⊥
IsName (c ∷ s) = (length s ≤ 62) × (Names.is_letter c ≡ true) × (Names.all_name_chars s ≡ true)

check_name-IsName : (s n : Bytes) → Names.check_name s ≡ Names.ok n → IsName s × (n ≡ s)
unfolding Names.check_name
check_name-IsName [] n e = cc
check_name-IsName (c ∷ s) n e = ground arith

to_lower_fixed : (s : Bytes) → Names.all_name_chars s ≡ true → Names.to_lower s ≡ s
unfolding Names.to_lower Names.lower_byte
to_lower_fixed [] h = refl
to_lower_fixed (c ∷ s) h = ground (arith, to_lower_fixed s)

trim_right_fixed : (s : Bytes) → Names.all_name_chars s ≡ true → Names.trim_right s ≡ s
unfolding Names.trim_right Names.keep_unless_blank
trim_right_fixed [] h = refl
trim_right_fixed (c ∷ []) h = ground arith
trim_right_fixed (c ∷ d ∷ s) h = ground (arith, trim_right_fixed (d ∷ s))

letter_fixed : (c : ℕ) → Names.is_letter c ≡ true → Names.is_name_char c ≡ true
letter_fixed c h = ground arith

trim_left_fixed : (c : ℕ) (s : Bytes) → Names.is_letter c ≡ true → Names.trim_left (c ∷ s) ≡ c ∷ s
unfolding Names.trim_left
trim_left_fixed c s h = ground arith

check_name_fixed : (s : Bytes) → IsName s → Names.check_name s ≡ Names.ok s
unfolding Names.check_name
check_name_fixed [] h = absurd h
check_name_fixed (c ∷ s) h = ground arith

parse_name_fixed : (s : Bytes) → IsName s → Names.parse_name s ≡ Names.ok s
unfolding Names.parse_name Names.check_name Names.trim_space Names.trim_right
parse_name_fixed [] h = absurd h
parse_name_fixed (c ∷ s) h =
    let chars : Names.all_name_chars (c ∷ s) ≡ true = ground (arith, letter_fixed c) in
    ap (λ t. Names.check_name (Names.to_lower (Names.trim_right t))) (trim_left_fixed c s h.1)
    ∙ ap (λ t. Names.check_name (Names.to_lower t)) (trim_right_fixed (c ∷ s) chars)
    ∙ ap Names.check_name (to_lower_fixed (c ∷ s) chars)
    ∙ check_name_fixed (c ∷ s) h

-- Every name that `ParseName` returns is well formed, and parsing it again gives it back.
pub parse_name-IsName :
    (s n : Bytes) → Names.parse_name s ≡ Names.ok n → IsName n × (Names.parse_name n ≡ Names.ok n)
unfolding Names.parse_name
parse_name-IsName s n e =
    let (h, p) = check_name-IsName (Names.to_lower (Names.trim_space s)) n e in
    let h' : IsName n = rw p h in (h', unfold Names.parse_name in parse_name_fixed n h')

-- No text occurs twice.
abbrev pub Distinct : List Bytes → Type 0
Distinct [] = Unit {0}
Distinct (n ∷ ns) = (Names.seen n ns ≡ false) × Distinct ns

seen_last :
    (n m : Bytes) (ns : List Bytes)
    → Names.seen n ns ≡ false
    → m ≢ n
    → Names.seen n (ns ++ (m ∷ [])) ≡ false
seen_last n m [] h d = ground arith
seen_last n m (k ∷ ns) h d = ground (arith, seen_last n m ns)

pub append-Distinct :
    (n : Bytes) (ns : List Bytes)
    → Names.seen n ns ≡ false
    → Distinct ns
    → Distinct (ns ++ (n ∷ []))
append-Distinct n [] h d = (refl, tt)
append-Distinct n (k ∷ ns) h d =
    (seen_last k n ns d.0 (ground arith), append-Distinct n ns (ground arith) d.1)

abbrev pub IsNameList : List Bytes → Type 0
IsNameList ns = All IsName ns × Distinct ns

append-IsNameList :
    (n : Bytes) (ns : List Bytes)
    → IsName n
    → Names.seen n ns ≡ false
    → IsNameList ns
    → IsNameList (ns ++ (n ∷ []))
append-IsNameList n ns h fresh l =
    (All-append IsName ns (n ∷ []) l.0 (h, tt), append-Distinct n ns fresh l.1)

pub Parsed-cases {ℓ} :
    {A : Type ℓ} (r : Names.Parsed A)
    → ((e : Names.NameError) × (r ≡ Names.err e)) ⊎ ((a : A) × (r ≡ Names.ok a))
Parsed-cases (Names.ok a) = inr (a, refl)
Parsed-cases (Names.err e) = inl (e, refl)

add_new-IsNameList :
    (n : Bytes) (out : List Bytes)
    → IsName n
    → IsNameList out
    → IsNameList (if Names.seen n out then out else out ++ (n ∷ []))
add_new-IsNameList n out h l = elim (Bool-cases (Names.seen n out)) [
  | inl old ↦ rw old l
  | inr new ↦ rw new (append-IsNameList n out h new l)
]

normalize_loop-IsNameList :
    (names out ns : List Bytes)
    → IsNameList out
    → Names.normalize_loop out names ≡ Names.ok ns
    → IsNameList ns
unfolding Names.normalize_loop
normalize_loop-IsNameList [] out ns l e = let p : out ≡ ns = cc in rw (← p) l
normalize_loop-IsNameList (raw ∷ names) out ns l e = elim (Parsed-cases (Names.parse_name raw)) [
  | inl (x, p) ↦ absurd (ground arith)
  | inr (n, p) ↦
      normalize_loop-IsNameList names (if Names.seen n out then out else out ++ (n ∷ [])) ns
        (add_new-IsNameList n out (parse_name-IsName raw n p).0 l) (ground arith)
]

add_name-IsNameList :
    (raw : Bytes) (out : List Bytes) → IsNameList out → IsNameList (Names.add_name raw out)
unfolding Names.add_name
add_name-IsNameList raw out l = elim (Parsed-cases (Names.parse_name raw)) [
  | inl (x, p) ↦ rw (p, Names.add_name) l
  | inr (n, p) ↦ rw (p, Names.add_name) (add_new-IsNameList n out (parse_name-IsName raw n p).0 l)
]

names_loop-IsNameList :
    (uris : List (Option Names.CertUri)) (out : List Bytes)
    → IsNameList out
    → IsNameList (Names.names_loop out uris)
unfolding Names.names_loop Names.add_uri
names_loop-IsNameList [] out l = l
names_loop-IsNameList (none ∷ us) out l = names_loop-IsNameList us out l
names_loop-IsNameList (some u ∷ us) out l =
    names_loop-IsNameList us (Names.add_uri u out)
      (ground (arith, add_name-IsNameList u.host out l, add_name-IsNameList u.opaque out l))

-- The names that are read from a certificate are well formed, and none is read twice.
pub names_from_cert-IsNameList :
    (uris : List (Option Names.CertUri)) → IsNameList (Names.names_from_cert uris)
unfolding Names.names_from_cert
names_from_cert-IsNameList uris = names_loop-IsNameList uris [] (tt, tt)

-- Where `NormalizeNames` succeeds, its names are well formed, and none stands there twice.
pub normalize_names-IsNameList :
    (names ns : List Bytes) → Names.normalize_names names ≡ Names.ok ns → IsNameList ns
unfolding Names.normalize_names
normalize_names-IsNameList names ns e = normalize_loop-IsNameList names [] ns (tt, tt) e
