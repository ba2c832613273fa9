-- ===== src/Packet/Mss/Options.antt =====
-- What the walk over the TCP options does to them.
use hopscotch.Common.{
  ℕ, zero, suc, ◌+◌, ◌-◌, ◌≡◌, ◌≤◌, ◌<◌, refl, Bool, true, false, not, ◌&&◌, ◌||◌, [], ◌∷◌, ◌++◌,
  ◌==◌, ltb, if◌then◌else◌, length, take, drop, arith, length-append, length-take, length-drop,
  take-append-drop, drop-append, Bool-cases, inl, inr,
}
use hopscotch.Common.Bytes.{Bytes, at, uint16}
use hopscotch.Packet.Mss.{tcp_opt_mss, clamp_body, clamp_options, options_changed}

-- Every MSS option that the walk reaches is at most `mss`.
unfoldable pub all_below : ℕ → ℕ → Bytes → Bool
all_below mss zero opts = true
all_below mss (suc fuel) [] = true
all_below mss (suc fuel) (kind ∷ []) = true
all_below mss (suc fuel) (kind ∷ l ∷ body) =
    let after_pad = all_below mss fuel (l ∷ body) in
    let after_option = all_below mss fuel (drop (l - 2) body) in
    if kind == 0
    then true
    else if kind == 1
    then after_pad
    else if ltb l 2 || ltb (length body + 2) l
    then true
    else not (kind == tcp_opt_mss && (l == 4 && ltb mss (uint16 (at body 0) (at body 1))))
      && after_option

length-clamp_body :
    (mss kind l : ℕ) (body : Bytes)
    → 2 ≤ l
    → l ≤ length body + 2
    → length (clamp_body mss kind l body) ≡ l - 2
length-clamp_body mss kind l body lo hi = ground (arith, length-take (l - 2) body)

-- The walk keeps the length of the options.
pub length-clamp_options :
    (mss fuel : ℕ) (opts : Bytes) → length (clamp_options mss fuel opts) ≡ length opts
unfolding clamp_options
length-clamp_options mss zero opts = refl
length-clamp_options mss (suc fuel) [] = refl
length-clamp_options mss (suc fuel) (kind ∷ []) = refl
length-clamp_options mss (suc fuel) (kind ∷ l ∷ body) = ground (
  arith,
  length-clamp_options mss fuel (l ∷ body),
  length-clamp_options mss fuel (drop (l - 2) body),
  length-clamp_body mss kind l body,
  length-append (clamp_body mss kind l body) (clamp_options mss fuel (drop (l - 2) body)),
  length-drop (l - 2) body,
)

clamp_body_unchanged :
    (mss kind l : ℕ) (body : Bytes)
    → l ≤ length body + 2
    → (kind == tcp_opt_mss && (l == 4 && ltb mss (uint16 (at body 0) (at body 1)))) ≡ false
    → clamp_body mss kind l body ≡ take (l - 2) body
clamp_body_unchanged mss kind l [] fits low = ground arith
clamp_body_unchanged mss kind l (x ∷ []) fits low = ground arith
clamp_body_unchanged mss kind l (x ∷ y ∷ body) fits low = ground arith

-- The code makes its copy, and writes, only if an option is above `mss`.
pub clamp_options_unchanged :
    (mss fuel : ℕ) (opts : Bytes)
    → options_changed mss fuel opts ≡ false
    → clamp_options mss fuel opts ≡ opts
unfolding clamp_options options_changed
clamp_options_unchanged mss zero opts h = refl
clamp_options_unchanged mss (suc fuel) [] h = refl
clamp_options_unchanged mss (suc fuel) (kind ∷ []) h = refl
clamp_options_unchanged mss (suc fuel) (kind ∷ l ∷ body) h = ground (
  arith,
  clamp_options_unchanged mss fuel (l ∷ body),
  clamp_options_unchanged mss fuel (drop (l - 2) body),
  clamp_body_unchanged mss kind l body,
  take-append-drop (l - 2) body,
)

pub options_changed_of_below :
    (mss fuel : ℕ) (opts : Bytes)
    → all_below mss fuel opts ≡ true
    → options_changed mss fuel opts ≡ false
unfolding all_below options_changed
options_changed_of_below mss zero opts h = refl
options_changed_of_below mss (suc fuel) [] h = refl
options_changed_of_below mss (suc fuel) (kind ∷ []) h = refl
options_changed_of_below mss (suc fuel) (kind ∷ l ∷ body) h = ground (
  arith,
  options_changed_of_below mss fuel (l ∷ body),
  options_changed_of_below mss fuel (drop (l - 2) body),
)

all_below_pad :
    (mss fuel kind : ℕ) (opts : Bytes)
    → (kind == 1) ≡ true
    → all_below mss fuel opts ≡ true
    → all_below mss (suc fuel) (kind ∷ opts) ≡ true
unfolding all_below
all_below_pad mss fuel kind [] pad h = refl
all_below_pad mss fuel kind (x ∷ opts) pad h = ground arith

all_below_option :
    (mss fuel kind l : ℕ) (body rest : Bytes)
    → (kind == 1) ≡ false
    → 2 ≤ l
    → length body ≡ l - 2
    → (kind == tcp_opt_mss
        && (l == 4 && ltb mss (uint16 (at (body ++ rest) 0) (at (body ++ rest) 1))))
      ≡ false
    → all_below mss fuel rest ≡ true
    → all_below mss (suc fuel) (kind ∷ l ∷ (body ++ rest)) ≡ true
unfolding all_below
all_below_option mss fuel kind l body rest no_pad lo len low h =
    ground (arith, drop-append (l - 2) body rest len, length-append body rest)

clamp_body_below :
    (mss kind l : ℕ) (body rest : Bytes)
    → mss < 65536
    → (kind == tcp_opt_mss
        && (l == 4
            && ltb mss (
                uint16
                  (at (clamp_body mss kind l body ++ rest) 0)
                  (at (clamp_body mss kind l body ++ rest) 1))))
      ≡ false
clamp_body_below mss kind l body rest fits = ground arith

-- After the walk every MSS option in its reach is at most `mss`, if that fits 16 bits.
pub all_below-clamp_options :
    (mss fuel : ℕ) (opts : Bytes)
    → mss < 65536
    → all_below mss fuel (clamp_options mss fuel opts) ≡ true
unfolding clamp_options
all_below-clamp_options mss zero opts fits = unfold all_below in refl
all_below-clamp_options mss (suc fuel) [] fits = unfold all_below in refl
all_below-clamp_options mss (suc fuel) (kind ∷ []) fits = unfold all_below in refl
all_below-clamp_options mss (suc fuel) (kind ∷ l ∷ body) fits = elim (Bool-cases (kind == 0)) [
  | inl stop ↦ rw stop (unfold all_below in rw stop)
  | inr go ↦ elim (Bool-cases (kind == 1)) [
    | inl pad ↦
        rw (go, pad)
          (all_below_pad mss fuel kind _ pad (all_below-clamp_options mss fuel (l ∷ body) fits))
    | inr option ↦ elim (Bool-cases (ltb l 2 || ltb (length body + 2) l)) [
      | inl stop ↦ rw (go, option, stop) (unfold all_below in rw (go, option, stop))
      | inr fine ↦
          rw (go, option, fine)
            (all_below_option mss fuel kind l (clamp_body mss kind l body)
              (clamp_options mss fuel (drop (l - 2) body)) option (ground arith)
              (length-clamp_body mss kind l body (ground arith) (ground arith))
              (clamp_body_below mss kind l body _ fits)
              (all_below-clamp_options mss fuel (drop (l - 2) body) fits))
    ]
  ]
]
