-- ===== src/Tun/Hosts/Block.antt =====
-- The block is cut out of the hosts file, and the other lines stay.
use hopscotch.Common.{
  ◌≡◌, ◌≢◌, refl, sym, ap, ◌∙◌, true, false, List, [], ◌∷◌, ◌++◌, append_assoc, All, arith,
  ℕ_discrete, inl, inr, Bool-cases,
}
use hopscotch.Common.Bytes.{Bytes, same}
use hopscotch.Tun.Hosts.{
  hosts_begin, hosts_end, replace_crlf, split_lines, is_text, keep_lines, cons_unless, trim_end,
  join_lines, ended_text, strip_hosts_block,
}

-- A line has neither an end of a line nor a carriage return.
abbrev pub IsLine : Bytes → Type 0
IsLine l = All (λ c. (c ≢ 10) × (c ≢ 13)) l

-- The text of a file of lines.
abbrev pub text_of : List Bytes → Bytes
text_of [] = []
text_of (l ∷ ls) = l ++ (10 ∷ text_of ls)

replace_crlf-line : (l s : Bytes) → IsLine l → replace_crlf s ≡ s → replace_crlf (l ++ s) ≡ l ++ s
unfolding replace_crlf
replace_crlf-line [] s h e = e
replace_crlf-line (c ∷ l) s h e = ground (arith, replace_crlf-line l s h.1 e, h.0)

replace_crlf-text_of : (ls : List Bytes) → All IsLine ls → replace_crlf (text_of ls) ≡ text_of ls
unfolding replace_crlf
replace_crlf-text_of [] h = refl
replace_crlf-text_of (l ∷ ls) h =
    replace_crlf-line l (10 ∷ text_of ls) h.0 (ap (λ t. 10 ∷ t) (replace_crlf-text_of ls h.1))

split_lines-line : (l s : Bytes) → IsLine l → split_lines (l ++ (10 ∷ s)) ≡ l ∷ split_lines s
unfolding split_lines
split_lines-line [] s h = refl
split_lines-line (c ∷ l) s h = ground (arith, split_lines-line l s h.1, h.0)

split_lines-text_of : (ls : List Bytes) → All IsLine ls → split_lines (text_of ls) ≡ ls ++ ([] ∷ [])
split_lines-text_of [] h = unfold split_lines in refl
split_lines-text_of (l ∷ ls) h =
    split_lines-line l (text_of ls) h.0 ∙ ap (λ t. l ∷ t) (split_lines-text_of ls h.1)

-- Lines without the one that begins a block.
abbrev pub Plain : List Bytes → Type 0
Plain ls = All (λ l. is_text l hosts_begin ≡ false) ls

keep_lines-Plain :
    (ls rest : List Bytes) → Plain ls → keep_lines false (ls ++ rest) ≡ ls ++ keep_lines false rest
unfolding keep_lines
keep_lines-Plain [] rest h = refl
keep_lines-Plain (l ∷ ls) rest h = rw h.0 (ap (λ t. l ∷ t) (keep_lines-Plain ls rest h.1))

-- Lines without the one that ends a block.
abbrev pub Inside : List Bytes → Type 0
Inside ls = All (λ l. is_text l hosts_end ≡ false) ls

keep_lines_end : (rest : List Bytes) → keep_lines true (hosts_end ∷ rest) ≡ keep_lines false rest
unfolding keep_lines same ℕ_discrete
keep_lines_end rest = refl

keep_lines_begin :
    (rest : List Bytes) → keep_lines false (hosts_begin ∷ rest) ≡ keep_lines true rest
unfolding keep_lines same ℕ_discrete
keep_lines_begin rest = refl

keep_lines_skip :
    (l : Bytes) (ls : List Bytes)
    → is_text l hosts_end ≡ false
    → keep_lines true (l ∷ ls) ≡ keep_lines true ls
unfolding keep_lines
keep_lines_skip l ls h = elim (Bool-cases (is_text l hosts_begin)) [
  | inl begins ↦ rw begins refl
  | inr goes ↦ rw (goes, h) refl
]

keep_lines-Inside :
    (ls rest : List Bytes)
    → Inside ls
    → keep_lines true (ls ++ (hosts_end ∷ rest)) ≡ keep_lines false rest
keep_lines-Inside [] rest h = keep_lines_end rest
keep_lines-Inside (l ∷ ls) rest h =
    keep_lines_skip l (ls ++ (hosts_end ∷ rest)) h.0 ∙ keep_lines-Inside ls rest h.1

trim_end-blank : (ls : List Bytes) → trim_end (ls ++ ([] ∷ [])) ≡ trim_end ls
unfolding trim_end
trim_end-blank [] = refl
trim_end-blank (l ∷ ls) = ap (cons_unless l) (trim_end-blank ls)

ended_text-text_of : (ls : List Bytes) → ended_text ls ≡ text_of ls
unfolding join_lines
ended_text-text_of [] = refl
ended_text-text_of (l ∷ []) = refl
ended_text-text_of (l ∷ k ∷ ls) =
    append_assoc l (10 ∷ join_lines (k ∷ ls)) (10 ∷ [])
    ∙ ap (λ t. l ++ (10 ∷ t)) (ended_text-text_of (k ∷ ls))

blank_is_plain : is_text [] hosts_begin ≡ false
unfolding same
blank_is_plain = refl

-- In a hosts file of lines that end in a newline, with one block from its begin to its end line,
-- stripHostsBlock leaves the lines before it and those behind it, less the empty lines at the end.
pub strip_hosts_block_lem :
    (before block after : List Bytes)
    → All IsLine (before ++ (hosts_begin ∷ (block ++ (hosts_end ∷ after))))
    → Plain before
    → Inside block
    → Plain after
    → strip_hosts_block (text_of (before ++ (hosts_begin ∷ (block ++ (hosts_end ∷ after)))))
      ≡ text_of (trim_end (before ++ after))
unfolding strip_hosts_block keep_lines
strip_hosts_block_lem before block after lines first inside last =
    let file : List Bytes = before ++ (hosts_begin ∷ (block ++ (hosts_end ∷ after))) in
    let kept : keep_lines false (file ++ ([] ∷ [])) ≡ (before ++ after) ++ ([] ∷ []) =
      ap (keep_lines false) (append_assoc before _ ([] ∷ []))
      ∙ keep_lines-Plain before _ first
      ∙ ap (λ t. before ++ t)
          (keep_lines_begin _
            ∙ ap (keep_lines true) (append_assoc block (hosts_end ∷ after) ([] ∷ []))
            ∙ keep_lines-Inside block (after ++ ([] ∷ [])) inside
            ∙ keep_lines-Plain after ([] ∷ []) last
            ∙ ap (λ t. after ++ t) (keep_lines-Plain ([] ∷ []) [] (blank_is_plain, tt)))
      ∙ sym (append_assoc before after ([] ∷ [])) in
    rw
      (
        replace_crlf-text_of file lines,
        split_lines-text_of file lines,
        kept,
        trim_end-blank (before ++ after),
      )
      (ended_text-text_of _)
