-- ===== src/Tun/Hosts/Tests.antt =====
-- A hosts file with a block, and the theorem on it.
use hopscotch.Common.{
  ◌≡◌, refl, List, [], ◌∷◌, ◌++◌, ℕ_discrete, All, arith, Bool, true, not, ◌&&◌, ◌==◌,
}
use hopscotch.Common.Bytes.{Bytes, same, codes}
use hopscotch.Tun.Hosts.{
  hosts_begin, hosts_end, replace_crlf, split_lines, keep_lines, trim_end, join_lines,
  strip_hosts_block,
}
use hopscotch.Tun.Hosts.Block.{IsLine, Plain, Inside, text_of, strip_hosts_block_lem}

-- What a run computes with.
runs : Unit {0}
unfolding replace_crlf split_lines keep_lines trim_end join_lines strip_hosts_block same ℕ_discrete
runs = tt

-- Carriage returns go, in the whole file.
crlf : strip_hosts_block (codes "a\r\nb\r\n\r\n") ≡ codes "a\nb\n"
unfolding runs
crlf = refl

abbrev before : List Bytes
before = (b'a' ∷ []) ∷ []

abbrev block : List Bytes
block = (b'b' ∷ []) ∷ []

abbrev after : List Bytes
after = (b'c' ∷ []) ∷ [] ∷ []

plain : Plain before × Inside block × Plain after
unfolding runs
plain = ((refl, tt), (refl, tt), (refl, (refl, tt)))

abbrev file : List Bytes
file = before ++ (hosts_begin ∷ (block ++ (hosts_end ∷ after)))

abbrev is_line : Bytes → Bool
is_line [] = true
is_line (c ∷ s) = not (c == 10) && (not (c == 13) && is_line s)

is_line-IsLine : (l : Bytes) → is_line l ≡ true → IsLine l
is_line-IsLine [] h = tt
is_line-IsLine (c ∷ s) h = (ground arith, is_line-IsLine s (ground arith))

file-IsLine : All IsLine file
file-IsLine = (
  is_line-IsLine (b'a' ∷ []) refl,
  (
    is_line-IsLine hosts_begin refl,
    (
      is_line-IsLine (b'b' ∷ []) refl,
      (
        is_line-IsLine hosts_end refl,
        (is_line-IsLine (b'c' ∷ []) refl, (is_line-IsLine [] refl, tt)),
      ),
    ),
  ),
)

strip_hosts_block_lem_example :
    strip_hosts_block (text_of file) ≡ text_of (trim_end (before ++ after))
strip_hosts_block_lem_example =
    strip_hosts_block_lem before block after file-IsLine plain.0 plain.1 plain.2
