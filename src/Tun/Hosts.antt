-- ===== src/Tun/Hosts.antt =====
-- internal/tun/hosts.go: the text of the hosts file without the block that older builds wrote.
pub mod Block
mod Tests
use hopscotch.Common.{
  Bool, true, false, not, ◌&&◌, ◌||◌, List, [], ◌∷◌, ◌++◌, ◌==◌, ite, if◌then◌else◌,
}
use hopscotch.Common.Bytes.{Bytes, same, codes}

abbrev pub hosts_begin : Bytes
hosts_begin = codes "# hopscotch BEGIN"

abbrev pub hosts_end : Bytes
hosts_end = codes "# hopscotch END"

abbrev pub starts_newline : Bytes → Bool
starts_newline [] = false
starts_newline (c ∷ s) = c == 10

-- strings.ReplaceAll(existing, "\r\n", "\n")
unfoldable pub replace_crlf : Bytes → Bytes
replace_crlf [] = []
replace_crlf (c ∷ s) =
    let rest = replace_crlf s in if (c == 13) && starts_newline s then rest else c ∷ rest

abbrev pub push : Bytes → List Bytes → List Bytes
push line [] = line ∷ []
push line (l ∷ ls) = (line ++ l) ∷ ls

-- strings.Split(s, "\n")
unfoldable pub split_lines : Bytes → List Bytes
split_lines [] = [] ∷ []
split_lines (c ∷ s) = let rest = split_lines s in if c == 10 then [] ∷ rest else push (c ∷ []) rest

abbrev pub is_text : Bytes → Bytes → Bool
is_text a b = ite (same a b) true false

-- The loop over the lines, from its flag on.
unfoldable pub keep_lines : Bool → List Bytes → List Bytes
keep_lines skip [] = []
keep_lines skip (l ∷ ls) =
    let begins = is_text l hosts_begin in
    let rest = keep_lines (begins || (skip && not (is_text l hosts_end))) ls in
    if begins || skip then rest else l ∷ rest

abbrev pub is_blank : Bytes → Bool
is_blank [] = true
is_blank (c ∷ s) = false

abbrev pub cons_unless : Bytes → List Bytes → List Bytes
cons_unless l [] = if is_blank l then [] else l ∷ []
cons_unless l (k ∷ ls) = l ∷ k ∷ ls

-- The loop that takes empty lines off the end.
unfoldable pub trim_end : List Bytes → List Bytes
trim_end [] = []
trim_end (l ∷ ls) = cons_unless l (trim_end ls)

-- strings.Join(kept, "\n")
unfoldable pub join_lines : List Bytes → Bytes
join_lines [] = []
join_lines (l ∷ []) = l
join_lines (l ∷ k ∷ ls) = l ++ (10 ∷ join_lines (k ∷ ls))

abbrev pub ended_text : List Bytes → Bytes
ended_text [] = []
ended_text (l ∷ ls) = join_lines (l ∷ ls) ++ (10 ∷ [])

unfoldable pub strip_hosts_block : Bytes → Bytes
strip_hosts_block existing =
    ended_text (trim_end (keep_lines false (split_lines (replace_crlf existing))))
