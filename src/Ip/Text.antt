-- ===== src/Ip/Text.antt =====
-- net.IP.To4, To16, Equal, String and net.ParseIP (Go's standard library).
use hopscotch.Common.{
  ℕ, zero, suc, ◌+◌, ◌-◌, ◌*◌, ◌/◌, ◌%◌, ite, Bool, true, false, ◌&&◌, ◌||◌, List, [], ◌∷◌, ◌++◌,
  Option, none, some, ◌==◌, ltb, leb, if◌then◌else◌, length, take, drop, replicate,
}
use hopscotch.Common.Bytes.{Bytes, same, at}

-- The prefix of an IPv4 address in its 16-byte form.
abbrev pub v4_prefix : Bytes
v4_prefix = 0 ∷ 0 ∷ 0 ∷ 0 ∷ 0 ∷ 0 ∷ 0 ∷ 0 ∷ 0 ∷ 0 ∷ 255 ∷ 255 ∷ []

-- `[]` is nil.
unfoldable pub to4 : Bytes → Bytes
to4 ip =
    if length ip == 4
    then ip
    else if length ip == 16
    then ite (same (take 12 ip) v4_prefix) (drop 12 ip) []
    else []

unfoldable pub to16 : Bytes → Bytes
to16 ip = if length ip == 4 then v4_prefix ++ ip else if length ip == 16 then ip else []

unfoldable pub ip_equal : Bytes → Bytes → Bool
ip_equal a b =
    if length a == length b
    then ite (same a b) true false
    else if length a == 4 && length b == 16
    then ite (same (v4_prefix ++ a) b) true false
    else if length a == 16 && length b == 4
    then ite (same a (v4_prefix ++ b)) true false
    else false

hex_digit : ℕ → ℕ
hex_digit d = if ltb d 10 then b'0' + d else b'a' + (d - 10)

-- A number without leading zeros, in at most four digits of the base.
hex_word : ℕ → Bytes
unfolding hex_digit
hex_word w =
    let d0 = hex_digit (w % 16) ∷ [] in
    let d1 = hex_digit (w / 16 % 16) ∷ d0 in
    let d2 = hex_digit (w / 256 % 16) ∷ d1 in
    let d3 = hex_digit (w / 4096 % 16) ∷ d2 in
    if ltb w 16 then d0 else if ltb w 256 then d1 else if ltb w 4096 then d2 else d3

decimal_byte : ℕ → Bytes
decimal_byte b =
    let d0 = (b'0' + b % 10) ∷ [] in
    let d1 = (b'0' + b / 10 % 10) ∷ d0 in
    let d2 = (b'0' + b / 100 % 10) ∷ d1 in if ltb b 10 then d0 else if ltb b 100 then d1 else d2

dotted : Bytes → Bytes
unfolding decimal_byte
dotted ip =
    decimal_byte (at ip 0)
    ++ (b'.' ∷ decimal_byte (at ip 1)
        ++ (b'.' ∷ decimal_byte (at ip 2) ++ (b'.' ∷ decimal_byte (at ip 3))))

words : Bytes → List ℕ
words [] = []
words (hi ∷ []) = []
words (hi ∷ lo ∷ bs) = (hi * 256 + lo) ∷ words bs

zero_run : List ℕ → ℕ
zero_run [] = 0
zero_run (w ∷ ws) = let more = zero_run ws in if w == 0 then suc more else 0

-- The longest run of at least two zero words, the first of equal ones: start and length.
longest_run : ℕ → List ℕ → ℕ × ℕ → ℕ × ℕ
unfolding zero_run
longest_run i [] best = best
longest_run i (w ∷ ws) (start, len) =
    let n = zero_run (w ∷ ws) in
    longest_run (suc i) ws (if leb 2 n && ltb len n then (i, n) else (start, len))

-- `skip` words are left of the run that "::" stands for.
print_words : ℕ × ℕ → ℕ → ℕ → List ℕ → Bytes
unfolding hex_word
print_words run i skip [] = []
print_words (start, len) i (suc skip) (w ∷ ws) = print_words (start, len) (suc i) skip ws
print_words (start, len) i zero (w ∷ ws) =
    let in_run = b':' ∷ b':' ∷ print_words (start, len) (suc i) (len - 1) ws in
    let after = hex_word w ++ print_words (start, len) (suc i) zero ws in
    let colon = b':' ∷ after in
    if 0 == len
    then if i == 0 then after else colon
    else if i == start
    then in_run
    else if i == 0 || i == start + len
    then after
    else colon

-- ip.String()
unfoldable pub ip_string : Bytes → Bytes
unfolding to4 dotted words longest_run print_words
ip_string ip =
    let v4 = to4 ip in
    if length ip == 0
    then b'<' ∷ b'n' ∷ b'i' ∷ b'l' ∷ b'>' ∷ []
    else if length v4 == 4
    then dotted v4
    else if length ip == 16
    then (let ws = words ip in print_words (longest_run 0 ws (0, 0)) 0 0 ws)
    else b'?' ∷ []

is_digit : ℕ → Bool
is_digit c = leb b'0' c && leb c b'9'

hex_value : ℕ → Option ℕ
hex_value c =
    if leb b'0' c && leb c b'9'
    then some (c - b'0')
    else if leb b'a' c && leb c b'f'
    then some (c - b'a' + 10)
    else if leb b'A' c && leb c b'F'
    then some (c - b'A' + 10)
    else none

-- The loop of parseIPv4Fields: `val` and `digits` of the field at hand, `out` the fields before.
parse_v4 : Bytes → ℕ → ℕ → Bytes → Option Bytes
unfolding is_digit
parse_v4 [] val digits out =
    if length out == 3 && leb 1 digits then some (out ++ (val ∷ [])) else none
parse_v4 (c ∷ s) val digits out =
    let v = val * 10 + (c - b'0') in
    let more = parse_v4 s v (suc digits) out in
    let next = parse_v4 s 0 0 (out ++ (val ∷ [])) in
    if is_digit c
    then if (digits == 1 && val == 0) || ltb 255 v then none else more
    else if c == b'.'
    then if digits == 0 || length out == 3 then none else next
    else none

-- The hexadecimal digits in front: their value, their number, and what follows.
hex_prefix : Bytes → ℕ → ℕ → ℕ × ℕ × Bytes
unfolding hex_value
hex_prefix [] acc n = (acc, n, [])
hex_prefix (c ∷ s) acc n = elim (hex_value c) [
  | none ↦ (acc, n, c ∷ s)
  | some d ↦ hex_prefix s (acc * 16 + d) (suc n)
]

-- "::" takes up what is missing to 16 bytes.
expand : Bytes → Option ℕ → Option Bytes
expand out none = if length out == 16 then some out else none
expand out (some e) =
    if ltb (length out) 16
    then some (take e out ++ (replicate (16 - length out) 0 ++ drop e out))
    else none

-- The loop of parseIPv6, one group of digits a round; at most eight rounds.
parse_v6 : ℕ → Bytes → Bytes → Option ℕ → Option Bytes
unfolding hex_prefix parse_v4 expand
parse_v6 zero s out ellipsis = none
parse_v6 (suc fuel) s out ellipsis =
    let (acc, n, rest) = hex_prefix s 0 0 in
    let out' = out ++ ((acc / 256) ∷ (acc % 256) ∷ []) in
    if n == 0 || ltb 4 n then none else elim rest [
      | [] ↦ expand out' ellipsis
      | c ∷ [] ↦ none
      | c ∷ d ∷ more ↦
          if c == b'.'
          then elim (parse_v4 s 0 0 []) [
            | none ↦ none
            | some v4 ↦ elim ellipsis [
              | none ↦ if length out == 12 then some (out ++ v4) else none
              | some e ↦ if leb (length out) 12 then expand (out ++ v4) (some e) else none
            ]
          ]
          else if c == b':'
          then if length out' == 16
            then none
            else if d == b':'
            then elim ellipsis [
              | none ↦ elim more [
                | [] ↦ expand out' (some (length out'))
                | x ∷ xs ↦ parse_v6 fuel (x ∷ xs) out' (some (length out'))
              ]
              | some e ↦ none
            ]
            else parse_v6 fuel (d ∷ more) out' ellipsis
          else none
    ]

-- The first of '.', ':' and '%' says which form is meant.
abbrev first_mark : Bytes → Option ℕ
first_mark [] = none
first_mark (c ∷ s) = if c == b'.' || (c == b':' || c == b'%') then some c else first_mark s

-- net.ParseIP: `none` is nil, and a result has 16 bytes.
unfoldable pub parse_ip : Bytes → Option Bytes
unfolding parse_v4 parse_v6
parse_ip s = elim (first_mark s) [
  | none ↦ none
  | some c ↦
      if c == b'.'
      then elim (parse_v4 s 0 0 []) [ none ↦ none | some v4 ↦ some (v4_prefix ++ v4) ]
      else if c == b':'
      then elim s [
        | [] ↦ none
        | x ∷ [] ↦ none
        | x ∷ y ∷ more ↦
            if x == b':' && y == b':'
            then elim more [ [] ↦ some (replicate 16 0) | z ∷ zs ↦ parse_v6 8 (z ∷ zs) [] (some 0) ]
            else parse_v6 8 (x ∷ y ∷ more) [] none
      ]
      else none
]
