-- ===== src/Peers.antt =====
-- internal/peers/peers.go: the peers file. bufio.Scanner is the standard library's: the lines that it
-- gives, and whether it failed after them, are arguments. Texts are ASCII.
pub mod Print
mod Tests
use hopscotch.Common.{
  ℕ, ◌+◌, Bool, true, false, Option, none, some, List, [], ◌∷◌, ◌++◌, ◌==◌, if◌then◌else◌,
}
use hopscotch.Common.Bytes.{Bytes, codes}
use hopscotch.Identity.Names
use hopscotch.Identity.Hex.{parse_public_key}
use hopscotch.Endpoint.{Endpoint, to_string}
use hopscotch.Endpoint

-- A nil key is `[]`.
pub record Peer : Type 0 where
  pub addr : Bytes
  pub key : Bytes

pub data FieldsError : Type 0 where
  bad_endpoint bad_key bad_count : FieldsError

-- With the number of the line; `not_scanned` is the error of the scanner.
pub data PeersError : Type 0 where
  at_line : ℕ → FieldsError → PeersError
  not_scanned : PeersError

pub data Result {ℓ κ} (E : Type ℓ) (A : Type κ) : Type (ℓ ⊔ κ) where
  ok : A → Result E A
  err : E → Result E A

-- The line up to the first `#`.
unfoldable pub before_hash : Bytes → Bytes
before_hash [] = []
before_hash (c ∷ s) = let rest = before_hash s in if c == b'#' then [] else c ∷ rest

abbrev pub flush : Bytes → List Bytes → List Bytes
flush [] rest = rest
flush (c ∷ w) rest = (c ∷ w) ∷ rest

-- strings.Fields, with the part of a field that is read already.
unfoldable pub fields_from : Bytes → Bytes → List Bytes
fields_from w [] = flush w []
fields_from w (c ∷ s) =
    let ended = fields_from [] s in
    let goes_on = fields_from (w ++ c ∷ []) s in if Names.is_space c then flush w ended else goes_on

unfoldable pub fields : Bytes → List Bytes
fields s = fields_from [] s

-- endpoint.Parse(addr, "udp"), for a peer with the given key.
unfoldable pub parse_endpoint : Bytes → Bytes → Result FieldsError Peer
parse_endpoint key addr = elim (Endpoint.parse addr (codes "udp")) [
  | none ↦ Result.err bad_endpoint
  | some ep ↦ Result.ok (record { addr = to_string ep; key = key })
]

unfoldable pub parse_fields : List Bytes → Result FieldsError Peer
parse_fields [] = Result.err bad_count
parse_fields (addr ∷ []) = parse_endpoint [] addr
parse_fields (key ∷ addr ∷ []) = elim (parse_public_key key) [
  | none ↦ Result.err bad_key
  | some pub_key ↦ parse_endpoint pub_key addr
]
parse_fields (_ ∷ _ ∷ _ ∷ _) = Result.err bad_count

-- The loop over the lines, from the number of the last one on.
unfoldable pub parse_lines : Bool → ℕ → List Bytes → Result PeersError (List Peer)
parse_lines failed line_no [] = if failed then Result.err not_scanned else Result.ok []
parse_lines failed line_no (line ∷ lines) =
    let later = parse_lines failed (line_no + 1) lines in
    elim (fields (before_hash line)) [
      | [] ↦ later
      | f ∷ fs ↦ elim (parse_fields (f ∷ fs)) [
        | Result.err e ↦ Result.err (at_line (line_no + 1) e)
        | Result.ok p ↦ elim later [
          | Result.err e ↦ Result.err e
          | Result.ok ps ↦ Result.ok (p ∷ ps)
        ]
      ]
    ]

-- Parse.
unfoldable pub parse : Bool → List Bytes → Result PeersError (List Peer)
parse failed lines = parse_lines failed 0 lines
