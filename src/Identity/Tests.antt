-- ===== src/Identity/Tests.antt =====
-- Runs of the names and the keys, and the theorems at concrete inputs.
use hopscotch.Common.{◌≡◌, refl, none, some, List, [], ◌∷◌, replicate, Option, ℕ_discrete}
use hopscotch.Common.Bytes.{Bytes, codes, same}
use hopscotch.Identity.Names

-- What a run computes with.
runs : Unit {0}
unfolding Names.parse_name Names.to_lower Names.trim_space Names.normalize_names
    Names.names_from_cert same ℕ_discrete
runs = tt

lowered : Names.parse_name (codes " Home-1\n") ≡ Names.ok (codes "home-1")
unfolding runs
lowered = refl

digit_first : Names.parse_name (codes "1home") ≡ Names.err Names.bad_start
unfolding runs
digit_first = refl

dotted : Names.parse_name (codes "a.b") ≡ Names.err Names.bad_char
unfolding runs
dotted = refl

repeated :
    Names.normalize_names (codes "b" ∷ codes "A" ∷ codes "B" ∷ [])
    ≡ Names.ok (codes "b" ∷ codes "a" ∷ [])
unfolding runs
repeated = refl

abbrev cert_uris : List (Option Names.CertUri)
cert_uris =
    some (record { scheme = codes "hopscotch"; opaque = []; host = codes "Home" })
    ∷ some (record { scheme = codes "https"; opaque = []; host = codes "other" })
    ∷ some (record { scheme = codes "hopscotch"; opaque = codes "home"; host = [] })
    ∷ none
    ∷ []

from_cert : Names.names_from_cert cert_uris ≡ codes "home" ∷ []
unfolding runs
from_cert = refl

abbrev key : Bytes
key = replicate 32 0xa5
