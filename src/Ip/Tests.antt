-- ===== src/Ip/Tests.antt =====
-- Runs of the address texts, compared with what Go's net package prints and reads.
use hopscotch.Common.{refl, ◌≡◌, none, some, ◌∷◌, [], ◌++◌, replicate}
use hopscotch.Common.Bytes.{Bytes, codes, same}
use hopscotch.Ip.Text.{ip_string, parse_ip, v4_prefix}

abbrev resolver : Bytes
resolver = 253 ∷ (replicate 14 0 ++ (0x53 ∷ []))

print_resolver : ip_string resolver ≡ codes "fd00::53"
unfolding ip_string same
print_resolver = refl

read_resolver : parse_ip (codes "fd00::53") ≡ some resolver
unfolding parse_ip
read_resolver = refl

print_ula :
    ip_string (0xfd ∷ 0x12 ∷ 0xa ∷ 0 ∷ 5 ∷ 6 ∷ 0 ∷ 0 ∷ 1 ∷ 2 ∷ 3 ∷ 4 ∷ 0 ∷ 0 ∷ 0 ∷ 0 ∷ [])
    ≡ codes "fd12:a00:506:0:102:304::"
unfolding ip_string same
print_ula = refl

read_ula :
    parse_ip (codes "FD12:a00:506::102:304:0:0")
    ≡ some (0xfd ∷ 0x12 ∷ 0xa ∷ 0 ∷ 5 ∷ 6 ∷ 0 ∷ 0 ∷ 1 ∷ 2 ∷ 3 ∷ 4 ∷ 0 ∷ 0 ∷ 0 ∷ 0 ∷ [])
unfolding parse_ip
read_ula = refl

read_mapped : parse_ip (codes "::ffff:10.0.0.255") ≡ some (v4_prefix ++ (10 ∷ 0 ∷ 0 ∷ 255 ∷ []))
unfolding parse_ip
read_mapped = refl

print_v4 : ip_string (10 ∷ 0 ∷ 0 ∷ 255 ∷ []) ≡ codes "10.0.0.255"
unfolding ip_string
print_v4 = refl

read_v4 : parse_ip (codes "10.0.0.255") ≡ some (v4_prefix ++ (10 ∷ 0 ∷ 0 ∷ 255 ∷ []))
unfolding parse_ip
read_v4 = refl

read_default_v4 : parse_ip (codes "0.0.0.0/0") ≡ none
unfolding parse_ip
read_default_v4 = refl

read_leading_zero : parse_ip (codes "10.0.0.01") ≡ none
unfolding parse_ip
read_leading_zero = refl

read_two_runs : parse_ip (codes "fd00::1::2") ≡ none
unfolding parse_ip
read_two_runs = refl
