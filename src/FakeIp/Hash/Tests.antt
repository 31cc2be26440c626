-- ===== src/FakeIp/Hash/Tests.antt =====
-- The hash functions at the inputs of the source's tests, and further ones.
use pao_pao_gate_way.Common.{◌≡◌, refl, [], ◌∷◌}
use pao_pao_gate_way.Common.Bytes.{Bytes}
use pao_pao_gate_way.FakeIp.Hash.{rapidhash, fnv1a, djb2, fastrange}

abbrev google : Bytes
google = b'g' ∷ b'o' ∷ b'o' ∷ b'g' ∷ b'l' ∷ b'e' ∷ b'.' ∷ b'c' ∷ b'o' ∷ b'm' ∷ []

abbrev www_google : Bytes
www_google = b'w' ∷ b'w' ∷ b'w' ∷ b'.' ∷ google

abbrev login : Bytes
login =
    b'l' ∷ b'o' ∷ b'g' ∷ b'i' ∷ b'n' ∷ b'.' ∷ b'm' ∷ b'i' ∷ b'c' ∷ b'r' ∷ b'o' ∷ b's' ∷ b'o' ∷ b'f'
    ∷ b't' ∷ b'o' ∷ b'n' ∷ b'l' ∷ b'i' ∷ b'n' ∷ b'e' ∷ b'.' ∷ b'c' ∷ b'o' ∷ b'm' ∷ []

rapidhash-google : rapidhash google 0 ≡ 0x459b11a54d9a0a40
unfolding rapidhash
rapidhash-google = refl

rapidhash_www : rapidhash www_google 0 ≡ 0x6d9346518cf83511
unfolding rapidhash
rapidhash_www = refl

rapidhash-login : rapidhash login 0 ≡ 0x8aaeb2c893862ad1
unfolding rapidhash
rapidhash-login = refl

rapidhash_one : rapidhash (b'a' ∷ []) 0 ≡ 0x599f47df33a2e1eb
unfolding rapidhash
rapidhash_one = refl

rapidhash_four : rapidhash (b'a' ∷ b'b' ∷ b'c' ∷ b'd' ∷ []) 0 ≡ 0xf8f44f4a65e26132
unfolding rapidhash
rapidhash_four = refl

-- The published value of FNV-1a for one byte.
fnv1a_one : fnv1a (b'a' ∷ []) ≡ 0xaf63dc4c8601ec8c
unfolding fnv1a
fnv1a_one = refl

djb2_one : djb2 (b'a' ∷ []) ≡ 177604
unfolding djb2
djb2_one = refl

fastrange_ends : fastrange 0xffffffffffffffff 1000 ≡ 999
unfolding fastrange
fastrange_ends = refl
