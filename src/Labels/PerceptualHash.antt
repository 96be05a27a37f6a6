-- ===== src/Labels/PerceptualHash.antt =====
-- lib/labels/perceptual-hash.ts: the form of a 64-bit hash and the Hamming distance of two.
mod Distance
mod Tests
use Prim.Native.Nat.{bit_xor}
use wtr.Common.{
  ℕ, zero, suc, ◌+◌, ◌-◌, ◌/◌, ◌%◌, String, Bool, true, false, ◌&&◌, ◌||◌, List, [], ◌∷◌, Result,
  ok, err, error, codes, leb, ltb, nat_eq, length, if◌then◌else◌,
}

-- `[0-9a-f]`
abbrev pub is_hex : ℕ → Bool
is_hex c = leb 48 c && leb c 57 || leb 97 c && leb c 102

abbrev pub all_hex : List ℕ → Bool
all_hex [] = true
all_hex (c ∷ cs) = is_hex c && all_hex cs

-- `HASH64_HEX.test`
unfoldable pub is_hash64 : String → Bool
is_hash64 s = nat_eq (length (codes s)) 16 && all_hex (codes s)

-- `parseInt(digit, 16)` of such a digit
abbrev pub nibble : ℕ → ℕ
nibble c = if ltb c 58 then c - 48 else c - 87

-- The inner loop on fuel; a nibble has four bits.
abbrev pub ones : ℕ → ℕ → ℕ
ones zero xor = 0
ones (suc fuel) xor = let rest = ones fuel (xor / 2) in if nat_eq xor 0 then 0 else xor % 2 + rest

unfoldable pub nibble_distance : ℕ → ℕ → ℕ
nibble_distance a b = ones 4 (bit_xor a b)

-- The outer loop
abbrev pub distance : List ℕ → List ℕ → ℕ
distance [] ds = 0
distance (c ∷ cs) [] = 0
distance (c ∷ cs) (d ∷ ds) = nibble_distance (nibble c) (nibble d) + distance cs ds

-- `hammingDistance64`
unfoldable pub hamming_distance64 : String → String → Result ℕ
hamming_distance64 a b =
    if is_hash64 a && is_hash64 b
    then ok (distance (codes a) (codes b))
    else err (error "expected 16-hex hashes")
