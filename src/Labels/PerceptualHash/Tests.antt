-- ===== src/Labels/PerceptualHash/Tests.antt =====
-- Hashes and their distances.
use wtr.Common.{length, ok, err, error, ◌≡◌, refl}
use wtr.Labels.PerceptualHash.{nibble_distance, hamming_distance64, is_hash64}
use wtr.Labels.PerceptualHash.Distance.{differing, hash_bits, hamming_distance64-bits}

far_apart : hamming_distance64 "0123456789abcdef" "fedcba9876543210" ≡ ok 64
unfolding hamming_distance64 is_hash64 nibble_distance
far_apart = refl

capital :
    hamming_distance64 "0123456789ABCDEF" "fedcba9876543210" ≡ err (error "expected 16-hex hashes")
unfolding hamming_distance64 is_hash64
capital = refl

hamming_distance64-bits_example :
    (hamming_distance64 "0123456789abcdef" "8123456789abcdee"
      ≡ ok (differing (hash_bits "0123456789abcdef") (hash_bits "8123456789abcdee")))
    × (length (hash_bits "0123456789abcdef") ≡ 64)
    × (length (hash_bits "8123456789abcdee") ≡ 64)
unfolding is_hash64
hamming_distance64-bits_example =
    hamming_distance64-bits "0123456789abcdef" "8123456789abcdee" refl refl
