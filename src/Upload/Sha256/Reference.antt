-- ===== src/Upload/Sha256/Reference.antt =====
-- The reference that lib/upload/sha256-stream.ts is compared with: FIPS 180-4's SHA-256, a byte at a
-- time and with the padding that the standard names. It shares `compress`, big-endian bytes and the
-- printing of words with the code.
use Prim.Native.Nat.{◌^◌}
use wtr.Common.{
  ℕ, suc, ◌+◌, ◌-◌, ◌*◌, ◌/◌, ◌%◌, ◌<◌, ◌≡◌, refl, sym, ap, ◌∙◌, String, List, [], ◌∷◌, ◌++◌,
  length, length-append, replicate, nat_eq, if◌then◌else◌, append_assoc, append-nil, arith,
  eq_or_ne, inl, inr,
}
use wtr.Upload.Sha256.{Bytes, Words, initial, compress, uint32_bytes, word, hex_words, words_list}

-- A state and the bytes of a block that is not full yet.
unfoldable pub feed_byte : Words × Bytes → ℕ → Words × Bytes
feed_byte (s, pending) x =
    let block = pending ++ (x ∷ []) in
    if nat_eq (length block) 64 then (compress block s, []) else (s, block)

unfoldable pub feed : Words × Bytes → Bytes → Words × Bytes
feed at [] = at
feed at (x ∷ xs) = feed (feed_byte at x) xs

-- The padding of a message of `n` bytes: the bit 1, zeros up to 56 modulo 64, the length in bits as 64
-- bits, big-endian.
unfoldable pub standard_padding : ℕ → Bytes
standard_padding n =
    0x80
    ∷ (replicate ((119 - n % 64) % 64) 0
        ++ (uint32_bytes (n * 8 / 2 ^ 32) ++ uint32_bytes (word (n * 8))))

-- The words of the digest; the digest as bytes, big-endian; and in hexadecimal.
unfoldable pub digest_words : Bytes → Words
unfolding feed
digest_words m = (feed (initial, []) (m ++ standard_padding (length m))).0

abbrev pub words_bytes : List ℕ → Bytes
words_bytes [] = []
words_bytes (n ∷ ns) = uint32_bytes n ++ words_bytes ns

abbrev pub sha256_bytes : Bytes → Bytes
sha256_bytes m = words_bytes (words_list (digest_words m))

abbrev pub sha256 : Bytes → String
sha256 m = hex_words (digest_words m)

pub feed-append : (at : Words × Bytes) (a b : Bytes) → feed at (a ++ b) ≡ feed (feed at a) b
unfolding feed
feed-append at [] b = refl
feed-append at (x ∷ a) b = feed-append (feed_byte at x) a b

feed_byte_begun :
    (s : Words) (pending : Bytes) (x : ℕ)
    → suc (length pending) < 64
    → feed_byte (s, pending) x ≡ (s, pending ++ (x ∷ []))
unfolding feed_byte
feed_byte_begun s pending x h = ground (arith, length-append pending (x ∷ []))

feed_byte_full :
    (s : Words) (pending : Bytes) (x : ℕ)
    → suc (length pending) ≡ 64
    → feed_byte (s, pending) x ≡ (compress (pending ++ (x ∷ [])) s, [])
unfolding feed_byte
feed_byte_full s pending x h = ground (arith, length-append pending (x ∷ []))

-- Bytes that do not fill the block are kept.
pub feed_short :
    (s : Words) (pending xs : Bytes)
    → length pending + length xs < 64
    → feed (s, pending) xs ≡ (s, pending ++ xs)
unfolding feed
feed_short s pending [] h = ap (λ p. (s, p)) (sym (append-nil pending))
feed_short s pending (x ∷ xs) h =
    ap (λ at. feed at xs) (feed_byte_begun s pending x (omega arith))
    ∙ feed_short s (pending ++ (x ∷ [])) xs (omega (arith, length-append pending (x ∷ [])))
    ∙ ap (λ p. (s, p)) (append_assoc pending (x ∷ []) xs)

-- Bytes that fill it exactly are compressed with it.
pub feed_full :
    (s : Words) (pending xs : Bytes)
    → length pending < 64
    → length pending + length xs ≡ 64
    → feed (s, pending) xs ≡ (compress (pending ++ xs) s, [])
unfolding feed
feed_full s pending [] l h = absurd (omega arith)
feed_full s pending (x ∷ []) l h = feed_byte_full s pending x (omega arith)
feed_full s pending (x ∷ y ∷ xs) l h =
    ap (λ at. feed at (y ∷ xs)) (feed_byte_begun s pending x (omega arith))
    ∙ feed_full s (pending ++ (x ∷ [])) (y ∷ xs) (omega (arith, length-append pending (x ∷ [])))
        (omega (arith, length-append pending (x ∷ [])))
    ∙ ap (λ p. (compress p s, [])) (append_assoc pending (x ∷ []) (y ∷ xs))

length-feed_byte :
    (s : Words) (pending : Bytes) (x : ℕ)
    → length pending < 64
    → length (feed_byte (s, pending) x).1 ≡ (length pending + 1) % 64
length-feed_byte s pending x h = elim (eq_or_ne (suc (length pending)) 64) [
  | inl e ↦ ap (λ at. length at.1) (feed_byte_full s pending x e) ∙ omega arith
  | inr n ↦
      ap (λ at. length at.1) (feed_byte_begun s pending x (omega arith))
      ∙ omega (arith, length-append pending (x ∷ []))
]

-- What is pending after a message: its length modulo 64.
pub length-feed :
    (at : Words × Bytes) (m : Bytes)
    → length at.1 < 64
    → length (feed at m).1 ≡ (length at.1 + length m) % 64
unfolding feed
length-feed at [] h = omega arith
length-feed at (x ∷ m) h =
    let b = length-feed_byte at.0 at.1 x h in
    length-feed (feed_byte at x) m (omega arith) ∙ omega arith
