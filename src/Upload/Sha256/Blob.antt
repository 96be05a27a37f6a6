-- ===== src/Upload/Sha256/Blob.antt =====
-- lib/upload/sha256-stream.ts: both paths of `hashBlobSha256` give one digest.
use Prim.Native.Nat.{◌^◌}
use Prim.Native.String
use text.Mathlib.TextLemmas
use wtr.Common.{
  ℕ, ◌/◌, ◌%◌, ◌≡◌, refl, sym, ap, ◌∙◌, String, List, [], ◌∷◌, ◌++◌, map, template, length, leb, ok,
  if_yes, if_no, Bool-cases, inl, inr, arith,
}
use wtr.Common.Value.{hex_digit}
use wtr.Upload.Sha256.{
  Bytes, uint32_bytes, concat, hex_byte, hex_word, words_list, hash_blob_sha256,
  subtle_digest_limit,
}
use wtr.Upload.Sha256.Reference.{digest_words, words_bytes, sha256_bytes, sha256}
use wtr.Upload.Sha256.Stream.{update_all-digest}

abbrev hexes : Bytes → String
hexes xs = template (map hex_byte xs)

hexes-append : (xs ys : Bytes) → hexes (xs ++ ys) ≡ String.◌++◌ (hexes xs) (hexes ys)
hexes-append [] ys = sym (TextLemmas.nil-append (hexes ys))
hexes-append (x ∷ xs) ys =
    ap (λ t. String.◌++◌ (hex_byte x) t) (hexes-append xs ys)
    ∙ sym (TextLemmas.append_assoc (hex_byte x) (hexes xs) (hexes ys))

-- Two digits in front of a text, as one byte or as two parts of a template.
byte_lem :
    (b m k : ℕ) (rest rest' : String)
    → b / 2 ^ 4 % 16 ≡ m
    → b % 16 ≡ k
    → rest ≡ rest'
    → String.◌++◌ (hex_byte b) rest ≡ String.◌++◌ (hex_digit m) (String.◌++◌ (hex_digit k) rest')
byte_lem b m k rest rest' e f g =
    TextLemmas.append_assoc (hex_digit (b / 2 ^ 4 % 16)) (hex_digit (b % 16)) rest
    ∙ ap (λ n. String.◌++◌ (hex_digit n) (String.◌++◌ (hex_digit (b % 16)) rest)) e
    ∙ ap (λ n. String.◌++◌ (hex_digit m) (String.◌++◌ (hex_digit n) rest)) f
    ∙ ap (λ t. String.◌++◌ (hex_digit m) (String.◌++◌ (hex_digit k) t)) g

hexes-uint32_bytes : (n : ℕ) → hexes (uint32_bytes n) ≡ hex_word n
hexes-uint32_bytes n =
    byte_lem (n / 2 ^ 24 % 256) (n / 2 ^ 28 % 16) (n / 2 ^ 24 % 16) _ _ (omega arith) (omega arith)
      (byte_lem (n / 2 ^ 16 % 256) (n / 2 ^ 20 % 16) (n / 2 ^ 16 % 16) _ _ (omega arith)
        (omega arith)
        (byte_lem (n / 2 ^ 8 % 256) (n / 2 ^ 12 % 16) (n / 2 ^ 8 % 16) _ _ (omega arith)
          (omega arith)
          (byte_lem (n % 256) (n / 2 ^ 4 % 16) (n % 16) _ _ (omega arith) (omega arith) refl)))

-- The printed words are the printed bytes of the digest.
hexes-words_bytes : (ns : List ℕ) → hexes (words_bytes ns) ≡ template (map hex_word ns)
hexes-words_bytes [] = refl
hexes-words_bytes (n ∷ ns) =
    hexes-append (uint32_bytes n) (words_bytes ns)
    ∙ ap (λ t. String.◌++◌ t (hexes (words_bytes ns))) (hexes-uint32_bytes n)
    ∙ ap (λ t. String.◌++◌ (hex_word n) t) (hexes-words_bytes ns)

-- When the platform's digest is SHA-256, `hashBlobSha256` throws nothing and gives the reference's digest
-- of the blob in hexadecimal, on its path for small blobs and on its path by chunks.
pub hash_blob_sha256-sha256 :
    (subtle : Bytes → Bytes) (chunks : List Bytes)
    → ((m : Bytes) → subtle m ≡ sha256_bytes m)
    → hash_blob_sha256 subtle chunks ≡ ok (sha256 (concat chunks))
unfolding hash_blob_sha256
hash_blob_sha256-sha256 subtle chunks platform =
    elim (Bool-cases (leb (length (concat chunks)) subtle_digest_limit)) [
      | inl e ↦
          if_yes _ _ e
          ∙ ap (λ d. ok (template (map hex_byte d))) (platform (concat chunks))
          ∙ ap (λ t. ok t) (hexes-words_bytes (words_list (digest_words (concat chunks))))
      | inr e ↦ if_no _ _ e ∙ update_all-digest chunks
    ]
