-- ===== src/Upload/Sha256/Padding.antt =====
-- lib/upload/sha256-stream.ts: the block or two that `digest` builds are what was pending and the
-- standard's padding.
use Prim.Native.Nat.{◌^◌}
use wtr.Common.{
  ℕ, suc, ◌+◌, ◌-◌, ◌*◌, ◌/◌, ◌%◌, ◌<◌, ◌≡◌, refl, sym, ap, ◌∙◌, inl, inr, [], ◌∷◌, ◌++◌, length,
  take, replicate, write_at, length-write_at, length-replicate, take_all, take-write_at,
  write_at-replicate, write_at-append, take-append, take-replicate, append_assoc, if_yes, if_no,
  leb, leb-le, leb-gt, if◌then◌else◌, le_or_lt, length-take, arith,
}
use wtr.Upload.Sha256.{Bytes, Sha256Stream, uint32_bytes, word, padding}
use wtr.Upload.Sha256.Feed.{pending}
use wtr.Upload.Sha256.Reference.{standard_padding}

-- The array of `size` bytes that holds `p`, the bit 1, zeros and eight bytes `hi` and `lo`.
abbrev built : ℕ → Bytes → Bytes → Bytes → Bytes
built size p hi lo =
    write_at (size - 4) lo
      (write_at (size - 8) hi (write_at (length p) (0x80 ∷ []) (write_at 0 p (replicate size 0))))

built_lem :
    (size zeros : ℕ) (p hi lo : Bytes)
    → size ≡ length p + 1 + zeros + 8
    → length hi ≡ 4
    → length lo ≡ 4
    → built size p hi lo ≡ p ++ (0x80 ∷ (replicate zeros 0 ++ (hi ++ lo)))
built_lem size zeros p hi lo e h l =
    sym (take_all size (built size p hi lo) (omega (arith, size_built)))
    ∙ take-write_at (size - 4) size lo high (omega arith) (omega (arith, size_high))
    ∙ ap (λ xs. xs ++ lo)
        (take-write_at (size - 8) (size - 4) hi marked (omega arith) (omega (arith, size_marked)))
    ∙ ap (λ xs. (take (size - 8) xs ++ hi) ++ lo) marked_lem
    ∙ ap (λ xs. (xs ++ hi) ++ lo) (take-append (size - 8) (suc zeros) p _ (omega arith))
    ∙ ap (λ xs. ((p ++ (0x80 ∷ xs)) ++ hi) ++ lo) (take-replicate zeros (zeros + 8) 0 (omega arith))
    ∙ append_assoc (p ++ (0x80 ∷ replicate zeros 0)) hi lo
    ∙ append_assoc p (0x80 ∷ replicate zeros 0) (hi ++ lo)
  where
    marked : Bytes
    marked = write_at (length p) (0x80 ∷ []) (write_at 0 p (replicate size 0))

    high : Bytes
    high = write_at (size - 8) hi marked

    size_marked : length marked ≡ size
    size_marked =
        length-write_at (length p) (0x80 ∷ []) (write_at 0 p (replicate size 0))
        ∙ length-write_at 0 p (replicate size 0)
        ∙ length-replicate size 0

    size_high : length high ≡ size
    size_high = length-write_at (size - 8) hi marked ∙ size_marked

    size_built : length (write_at (size - 4) lo high) ≡ size
    size_built = length-write_at (size - 4) lo high ∙ size_high

    marked_lem : marked ≡ p ++ (0x80 ∷ replicate (zeros + 8) 0)
    marked_lem =
        ap (λ xs. write_at (length p) (0x80 ∷ []) xs)
          (write_at-replicate p size (suc (zeros + 8)) 0 (omega arith))
        ∙ write_at-append (length p) p 0x80 0 (replicate (zeros + 8) 0) refl

module _ (s : Sha256Stream) (begun : s.buffered < 64) (size : length s.buffer ≡ 64) where
  length-pending : length (pending s) ≡ s.buffered
  length-pending = omega (arith, length-take s.buffered s.buffer)

  abbrev padding_size : ℕ
  padding_size = if leb s.buffered 55 then 64 else 128

  padding_zeros : padding_size ≡ length (pending s) + 1 + (119 - s.buffered) % 64 + 8
  padding_zeros = elim (le_or_lt s.buffered 55) [
    | inl l ↦ if_yes 64 128 (leb-le _ _ l) ∙ omega (arith, length-pending)
    | inr l ↦ if_no 64 128 (leb-gt _ _ l) ∙ omega (arith, length-pending)
  ]

  pub padding-standard :
      (n : ℕ)
      → s.total_bytes ≡ n
      → s.buffered ≡ n % 64
      → padding s ≡ pending s ++ standard_padding n
  unfolding padding standard_padding
  padding-standard n t b =
      ap
        (λ k. write_at (padding_size - 4) (low s.total_bytes) (
          write_at (padding_size - 8) (high s.total_bytes)
            (write_at k (0x80 ∷ []) (write_at 0 (pending s) (replicate padding_size 0)))))
        (sym length-pending)
      ∙ built_lem padding_size ((119 - s.buffered) % 64) (pending s) (high s.total_bytes)
          (low s.total_bytes) padding_zeros refl refl
      ∙ ap (λ k. pending s ++ (0x80 ∷ (replicate ((119 - s.buffered) % 64) 0 ++ (high k ++ low k))))
          t
      ∙ ap (λ k. pending s ++ (0x80 ∷ (replicate ((119 - k) % 64) 0 ++ (high n ++ low n)))) b
    where
      low : ℕ → Bytes
      low k = uint32_bytes (word (k * 8))

      high : ℕ → Bytes
      high k = uint32_bytes (k * 8 / 2 ^ 32)
