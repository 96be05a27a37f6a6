-- ===== src/Upload/Sha256/Update.antt =====
-- lib/upload/sha256-stream.ts: `update` as a whole.
use wtr.Common.{
  ◌+◌, ◌<◌, ◌≡◌, refl, sym, ap, ◌∙◌, ◌⊎◌, inl, inr, false, [], ◌∷◌, ◌++◌, length, take,
  length-append, length-write_at, take-write_at, ok, arith, if_yes, if_no, eq_or_ne, nat_eq-eq,
  nat_eq-ne, subst,
}
use wtr.Upload.Sha256.{Bytes, Words, Sha256Stream, initial, blocks, fill, take_blocks, update}
use wtr.Upload.Sha256.Feed.{pending, HasTaken, feed-blocks, length-blocks, fill-IsFilled}
use wtr.Upload.Sha256.Reference.{feed, feed-append}

-- What the rest of `update` does to them.
record IsTaken (at : Sha256Stream × Bytes) (s : Sha256Stream) : Type 0 where
  words : feed (at.0.state, pending at.0) at.1 ≡ (s.state, pending s)
  begun : s.buffered < 64
  size : length s.buffer ≡ 64
  total : s.total_bytes ≡ at.0.total_bytes
  finished : s.finished ≡ at.0.finished

nil_of_length : (xs : Bytes) → length xs ≡ 0 → xs ≡ []
nil_of_length [] e = refl
nil_of_length (x ∷ xs) e = absurd (omega arith)

module _ (s : Sha256Stream) (chunk : Bytes) (begun : s.buffered < 64)
    (size : length s.buffer ≡ 64) where
  abbrev at_end : Words × Bytes
  at_end = blocks (length chunk) s.state chunk

  take_blocks_aligned : s.buffered ≡ 0 → IsTaken (s, chunk) (take_blocks (s, chunk))
  unfolding take_blocks
  take_blocks_aligned z = elim (eq_or_ne (length at_end.1) 0) [
    | inl e ↦
        subst {A = Sha256Stream} (IsTaken (s, chunk)) (sym (if_yes _ _ (nat_eq-eq _ _ e))) (record {
          words = from_zero ∙ ap (λ p. (at_end.0, p)) (nil_of_length at_end.1 e ∙ sym nothing);
          begun = begun;
          size = size;
          total = refl;
          finished = refl;
        })
    | inr n ↦
        subst {A = Sha256Stream} (IsTaken (s, chunk)) (sym (if_no _ _ (nat_eq-ne _ _ n))) (record {
          words =
              from_zero
              ∙ ap (λ p. (at_end.0, p))
                  (sym (
                    take-write_at 0 (length at_end.1) at_end.1 s.buffer (omega arith)
                      (omega (arith, rest_short))));
          begun = rest_short;
          size = length-write_at 0 at_end.1 s.buffer ∙ size;
          total = refl;
          finished = refl;
        })
  ]
    where
      nothing : pending s ≡ []
      nothing = ap (λ n. take n s.buffer) z

      from_zero : feed (s.state, pending s) chunk ≡ at_end
      from_zero =
          ap (λ p. feed (s.state, p) chunk) nothing
          ∙ feed-blocks (length chunk) s.state chunk (omega arith)

      rest_short : length at_end.1 < 64
      rest_short = length-blocks (length chunk) s.state chunk (omega arith)

take_blocks_nothing :
    (s : Sha256Stream)
    → s.buffered < 64
    → length s.buffer ≡ 64
    → IsTaken (s, []) (take_blocks (s, []))
unfolding take_blocks blocks feed
take_blocks_nothing s begun size = record {
  words = refl;
  begun = begun;
  size = size;
  total = refl;
  finished = refl;
}

take_blocks-IsTaken :
    (s : Sha256Stream) (chunk : Bytes)
    → s.buffered < 64
    → length s.buffer ≡ 64
    → (s.buffered ≡ 0) ⊎ (length chunk ≡ 0)
    → IsTaken (s, chunk) (take_blocks (s, chunk))
take_blocks-IsTaken s chunk begun size (inl z) = take_blocks_aligned s chunk begun size z
take_blocks-IsTaken s [] begun size (inr e) = take_blocks_nothing s begun size
take_blocks-IsTaken s (x ∷ chunk) begun size (inr e) = absurd (omega arith)

-- The stream that `update` leaves: the bytes of the chunk are taken.
abbrev pub updated : Bytes → Sha256Stream → Sha256Stream
updated chunk s = take_blocks (fill chunk (record s { total_bytes = s.total_bytes + length chunk }))

pub updated-HasTaken :
    (s : Sha256Stream) (m chunk : Bytes) → HasTaken s m → HasTaken (updated chunk s) (m ++ chunk)
updated-HasTaken s m chunk t =
    let at = fill chunk (record s { total_bytes = s.total_bytes + length chunk }) in
    let f =
      fill-IsFilled (record s { total_bytes = s.total_bytes + length chunk }) chunk t.begun
        t.size in
    let r = take_blocks-IsTaken at.0 at.1 f.begun f.size f.aligned in
    record {
      words =
          feed-append (initial, []) m chunk ∙ ap (λ at. feed at chunk) t.words ∙ f.words ∙ r.words;
      begun = r.begun;
      size = r.size;
      total = omega (arith, r.total, f.total, t.total, length-append m chunk);
      running = r.finished ∙ f.finished ∙ t.running;
    }

pub update_running :
    (s : Sha256Stream) (chunk : Bytes) → s.finished ≡ false → update chunk s ≡ ok (updated chunk s)
unfolding update
update_running s chunk e = if_no _ _ e
