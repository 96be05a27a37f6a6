-- ===== src/Upload/Sha256/Feed.antt =====
-- lib/upload/sha256-stream.ts: `update` takes the bytes of its chunk as the reference does.
use Prim.Native.Nat.{min}
use wtr.Common.{
  ◌≢◌, ℕ, zero, suc, ◌+◌, ◌-◌, ◌≤◌, ◌<◌, ◌≡◌, refl, sym, ap, ◌∙◌, ◌⊎◌, inl, inr, false, [], ◌++◌,
  length, take, drop, length-take, length-drop, take-append-drop, take_all, write_at,
  length-write_at, take-write_at, arith, le_or_lt, leb-le, leb-gt, if_yes, if_no, eq_or_ne,
  nat_eq-eq, nat_eq-ne, subst,
}
use wtr.Upload.Sha256.{Bytes, Words, Sha256Stream, initial, compress, blocks, fill}
use wtr.Upload.Sha256.Reference.{feed, feed-append, feed_short, feed_full}

-- The bytes of the block that was begun.
abbrev pub pending : Sha256Stream → Bytes
pending s = take s.buffered s.buffer

-- The stream has taken the message `m`.
pub record HasTaken (s : Sha256Stream) (m : Bytes) : Type 0 where
  pub words : feed (initial, []) m ≡ (s.state, pending s)
  pub begun : s.buffered < 64
  pub size : length s.buffer ≡ 64
  pub total : s.total_bytes ≡ length m
  pub running : s.finished ≡ false

-- A whole block in front of `rest` is compressed.
feed-drop :
    (s : Words) (rest : Bytes)
    → 64 ≤ length rest
    → feed (s, []) rest ≡ feed (compress (take 64 rest) s, []) (drop 64 rest)
feed-drop s rest h =
    ap (λ m. feed (s, []) m) (sym (take-append-drop 64 rest))
    ∙ feed-append (s, []) (take 64 rest) (drop 64 rest)
    ∙ ap (λ at. feed at (drop 64 rest))
        (feed_full s [] (take 64 rest) (omega arith) (omega (arith, length-take 64 rest)))

-- The loop over whole blocks.
pub feed-blocks :
    (fuel : ℕ) (s : Words) (rest : Bytes)
    → length rest ≤ fuel
    → feed (s, []) rest ≡ blocks fuel s rest
unfolding blocks
feed-blocks zero s rest h = feed_short s [] rest (omega arith)
feed-blocks (suc fuel) s rest h = elim (le_or_lt 64 (length rest)) [
  | inl l ↦
      feed-drop s rest l
      ∙ feed-blocks fuel (compress (take 64 rest) s) (drop 64 rest)
          (omega (arith, length-drop 64 rest))
      ∙ sym (if_yes _ _ (leb-le 64 (length rest) l))
  | inr l ↦ feed_short s [] rest (omega arith) ∙ sym (if_no _ _ (leb-gt 64 (length rest) l))
]

pub length-blocks :
    (fuel : ℕ) (s : Words) (rest : Bytes) → length rest ≤ fuel → length (blocks fuel s rest).1 < 64
unfolding blocks
length-blocks zero s rest h = omega arith
length-blocks (suc fuel) s rest h = elim (le_or_lt 64 (length rest)) [
  | inl l ↦
      subst {A = Words × Bytes} (λ at. length at.1 < 64)
        (sym (if_yes _ _ (leb-le 64 (length rest) l)))
        (length-blocks fuel (compress (take 64 rest) s) (drop 64 rest)
          (omega (arith, length-drop 64 rest)))
  | inr l ↦
      subst {A = Words × Bytes} (λ at. length at.1 < 64)
        (sym (if_no _ _ (leb-gt 64 (length rest) l))) l
]

-- What `fill` does to a stream and a chunk.
pub record IsFilled (s : Sha256Stream) (chunk : Bytes) (at : Sha256Stream × Bytes) : Type 0 where
  pub words : feed (s.state, pending s) chunk ≡ feed (at.0.state, pending at.0) at.1
  pub begun : at.0.buffered < 64
  pub size : length at.0.buffer ≡ 64
  pub aligned : (at.0.buffered ≡ 0) ⊎ (length at.1 ≡ 0)
  pub total : at.0.total_bytes ≡ s.total_bytes
  pub finished : at.0.finished ≡ s.finished

module _ (s : Sha256Stream) (chunk : Bytes) (begun : s.buffered < 64)
    (size : length s.buffer ≡ 64) where
  abbrev taken : ℕ
  taken = min (64 - s.buffered) (length chunk)

  abbrev filled : Bytes
  filled = write_at s.buffered (take taken chunk) s.buffer

  take-filled : take (s.buffered + taken) filled ≡ pending s ++ take taken chunk
  take-filled =
      take-write_at s.buffered (s.buffered + taken) (take taken chunk) s.buffer
        (omega (arith, length-take taken chunk)) (omega arith)

  length-pending : length (pending s) ≡ s.buffered
  length-pending = omega (arith, length-take s.buffered s.buffer)

  fill_full :
      s.buffered + taken ≡ 64
      → IsFilled s chunk (
        record s { buffer = filled; state = compress filled s.state; buffered = 0 },
        drop taken chunk,
      )
  fill_full e = record {
    words =
        ap (λ c. feed (s.state, pending s) c) (sym (take-append-drop taken chunk))
        ∙ feed-append (s.state, pending s) (take taken chunk) (drop taken chunk)
        ∙ ap (λ at. feed at (drop taken chunk))
            (feed_full s.state (pending s) (take taken chunk) (omega (arith, length-pending))
              (omega (arith, length-pending, length-take taken chunk)))
        ∙ ap (λ b. feed (compress b s.state, []) (drop taken chunk)) (sym take-filled ∙ all);
    begun = omega arith;
    size = length-write_at s.buffered (take taken chunk) s.buffer ∙ size;
    aligned = inl refl;
    total = refl;
    finished = refl;
  }
    where
      all : take (s.buffered + taken) filled ≡ filled
      all =
          take_all (s.buffered + taken) filled
            (omega (arith, length-write_at s.buffered (take taken chunk) s.buffer))

  fill_part :
      s.buffered + taken ≢ 64
      → IsFilled s chunk
          (record s { buffer = filled; buffered = s.buffered + taken }, drop taken chunk)
  fill_part e = record {
    words =
        ap (λ c. feed (s.state, pending s) c) (sym (take-append-drop taken chunk))
        ∙ feed-append (s.state, pending s) (take taken chunk) (drop taken chunk)
        ∙ ap (λ at. feed at (drop taken chunk))
            (feed_short s.state (pending s) (take taken chunk)
              (omega (arith, length-pending, length-take taken chunk)))
        ∙ ap (λ p. feed (s.state, p) (drop taken chunk)) (sym take-filled);
    begun = omega arith;
    size = length-write_at s.buffered (take taken chunk) s.buffer ∙ size;
    aligned = inr (omega (arith, length-drop taken chunk));
    total = refl;
    finished = refl;
  }

  pub fill-IsFilled : IsFilled s chunk (fill chunk s)
  unfolding fill
  fill-IsFilled = elim (eq_or_ne s.buffered 0) [
    | inl z ↦
        subst {A = Sha256Stream × Bytes} (IsFilled s chunk) (sym (if_yes _ _ (nat_eq-eq _ _ z)))
          (record {
            words = refl;
            begun = begun;
            size = size;
            aligned = inl z;
            total = refl;
            finished = refl;
          })
    | inr n ↦
        subst {A = Sha256Stream × Bytes} (IsFilled s chunk) (sym (if_no _ _ (nat_eq-ne _ _ n)))
          (elim (eq_or_ne (s.buffered + taken) 64) [
            | inl e ↦
                subst {A = Sha256Stream × Bytes} (IsFilled s chunk)
                  (sym (if_yes _ _ (nat_eq-eq _ _ e))) (fill_full e)
            | inr e ↦
                subst {A = Sha256Stream × Bytes} (IsFilled s chunk)
                  (sym (if_no _ _ (nat_eq-ne _ _ e))) (fill_part e)
          ])
  ]
