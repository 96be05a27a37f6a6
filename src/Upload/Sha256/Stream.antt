-- ===== src/Upload/Sha256/Stream.antt =====
-- lib/upload/sha256-stream.ts: the stream computes the reference's SHA-256, however a message is cut
-- into chunks.
use wtr.Common.{
  ◌%◌, ◌≡◌, refl, sym, ap, ◌∙◌, String, Bool, true, List, [], ◌∷◌, ◌++◌, length, length-take,
  append_assoc, append-nil, Result, ok, err, error, if_yes, if_no, Bool-cases, inl, inr, arith,
}
use wtr.Upload.Sha256.{
  Bytes, Words, Sha256Stream, initial, new_stream, blocks, padding, update, update_all, concat,
  hex_words, digest, digest_text, continue,
}
use wtr.Upload.Sha256.Feed.{pending, HasTaken, feed-blocks}
use wtr.Upload.Sha256.Update.{updated, updated-HasTaken, update_running}
use wtr.Upload.Sha256.Padding.{padding-standard}
use wtr.Upload.Sha256.Reference.{
  feed, feed-append, feed_short, length-feed, standard_padding, digest_words, sha256,
}

new_stream-HasTaken : HasTaken new_stream []
unfolding new_stream feed
new_stream-HasTaken = record {
  words = refl;
  begun = omega arith;
  size = refl;
  total = refl;
  running = refl;
}

-- The words after the last blocks.
abbrev final : Sha256Stream → Words
final s = (blocks (length (padding s)) s.state (padding s)).0

final-feed :
    (s : Sha256Stream) (m : Bytes)
    → HasTaken s m
    → final s ≡ (feed (initial, []) (m ++ standard_padding (length m))).0
final-feed s m t =
    ap (λ at. at.0) (sym (feed-blocks (length (padding s)) s.state (padding s) (omega arith)))
    ∙ ap (λ p. (feed (s.state, []) p).0)
        (padding-standard s t.begun t.size (length m) t.total modulo)
    ∙ ap (λ at. at.0) (feed-append (s.state, []) (pending s) (standard_padding (length m)))
    ∙ ap (λ at. (feed at (standard_padding (length m))).0)
        (feed_short s.state [] (pending s) (omega (arith, short)) ∙ sym t.words)
    ∙ ap (λ at. at.0) (sym (feed-append (initial, []) m (standard_padding (length m))))
  where
    short : length (pending s) ≡ s.buffered
    short = omega (arith, length-take s.buffered s.buffer, t.begun, t.size)

    modulo : s.buffered ≡ length m % 64
    modulo =
        sym short
        ∙ ap (λ at. length at.1) (sym t.words)
        ∙ length-feed (initial, []) m (omega arith)
        ∙ omega arith

-- The digest of a stream that took `m` is that of `m`.
digest-sha256 :
    (s : Sha256Stream) (m : Bytes)
    → HasTaken s m
    → digest s ≡ ok (sha256 m, record s { state = final s; finished = true })
unfolding digest digest_words
digest-sha256 s m t =
    if_no _ _ t.running
    ∙ ap (λ w. ok (hex_words w, record s { state = final s; finished = true })) (final-feed s m t)

update_all-sha256 :
    (chunks : List Bytes) (s : Sha256Stream) (m : Bytes)
    → HasTaken s m
    → digest_text (update_all chunks s) ≡ ok (sha256 (m ++ concat chunks))
unfolding update_all
update_all-sha256 [] s m t =
    ap (λ r. elim r [ ok (text, s') ↦ ok text | err e ↦ err e ]) (digest-sha256 s m t)
    ∙ ap (λ l. ok (sha256 l)) (sym (append-nil m))
update_all-sha256 (chunk ∷ chunks) s m t =
    ap (λ r. digest_text (continue r (update_all chunks))) (update_running s chunk t.running)
    ∙ update_all-sha256 chunks (updated chunk s) (m ++ chunk) (updated-HasTaken s m chunk t)
    ∙ ap (λ l. ok (sha256 l)) (append_assoc m chunk (concat chunks))

-- However a message is cut into chunks, empty ones included, a new stream that is updated with them in
-- order throws nothing, and its digest is the reference's SHA-256 of the whole message in hexadecimal.
pub update_all-digest :
    (chunks : List Bytes) → digest_text (update_all chunks new_stream) ≡ ok (sha256 (concat chunks))
update_all-digest chunks = update_all-sha256 chunks new_stream [] new_stream-HasTaken

-- Whether the stream that a digest leaves is finished.
abbrev leaves_finished : Result (String × Sha256Stream) → Bool
leaves_finished (ok (text, s)) = s.finished
leaves_finished (err e) = true

digest_finishes : (s : Sha256Stream) → leaves_finished (digest s) ≡ true
unfolding digest
digest_finishes s = elim (Bool-cases s.finished) [
  | inl e ↦ ap leaves_finished (if_yes _ _ e)
  | inr e ↦ ap leaves_finished (if_no _ _ e)
]

-- A stream that gave its digest takes nothing more: each later `update` and `digest` throws.
pub digest_once :
    (s s' : Sha256Stream) (text : String) (chunk : Bytes)
    → digest s ≡ ok (text, s')
    → (update chunk s' ≡ err (error "digest() already called"))
      × (digest s' ≡ err (error "digest() already called"))
unfolding digest update
digest_once s s' text chunk e =
    let done = ap leaves_finished (sym e) ∙ digest_finishes s in (if_yes _ _ done, if_yes _ _ done)
