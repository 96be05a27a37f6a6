-- ===== src/Upload/Sha256/Tests.antt =====
-- Known digests, and the theorems at concrete messages.
use wtr.Common.{String, List, [], ◌∷◌, true, ok, err, error, replicate, ◌≡◌, refl, codes}
use wtr.Upload.Sha256.{
  Bytes, Sha256Stream, new_stream, update, update_all, digest, digest_text, compress, concat,
  hash_blob_sha256,
}
use wtr.Upload.Sha256.Reference.{sha256, sha256_bytes}
use wtr.Upload.Sha256.Stream.{update_all-digest, digest_once}
use wtr.Upload.Sha256.Blob.{hash_blob_sha256-sha256}

abc_test :
    digest_text (update_all (codes "a" ∷ codes "bc" ∷ []) new_stream)
    ≡ ok "ba7816bf8f01cfea414140de5dae2223b00361a396177a9cb410ff61f20015ad"
unfolding update update_all new_stream digest compress
abc_test = refl

abbrev two_chunks : List Bytes
two_chunks = codes "a" ∷ [] ∷ replicate 130 98 ∷ []

update_all-digest_example :
    digest_text (update_all two_chunks new_stream) ≡ ok (sha256 (concat two_chunks))
update_all-digest_example = update_all-digest two_chunks

hash_blob_sha256-sha256_example :
    hash_blob_sha256 sha256_bytes two_chunks ≡ ok (sha256 (concat two_chunks))
hash_blob_sha256-sha256_example = hash_blob_sha256-sha256 sha256_bytes two_chunks (λ m. refl)

abbrev digested : Sha256Stream
digested = record {
  state = record {
    a = 0xe3b0c442;
    b = 0x98fc1c14;
    c = 0x9afbf4c8;
    d = 0x996fb924;
    e = 0x27ae41e4;
    f = 0x649b934c;
    g = 0xa495991b;
    h = 0x7852b855;
  };
  buffer = replicate 64 0;
  buffered = 0;
  total_bytes = 0;
  finished = true;
}

abbrev empty_digest : String
empty_digest = "e3b0c44298fc1c149afbf4c8996fb92427ae41e4649b934ca495991b7852b855"

digest-empty : digest new_stream ≡ ok (empty_digest, digested)
unfolding new_stream digest compress
digest-empty = refl

digest_once_example :
    (update (codes "a") digested ≡ err (error "digest() already called"))
    × (digest digested ≡ err (error "digest() already called"))
digest_once_example = digest_once new_stream digested empty_digest (codes "a") digest-empty
