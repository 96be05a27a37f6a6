-- ===== src/Upload/Sha256.antt =====
-- lib/upload/sha256-stream.ts: the incremental SHA-256. A word is a number below 2^32; JavaScript's
-- `>>> 0` and the stores to a `Uint32Array` are `% 2 ^ 32`.
pub mod Reference
pub mod Feed
pub mod Update
pub mod Padding
pub mod Stream
pub mod Blob
mod Tests
use Prim.Native.Nat.{min, bit_and, bit_or, bit_xor, ◌^◌}
use Prim.Native.String
use wtr.Common.{
  ℕ, zero, suc, ◌+◌, ◌-◌, ◌*◌, ◌/◌, ◌%◌, String, Bool, true, false, List, [], ◌∷◌, ◌++◌, map,
  length, take, drop, replicate, write_at, leb, ltb, nat_eq, Result, ok, err, error, template,
  if◌then◌else◌,
}
use wtr.Common.Value.{hex_digit}

abbrev pub Bytes : Type 0
Bytes = List ℕ

abbrev pub word : ℕ → ℕ
word n = n % 2 ^ 32

-- `K`
abbrev pub round_constants : List ℕ
round_constants =
    0x428a2f98 ∷ 0x71374491 ∷ 0xb5c0fbcf ∷ 0xe9b5dba5 ∷ 0x3956c25b ∷ 0x59f111f1 ∷ 0x923f82a4
    ∷ 0xab1c5ed5 ∷ 0xd807aa98 ∷ 0x12835b01 ∷ 0x243185be ∷ 0x550c7dc3 ∷ 0x72be5d74 ∷ 0x80deb1fe
    ∷ 0x9bdc06a7 ∷ 0xc19bf174 ∷ 0xe49b69c1 ∷ 0xefbe4786 ∷ 0x0fc19dc6 ∷ 0x240ca1cc ∷ 0x2de92c6f
    ∷ 0x4a7484aa ∷ 0x5cb0a9dc ∷ 0x76f988da ∷ 0x983e5152 ∷ 0xa831c66d ∷ 0xb00327c8 ∷ 0xbf597fc7
    ∷ 0xc6e00bf3 ∷ 0xd5a79147 ∷ 0x06ca6351 ∷ 0x14292967 ∷ 0x27b70a85 ∷ 0x2e1b2138 ∷ 0x4d2c6dfc
    ∷ 0x53380d13 ∷ 0x650a7354 ∷ 0x766a0abb ∷ 0x81c2c92e ∷ 0x92722c85 ∷ 0xa2bfe8a1 ∷ 0xa81a664b
    ∷ 0xc24b8b70 ∷ 0xc76c51a3 ∷ 0xd192e819 ∷ 0xd6990624 ∷ 0xf40e3585 ∷ 0x106aa070 ∷ 0x19a4c116
    ∷ 0x1e376c08 ∷ 0x2748774c ∷ 0x34b0bcb5 ∷ 0x391c0cb3 ∷ 0x4ed8aa4a ∷ 0x5b9cca4f ∷ 0x682e6ff3
    ∷ 0x748f82ee ∷ 0x78a5636f ∷ 0x84c87814 ∷ 0x8cc70208 ∷ 0x90befffa ∷ 0xa4506ceb ∷ 0xbef9a3f7
    ∷ 0xc67178f2 ∷ []

pub record Words : Type 0 where
  pub a : ℕ
  pub b : ℕ
  pub c : ℕ
  pub d : ℕ
  pub e : ℕ
  pub f : ℕ
  pub g : ℕ
  pub h : ℕ

abbrev pub initial : Words
initial = record {
  a = 0x6a09e667;
  b = 0xbb67ae85;
  c = 0x3c6ef372;
  d = 0xa54ff53a;
  e = 0x510e527f;
  f = 0x9b05688c;
  g = 0x1f83d9ab;
  h = 0x5be0cd19;
}

-- `rotr`
unfoldable pub rotr : ℕ → ℕ → ℕ
rotr value bits = bit_or (value / 2 ^ bits) (word (value * 2 ^ (32 - bits)))

-- `~value`, as the unsigned word
abbrev complement : ℕ → ℕ
complement value = 2 ^ 32 - 1 - value

-- The element of a list, 0 beyond its end.
abbrev pub nth : ℕ → List ℕ → ℕ
nth n [] = 0
nth zero (x ∷ xs) = x
nth (suc n) (x ∷ xs) = nth n xs

-- The first loop of `compress`: the words of a block, big-endian, the newest in front.
first_words : ℕ → Bytes → List ℕ → List ℕ
first_words zero block w = w
first_words (suc left) block w = first_words left (drop 4 block) (
    bit_or (bit_or (bit_or (nth 0 block * 2 ^ 24) (nth 1 block * 2 ^ 16)) (nth 2 block * 2 ^ 8))
      (nth 3 block)
    ∷ w)

-- The second loop: `w[i]` from the words before it, `w[i - 1]` being in front.
next_word : List ℕ → ℕ
unfolding rotr
next_word w =
    let x = nth 14 w in
    let y = nth 1 w in
    let s0 = bit_xor (bit_xor (rotr x 7) (rotr x 18)) (x / 2 ^ 3) in
    let s1 = bit_xor (bit_xor (rotr y 17) (rotr y 19)) (y / 2 ^ 10) in
    word (nth 15 w + s0 + nth 6 w + s1)

more_words : ℕ → List ℕ → List ℕ
unfolding next_word
more_words zero w = w
more_words (suc left) w = more_words left (next_word w ∷ w)

backwards : List ℕ → List ℕ → List ℕ
backwards [] out = out
backwards (x ∷ xs) out = backwards xs (x ∷ out)

-- `words`: the schedule of a block, in order.
unfoldable pub schedule : Bytes → List ℕ
unfolding first_words more_words backwards
schedule block = backwards (more_words 48 (first_words 16 block [])) []

-- One round of the third loop, with `K[i]` and `w[i]`.
unfoldable pub round : ℕ → ℕ → Words → Words
unfolding rotr
round k w v =
    let s1 = bit_xor (bit_xor (rotr v.e 6) (rotr v.e 11)) (rotr v.e 25) in
    let ch = bit_xor (bit_and v.e v.f) (bit_and (complement v.e) v.g) in
    let temp1 = word (v.h + s1 + ch + k + w) in
    let s0 = bit_xor (bit_xor (rotr v.a 2) (rotr v.a 13)) (rotr v.a 22) in
    let maj = bit_xor (bit_xor (bit_and v.a v.b) (bit_and v.a v.c)) (bit_and v.b v.c) in
    let temp2 = word (s0 + maj) in
    record {
      a = word (temp1 + temp2);
      b = v.a;
      c = v.b;
      d = v.c;
      e = word (v.d + temp1);
      f = v.e;
      g = v.f;
      h = v.g;
    }

rounds : List ℕ → List ℕ → Words → Words
unfolding round
rounds (k ∷ ks) (w ∷ ws) v = rounds ks ws (round k w v)
rounds _ _ v = v

add_words : Words → Words → Words
add_words s v = record {
  a = word (s.a + v.a);
  b = word (s.b + v.b);
  c = word (s.c + v.c);
  d = word (s.d + v.d);
  e = word (s.e + v.e);
  f = word (s.f + v.f);
  g = word (s.g + v.g);
  h = word (s.h + v.h);
}

-- `compress` of a block of 64 bytes
unfoldable pub compress : Bytes → Words → Words
unfolding rounds schedule add_words
compress block s = add_words s (rounds round_constants (schedule block) s)

-- `Sha256Stream`: the bytes of the buffer from `buffered` on are those of earlier blocks.
pub record Sha256Stream : Type 0 where
  pub state : Words
  pub buffer : Bytes
  pub buffered : ℕ
  pub total_bytes : ℕ
  pub finished : Bool

unfoldable pub new_stream : Sha256Stream
new_stream = record {
  state = initial;
  buffer = replicate 64 0;
  buffered = 0;
  total_bytes = 0;
  finished = false;
}

-- The `while` loop of `update`, on what is left of the chunk: a round takes a block off, so as many
-- rounds as there are bytes are enough.
unfoldable pub blocks : ℕ → Words → Bytes → Words × Bytes
blocks zero s rest = (s, rest)
blocks (suc fuel) s rest =
    let more = blocks fuel (compress (take 64 rest) s) (drop 64 rest) in
    if leb 64 (length rest) then more else (s, rest)

-- The first `if` of `update`: what the chunk adds to a block that was begun, and the rest of the chunk.
unfoldable pub fill : Bytes → Sha256Stream → Sha256Stream × Bytes
fill chunk s =
    let taken = min (64 - s.buffered) (length chunk) in
    let buffer = write_at s.buffered (take taken chunk) s.buffer in
    if nat_eq s.buffered 0
    then (s, chunk)
    else if nat_eq (s.buffered + taken) 64
    then (
      record s { buffer = buffer; state = compress buffer s.state; buffered = 0 },
      drop taken chunk,
    )
    else (record s { buffer = buffer; buffered = s.buffered + taken }, drop taken chunk)

-- The rest of `update`.
unfoldable pub take_blocks : Sha256Stream × Bytes → Sha256Stream
take_blocks (s, chunk) =
    let (state, rest) = blocks (length chunk) s.state chunk in
    if nat_eq (length rest) 0
    then record s { state = state }
    else record s { state = state; buffer = write_at 0 rest s.buffer; buffered = length rest }

unfoldable pub update : Bytes → Sha256Stream → Result Sha256Stream
unfolding fill take_blocks blocks
update chunk s =
    if s.finished
    then err (error "digest() already called")
    else ok (take_blocks (fill chunk (record s { total_bytes = s.total_bytes + length chunk })))

-- `view.setUint32(offset, value)`, the bytes that it writes
abbrev pub uint32_bytes : ℕ → Bytes
uint32_bytes n = n / 2 ^ 24 % 256 ∷ n / 2 ^ 16 % 256 ∷ n / 2 ^ 8 % 256 ∷ n % 256 ∷ []

-- `padding` of `digest`
unfoldable pub padding : Sha256Stream → Bytes
padding s =
    let bit_length = s.total_bytes * 8 in
    let size = if leb s.buffered 55 then 64 else 128 in
    let empty = replicate size 0 in
    let begun = write_at 0 (take s.buffered s.buffer) empty in
    let marked = write_at s.buffered (0x80 ∷ []) begun in
    let high = write_at (size - 8) (uint32_bytes (bit_length / 2 ^ 32)) marked in
    write_at (size - 4) (uint32_bytes (word bit_length)) high

-- `word.toString(16).padStart(8, "0")`
abbrev pub hex_word : ℕ → String
hex_word n = template (
    hex_digit (n / 2 ^ 28 % 16)
    ∷ hex_digit (n / 2 ^ 24 % 16)
    ∷ hex_digit (n / 2 ^ 20 % 16)
    ∷ hex_digit (n / 2 ^ 16 % 16)
    ∷ hex_digit (n / 2 ^ 12 % 16)
    ∷ hex_digit (n / 2 ^ 8 % 16)
    ∷ hex_digit (n / 2 ^ 4 % 16)
    ∷ hex_digit (n % 16)
    ∷ [])

-- `[...this.state]`
abbrev pub words_list : Words → List ℕ
words_list s = s.a ∷ s.b ∷ s.c ∷ s.d ∷ s.e ∷ s.f ∷ s.g ∷ s.h ∷ []

abbrev pub hex_words : Words → String
hex_words s = template (map hex_word (words_list s))

-- The digest, and the stream that it leaves.
unfoldable pub digest : Sha256Stream → Result (String × Sha256Stream)
unfolding padding blocks
digest s =
    let padded = padding s in
    let state = (blocks (length padded) s.state padded).0 in
    if s.finished
    then err (error "digest() already called")
    else ok (hex_words state, record s { state = state; finished = true })

abbrev pub continue :
    Result Sha256Stream → (Sha256Stream → Result Sha256Stream) → Result Sha256Stream
continue (ok s) f = f s
continue (err e) f = err e

-- The loop of `hashBlobSha256` over the chunks that the reader gives.
unfoldable pub update_all : List Bytes → Sha256Stream → Result Sha256Stream
update_all [] s = ok s
update_all (chunk ∷ chunks) s = continue (update chunk s) (update_all chunks)

abbrev pub digest_text : Result Sha256Stream → Result String
digest_text (err e) = err e
digest_text (ok s) = elim (digest s) [ ok (text, s') ↦ ok text | err e ↦ err e ]

-- `SUBTLE_DIGEST_LIMIT`
abbrev pub subtle_digest_limit : ℕ
subtle_digest_limit = 128 * 1024 * 1024

abbrev pub concat : List Bytes → Bytes
concat [] = []
concat (chunk ∷ chunks) = chunk ++ concat chunks

-- `byte.toString(16).padStart(2, "0")`
abbrev pub hex_byte : ℕ → String
hex_byte n = String.◌++◌ (hex_digit (n / 2 ^ 4 % 16)) (hex_digit (n % 16))

-- `hashBlobSha256` of a blob, by the chunks that its reader gives; `subtle` is the platform's
-- `crypto.subtle.digest("SHA-256", ..)`.
unfoldable pub hash_blob_sha256 : (Bytes → Bytes) → List Bytes → Result String
unfolding new_stream
hash_blob_sha256 subtle chunks =
    if leb (length (concat chunks)) subtle_digest_limit
    then ok (template (map hex_byte (subtle (concat chunks))))
    else digest_text (update_all chunks new_stream)
