-- ===== src/Labels/PerceptualHash/Distance.antt =====
-- lib/labels/perceptual-hash.ts: the Hamming distance counts the bits in which two hashes differ.
use wtr.Common.{
  ℕ, zero, suc, ◌+◌, ◌*◌, ◌/◌, ◌%◌, ◌<◌, ◌≡◌, refl, sym, subst, ap, ◌∙◌, String, Bool, true, false,
  not, ◌&&◌, ◌||◌, List, [], ◌∷◌, ◌++◌, length, length-append, ok, codes, nat_eq, nat_eq→eq,
  if◌then◌else◌, le_or_lt, inl, inr, ◌⊎◌, arith,
}
use wtr.Labels.PerceptualHash.{
  is_hex, all_hex, nibble, nibble_distance, distance, is_hash64, hamming_distance64,
}

split_and : (p q : Bool) → (p && q) ≡ true → (p ≡ true) × (q ≡ true)
split_and true q h = (refl, h)
split_and false q h = ground (arith, h)

-- The place of a character in a list.
place : ℕ → List ℕ → ℕ
place c [] = 0
place c (d ∷ ds) = let rest = place c ds in if nat_eq c d then 0 else suc rest

-- The four bits of a hexadecimal digit, by its place among the digits.
digit_bits : ℕ → List ℕ
unfolding place
digit_bits c =
    let n = place c (codes "0123456789abcdef") in n / 8 % 2 ∷ n / 4 % 2 ∷ n / 2 % 2 ∷ n % 2 ∷ []

-- The bits of the digits of a text.
bits_of : List ℕ → List ℕ
bits_of [] = []
bits_of (c ∷ cs) = digit_bits c ++ bits_of cs

pub hash_bits : String → List ℕ
hash_bits s = bits_of (codes s)

-- The number of places in which two lists differ.
abbrev pub differing : List ℕ → List ℕ → ℕ
differing [] ys = 0
differing (x ∷ xs) [] = 0
differing (x ∷ xs) (y ∷ ys) = (if nat_eq x y then 0 else 1) + differing xs ys

-- A test of every number below one.
abbrev all_below : ℕ → (ℕ → Bool) → Bool
all_below zero test = true
all_below (suc n) test = test n && all_below n test

or_before : (x n : ℕ) → x < suc n → (x ≡ n) ⊎ (x < n)
or_before x n h = elim (le_or_lt n x) [ inl le ↦ inl (omega arith) | inr lt ↦ inr lt ]

all_below-at : (n : ℕ) (test : ℕ → Bool) (x : ℕ) → all_below n test ≡ true → x < n → test x ≡ true
all_below-at zero test x h below = absurd (omega (arith, below))
all_below-at (suc n) test x h below = elim (or_before x n below) [
  | inl same ↦ subst (λ m. test m ≡ true) (sym same) (ground (arith, h))
  | inr before ↦ all_below-at n test x (ground (arith, h)) before
]

-- Two characters differ as their bits do, if both are digits.
agree : ℕ → ℕ → Bool
agree c d =
    not (is_hex c && is_hex d)
    || nat_eq (nibble_distance (nibble c) (nibble d)) (differing (digit_bits c) (digit_bits d))

all_agree : all_below 103 (λ c. all_below 103 (λ d. agree c d)) ≡ true
unfolding nibble_distance digit_bits agree
all_agree = refl

digits_agree : (c d : ℕ) → is_hex c ≡ true → is_hex d ≡ true → agree c d ≡ true
digits_agree c d hex_c hex_d =
    all_below-at 103 (agree c) d
      (all_below-at 103 (λ c. all_below 103 (agree c)) c all_agree (ground (arith, hex_c)))
      (ground (arith, hex_d))

nibble_distance-bits :
    (c d : ℕ)
    → is_hex c ≡ true
    → is_hex d ≡ true
    → nibble_distance (nibble c) (nibble d) ≡ differing (digit_bits c) (digit_bits d)
unfolding agree
nibble_distance-bits c d hex_c hex_d =
    nat_eq→eq _ _ (
      unless (is_hex c && is_hex d) _ (digits_agree c d hex_c hex_d) (ground (arith, hex_c, hex_d)))
  where
    unless : (p q : Bool) → (not p || q) ≡ true → p ≡ true → q ≡ true
    unless p q h e = ground (arith, h, e)

differing-append :
    (xs ys vs ws : List ℕ)
    → length xs ≡ length ys
    → differing (xs ++ vs) (ys ++ ws) ≡ differing xs ys + differing vs ws
differing-append [] [] vs ws e = omega arith
differing-append [] (y ∷ ys) vs ws e = absurd (omega (arith, e))
differing-append (x ∷ xs) [] vs ws e = absurd (omega (arith, e))
differing-append (x ∷ xs) (y ∷ ys) vs ws e =
    omega (arith, differing-append xs ys vs ws (omega (arith, e)))

length-digit_bits : (c : ℕ) → length (digit_bits c) ≡ 4
unfolding digit_bits
length-digit_bits c = omega arith

distance-bits :
    (cs ds : List ℕ)
    → all_hex cs ≡ true
    → all_hex ds ≡ true
    → length cs ≡ length ds
    → distance cs ds ≡ differing (bits_of cs) (bits_of ds)
unfolding bits_of
distance-bits [] ds hc hd e = refl
distance-bits (c ∷ cs) [] hc hd e = absurd (omega (arith, e))
distance-bits (c ∷ cs) (d ∷ ds) hc hd e =
    let (hex_c, rest_c) = split_and (is_hex c) (all_hex cs) hc in
    let (hex_d, rest_d) = split_and (is_hex d) (all_hex ds) hd in
    omega (
      arith,
      nibble_distance-bits c d hex_c hex_d,
      distance-bits cs ds rest_c rest_d (omega (arith, e)),
      differing-append (digit_bits c) (digit_bits d) (bits_of cs) (bits_of ds)
          (length-digit_bits c ∙ sym (length-digit_bits d)),
    )

length-bits_of : (cs : List ℕ) → length (bits_of cs) ≡ 4 * length cs
unfolding bits_of
length-bits_of [] = omega arith
length-bits_of (c ∷ cs) =
    omega (arith, length-append (digit_bits c) (bits_of cs), length-digit_bits c, length-bits_of cs)

hash_codes :
    (s : String) → is_hash64 s ≡ true → (length (codes s) ≡ 16) × (all_hex (codes s) ≡ true)
unfolding is_hash64
hash_codes s h =
    let (sized, hex) = split_and (nat_eq (length (codes s)) 16) (all_hex (codes s)) h in
    (nat_eq→eq _ _ sized, hex)

hamming_distance64-ok :
    (a b : String)
    → is_hash64 a ≡ true
    → is_hash64 b ≡ true
    → hamming_distance64 a b ≡ ok (distance (codes a) (codes b))
unfolding hamming_distance64
hamming_distance64-ok a b hash_a hash_b = ground (arith, hash_a, hash_b)

-- Of two hashes of 16 lower-case hexadecimal digits, hammingDistance64 gives the number of the places in which
-- their bits differ, each digit having the four bits of its value, the highest first; there are 64 of them.
pub hamming_distance64-bits :
    (a b : String)
    → is_hash64 a ≡ true
    → is_hash64 b ≡ true
    → (hamming_distance64 a b ≡ ok (differing (hash_bits a) (hash_bits b)))
      × (length (hash_bits a) ≡ 64)
      × (length (hash_bits b) ≡ 64)
unfolding hash_bits
hamming_distance64-bits a b hash_a hash_b =
    let (sized_a, hex_a) = hash_codes a hash_a in
    let (sized_b, hex_b) = hash_codes b hash_b in
    (
      hamming_distance64-ok a b hash_a hash_b
          ∙ ap ok (distance-bits (codes a) (codes b) hex_a hex_b (sized_a ∙ sym sized_b)),
      omega (arith, length-bits_of (codes a), sized_a),
      omega (arith, length-bits_of (codes b), sized_b),
    )
