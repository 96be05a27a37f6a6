-- ===== src/Common/Slices.antt =====
-- Parts of arrays: `subarray`, `slice` and `TypedArray.set`.
use Prim.Native.Nat.{ℕ, zero, suc, ◌+◌, ◌-◌, ◌≤◌}
use Prim.Native.Nat.{min}
use mathlib.Core.Path.{◌≡◌, refl, ap}
use mathlib.Core.List.{List, [], ◌∷◌, ◌++◌}
use native.Mathlib.Omega.{arith}
use wtr.Common.Lists.{length}

module _ {ℓ} {A : Type ℓ} where
  -- `xs.slice(0, n)`
  abbrev pub take : ℕ → List A → List A
  take zero xs = []
  take (suc n) [] = []
  take (suc n) (x ∷ xs) = x ∷ take n xs

  -- `xs.slice(n)`
  abbrev pub drop : ℕ → List A → List A
  drop zero xs = xs
  drop (suc n) [] = []
  drop (suc n) (x ∷ xs) = drop n xs

  abbrev pub replicate : ℕ → A → List A
  replicate zero a = []
  replicate (suc n) a = a ∷ replicate n a

  -- `array.set(ys, offset)`: the array keeps its length.
  abbrev pub write_at : ℕ → List A → List A → List A
  write_at zero [] xs = xs
  write_at zero (y ∷ ys) [] = []
  write_at zero (y ∷ ys) (x ∷ xs) = y ∷ write_at zero ys xs
  write_at (suc n) ys [] = []
  write_at (suc n) ys (x ∷ xs) = x ∷ write_at n ys xs

  pub take-append-drop : (n : ℕ) (xs : List A) → take n xs ++ drop n xs ≡ xs
  take-append-drop zero xs = refl
  take-append-drop (suc n) [] = refl
  take-append-drop (suc n) (x ∷ xs) = ap (λ ys. x ∷ ys) (take-append-drop n xs)

  pub length-take : (n : ℕ) (xs : List A) → length (take n xs) ≡ min n (length xs)
  length-take zero xs = omega arith
  length-take (suc n) [] = omega arith
  length-take (suc n) (x ∷ xs) = omega (arith, length-take n xs)

  pub length-drop : (n : ℕ) (xs : List A) → length (drop n xs) ≡ length xs - n
  length-drop zero xs = omega arith
  length-drop (suc n) [] = omega arith
  length-drop (suc n) (x ∷ xs) = omega (arith, length-drop n xs)

  pub length-replicate : (n : ℕ) (a : A) → length (replicate n a) ≡ n
  length-replicate zero a = refl
  length-replicate (suc n) a = omega (arith, length-replicate n a)

  pub take_all : (n : ℕ) (xs : List A) → length xs ≤ n → take n xs ≡ xs
  take_all zero [] h = refl
  take_all zero (x ∷ xs) h = absurd (omega arith)
  take_all (suc n) [] h = refl
  take_all (suc n) (x ∷ xs) h = ap (λ ys. x ∷ ys) (take_all n xs (omega arith))

  pub length-write_at : (n : ℕ) (ys xs : List A) → length (write_at n ys xs) ≡ length xs
  length-write_at zero [] xs = refl
  length-write_at zero (y ∷ ys) [] = refl
  length-write_at zero (y ∷ ys) (x ∷ xs) = omega (arith, length-write_at zero ys xs)
  length-write_at (suc n) ys [] = refl
  length-write_at (suc n) ys (x ∷ xs) = omega (arith, length-write_at n ys xs)

  -- What stands before the end of a write: the old part, then what was written.
  pub take-write_at :
      (n k : ℕ) (ys xs : List A)
      → k ≡ n + length ys
      → k ≤ length xs
      → take k (write_at n ys xs) ≡ take n xs ++ ys
  take-write_at zero zero [] xs e h = refl
  take-write_at zero (suc k) [] xs e h = absurd (omega arith)
  take-write_at zero zero (y ∷ ys) xs e h = absurd (omega arith)
  take-write_at zero (suc k) (y ∷ ys) [] e h = absurd (omega arith)
  take-write_at zero (suc k) (y ∷ ys) (x ∷ xs) e h =
      ap (λ zs. y ∷ zs) (take-write_at zero k ys xs (omega arith) (omega arith))
  take-write_at (suc n) zero ys xs e h = absurd (omega arith)
  take-write_at (suc n) (suc k) ys [] e h = absurd (omega arith)
  take-write_at (suc n) (suc k) ys (x ∷ xs) e h =
      ap (λ zs. x ∷ zs) (take-write_at n k ys xs (omega arith) (omega arith))

  pub write_at-replicate :
      (p : List A) (n r : ℕ) (a : A)
      → n ≡ length p + r
      → write_at 0 p (replicate n a) ≡ p ++ replicate r a
  write_at-replicate [] n r a e = ap (λ k. replicate k a) (omega arith)
  write_at-replicate (y ∷ p) zero r a e = absurd (omega arith)
  write_at-replicate (y ∷ p) (suc n) r a e =
      ap (λ zs. y ∷ zs) (write_at-replicate p n r a (omega arith))

  pub write_at-append :
      (n : ℕ) (p : List A) (y z : A) (rest : List A)
      → n ≡ length p
      → write_at n (y ∷ []) (p ++ (z ∷ rest)) ≡ p ++ (y ∷ rest)
  write_at-append zero [] y z [] e = refl
  write_at-append zero [] y z (x ∷ rest) e = refl
  write_at-append zero (x ∷ p) y z rest e = absurd (omega arith)
  write_at-append (suc n) [] y z rest e = absurd (omega arith)
  write_at-append (suc n) (x ∷ p) y z rest e =
      ap (λ zs. x ∷ zs) (write_at-append n p y z rest (omega arith))

  pub take-append : (k r : ℕ) (p xs : List A) → k ≡ length p + r → take k (p ++ xs) ≡ p ++ take r xs
  take-append k r [] xs e = ap (λ n. take n xs) (omega arith)
  take-append zero r (x ∷ p) xs e = absurd (omega arith)
  take-append (suc k) r (x ∷ p) xs e = ap (λ zs. x ∷ zs) (take-append k r p xs (omega arith))

  pub take-replicate : (k n : ℕ) (a : A) → k ≤ n → take k (replicate n a) ≡ replicate k a
  take-replicate zero n a h = refl
  take-replicate (suc k) zero a h = absurd (omega arith)
  take-replicate (suc k) (suc n) a h = ap (λ zs. a ∷ zs) (take-replicate k n a (omega arith))
