-- ===== src/Common/Lists.antt =====
-- Arrays as lists, under the names of the array methods that the source calls.
use Prim.Native.Nat.{ℕ, suc, ◌+◌}
use mathlib.Core.Path.{◌≡◌, refl, sym}
use mathlib.Core.Bool.{Bool, true, false, ◌&&◌, ◌||◌}
use mathlib.Core.Option.{Option, none, some}
use mathlib.Core.List.{List, [], ◌∷◌, ◌++◌, append_assoc, append-nil}
use native.Mathlib.Omega.{arith}
use wtr.Common.Cases.{if◌then◌else◌}

module _ {ℓ} {A : Type ℓ} where
  abbrev pub length : List A → ℕ
  length [] = 0
  length (x ∷ xs) = suc (length xs)

  abbrev pub push : List A → A → List A
  push xs x = xs ++ x ∷ []

  -- `xs.some(test)`
  abbrev pub any : (A → Bool) → List A → Bool
  any test [] = false
  any test (x ∷ xs) = test x || any test xs

  -- `xs.every(test)`
  abbrev pub all : (A → Bool) → List A → Bool
  all test [] = true
  all test (x ∷ xs) = test x && all test xs

  -- `xs.find(test)`
  abbrev pub find : (A → Bool) → List A → Option A
  find test [] = none
  find test (x ∷ xs) = if test x then some x else find test xs

  -- `[...xs].reverse().find(test)`
  abbrev pub find_last : (A → Bool) → List A → Option A
  find_last test [] = none
  find_last test (x ∷ xs) = elim (find_last test xs) [
    | some y ↦ some y
    | none ↦ if test x then some x else none
  ]

  -- `xs.filter(test)`
  abbrev pub keep : (A → Bool) → List A → List A
  keep test [] = []
  keep test (x ∷ xs) = let rest = keep test xs in if test x then x ∷ rest else rest

  pub length-append : (xs ys : List A) → length (xs ++ ys) ≡ length xs + length ys
  length-append [] ys = omega arith
  length-append (x ∷ xs) ys = omega (arith, length-append xs ys)

  pub any-append :
      (test : A → Bool) (xs ys : List A) → any test (xs ++ ys) ≡ (any test xs || any test ys)
  any-append test [] ys = refl
  any-append test (x ∷ xs) ys = ground (arith, any-append test xs ys)

  pub keep-append :
      (test : A → Bool) (xs ys : List A) → keep test (xs ++ ys) ≡ keep test xs ++ keep test ys
  keep-append test [] ys = refl
  keep-append test (x ∷ xs) ys = ground (arith, keep-append test xs ys)

  -- An element stands in a list.
  pub data IsIn (x : A) : List A → Type ℓ where
    at_head : {y : A} {ys : List A} → x ≡ y → IsIn x (y ∷ ys)
    further : {y : A} {ys : List A} → IsIn x ys → IsIn x (y ∷ ys)

  pub IsIn-append : {x : A} {xs : List A} (ys : List A) → IsIn x xs → IsIn x (xs ++ ys)
  IsIn-append ys (at_head e) = at_head e
  IsIn-append ys (further m) = further (IsIn-append ys m)

  -- What follows the elements that a list began with.
  pub data IsPrefix (xs : List A) : List A → Type ℓ where
    followed_by : {zs : List A} (ys : List A) → zs ≡ xs ++ ys → IsPrefix xs zs

  pub IsPrefix-refl : (xs : List A) → IsPrefix xs xs
  IsPrefix-refl xs = followed_by [] (sym (append-nil xs))

  pub IsPrefix-push : (xs : List A) (x : A) → IsPrefix xs (push xs x)
  IsPrefix-push xs x = followed_by (x ∷ []) refl

  pub IsPrefix-trans : {xs ys zs : List A} → IsPrefix xs ys → IsPrefix ys zs → IsPrefix xs zs
  IsPrefix-trans {xs} (followed_by a e) (followed_by b f) =
      followed_by (a ++ b) (rw (f, e) (append_assoc xs a b))

  pub any-IsPrefix :
      (test : A → Bool) {xs ys : List A} → IsPrefix xs ys → any test xs ≡ true → any test ys ≡ true
  any-IsPrefix test {xs} (followed_by a e) h = rw (e, any-append, h) refl

module _ {ℓ κ} {A : Type ℓ} (P : A → Type κ) where
  abbrev pub All : List A → Type κ
  All [] = Unit
  All (x ∷ xs) = P x × All xs

  pub All-append : (xs ys : List A) → All xs → All ys → All (xs ++ ys)
  All-append [] ys _ k = k
  All-append (x ∷ xs) ys (p, h) k = (p, All-append xs ys h k)
