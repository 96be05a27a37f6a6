-- ===== src/Common/Texts.antt =====
-- Texts: template literals, decimal digits, and the string methods that the source calls.
use Prim.Native.Nat.{ℕ, zero, suc, ◌+◌, ◌-◌, ◌/◌, ◌%◌, ◌≤◌}
use Prim.Native.Char.{Char, code}
use Prim.Native.String
use Prim.Native.String.{String}
use mathlib.Core.Path.{◌≡◌, refl, sym, ◌∙◌, subst}
use mathlib.Core.Logic.{inl, inr}
use mathlib.Core.Bool.{Bool, false, ◌&&◌, ◌||◌}
use mathlib.Core.Option.{Option, none, some}
use mathlib.Core.List.{List, [], ◌∷◌}
use text.Mathlib.Text
use native.Mathlib.Omega.{arith}
use wtr.Common.Cases.{
  ltb, leb, nat_eq, if◌then◌else◌, if_yes, if_no, Bool-cases, le_or_lt, leb-le, leb-gt,
}

-- `a === b` on strings
infix 50 ◌==◌
abbrev pub ◌==◌ : String → String → Bool
a == b = Text.◌==◌ a b

-- A template literal, in parts.
abbrev pub template : List String → String
template [] = ""
template (s ∷ parts) = String.◌++◌ s (template parts)

-- `texts.includes(text)`
abbrev pub includes : List String → String → Bool
includes [] text = false
includes (t ∷ ts) text = t == text || includes ts text

abbrev pub digit : ℕ → String
digit zero = "0"
digit (suc zero) = "1"
digit (suc (suc zero)) = "2"
digit (suc (suc (suc zero))) = "3"
digit (suc (suc (suc (suc zero)))) = "4"
digit (suc (suc (suc (suc (suc zero))))) = "5"
digit (suc (suc (suc (suc (suc (suc zero)))))) = "6"
digit (suc (suc (suc (suc (suc (suc (suc zero))))))) = "7"
digit (suc (suc (suc (suc (suc (suc (suc (suc zero)))))))) = "8"
digit _ = "9"

decimal_from : ℕ → ℕ → String → String
decimal_from zero n acc = acc
decimal_from (suc fuel) n acc =
    let shown = String.◌++◌ (digit (n % 10)) acc in
    let rest = decimal_from fuel (n / 10) shown in if ltb n 10 then shown else rest

-- `value.toString()` of a bigint, and a number in a template: `n + 1` rounds of division by ten
-- are enough for `n`.
unfoldable pub decimal : ℕ → String
unfolding decimal_from
decimal n = decimal_from (suc n) n ""

-- `text.slice(n)`
abbrev pub slice_from : ℕ → String → String
slice_from zero s = s
slice_from (suc n) String.[] = ""
slice_from (suc n) (String.◌∷◌ c s) = slice_from n s

-- `text.slice(0, n)`
abbrev pub slice_to : ℕ → String → String
slice_to zero s = ""
slice_to (suc n) String.[] = ""
slice_to (suc n) (String.◌∷◌ c s) = String.◌∷◌ c (slice_to n s)

decimal_test : decimal 10307 ≡ "10307"
unfolding decimal
decimal_test = refl

template_test : template ("3a:" ∷ "asset" ∷ []) ≡ "3a:asset"
template_test = refl

-- The code points of a text.
abbrev pub codes : String → List ℕ
codes String.[] = []
codes (String.◌∷◌ c s) = code c ∷ codes s

-- What follows `start`, where a text starts with it.
unfoldable pub after_prefix : String → String → Option String
after_prefix String.[] s = some s
after_prefix (String.◌∷◌ c start) String.[] = none
after_prefix (String.◌∷◌ c start) (String.◌∷◌ d s) =
    let rest = after_prefix start s in if nat_eq (code c) (code d) then rest else none

-- The white space and line ends of `trim`.
unfoldable pub is_space : ℕ → Bool
is_space c =
    leb 9 c && leb c 13
    || nat_eq c 32
    || nat_eq c 160
    || nat_eq c 0x1680
    || leb 0x2000 c && leb c 0x200a
    || nat_eq c 0x2028
    || nat_eq c 0x2029
    || nat_eq c 0x202f
    || nat_eq c 0x205f
    || nat_eq c 0x3000
    || nat_eq c 0xfeff

unfoldable pub trim_start : String → String
unfolding is_space
trim_start String.[] = ""
trim_start (String.◌∷◌ c s) =
    let rest = trim_start s in if is_space (code c) then rest else String.◌∷◌ c s

before_end : Char → String → String
unfolding is_space
before_end c String.[] = if is_space (code c) then "" else String.◌∷◌ c String.[]
before_end c (String.◌∷◌ d s) = String.◌∷◌ c (String.◌∷◌ d s)

trim_end : String → String
unfolding before_end
trim_end String.[] = ""
trim_end (String.◌∷◌ c s) = before_end c (trim_end s)

-- `text.trim()`
unfoldable pub trim : String → String
unfolding trim_start trim_end
trim s = trim_end (trim_start s)

trim_test : trim " a b\n" ≡ "a b"
unfolding trim
trim_test = refl

-- `text.length`, in UTF-16 units
abbrev pub units : List ℕ → ℕ
units [] = 0
units (c ∷ cs) = if leb 65536 c then units cs + 2 else units cs + 1

-- `text.slice(0, n)`, in UTF-16 units; a character of two units that the cut would split is left out.
abbrev pub slice_units : ℕ → String → String
slice_units n String.[] = ""
slice_units n (String.◌∷◌ c s) =
    let width = if leb 65536 (code c) then 2 else 1 in
    let rest = slice_units (n - width) s in if leb width n then String.◌∷◌ c rest else ""

abbrev in_front : Char → List String → List String
in_front c [] = String.◌∷◌ c "" ∷ []
in_front c (s ∷ ss) = String.◌∷◌ c s ∷ ss

-- `text.split(separator)` of one character
unfoldable pub split : ℕ → String → List String
split separator String.[] = "" ∷ []
split separator (String.◌∷◌ c s) =
    let rest = split separator s in if nat_eq (code c) separator then "" ∷ rest else in_front c rest

-- The code of the last character, 0 where there is none.
abbrev pub last_code : String → ℕ
last_code String.[] = 0
last_code (String.◌∷◌ c String.[]) = code c
last_code (String.◌∷◌ c (String.◌∷◌ d s)) = last_code (String.◌∷◌ d s)

-- `texts.join(separator)`
abbrev pub join : String → List String → String
join separator [] = ""
join separator (s ∷ []) = s
join separator (s ∷ t ∷ ss) = String.◌++◌ s (String.◌++◌ separator (join separator (t ∷ ss)))

-- The units of a character.
abbrev width : ℕ → ℕ
width c = if leb 65536 c then 2 else 1

units-width : (c : ℕ) (cs : List ℕ) → units (c ∷ cs) ≡ width c + units cs
units-width c cs = elim (Bool-cases (leb 65536 c)) [
  | inl e ↦ if_yes _ _ e ∙ omega (arith, if_yes {A = ℕ} 2 1 e)
  | inr e ↦ if_no _ _ e ∙ omega (arith, if_no {A = ℕ} 2 1 e)
]

pub slice_units-bound : (n : ℕ) (s : String) → units (codes (slice_units n s)) ≤ n
slice_units-bound n String.[] = omega arith
slice_units-bound n (String.◌∷◌ c s) = elim (le_or_lt (width (code c)) n) [
  | inl h ↦
      subst (λ t. units (codes t) ≤ n) (sym (if_yes _ _ (leb-le _ _ h)))
        (omega (
          arith,
          units-width (code c) (codes (slice_units (n - width (code c)) s)),
          slice_units-bound (n - width (code c)) s,
        ))
  | inr h ↦ subst (λ t. units (codes t) ≤ n) (sym (if_no _ _ (leb-gt _ _ h))) (omega arith)
]
