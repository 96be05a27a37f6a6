-- ===== src/Trace/Pii.antt =====
-- `assertNoPii` of lib/trace/schema.ts: no key of a payload may be shaped like personal data.
use wtr.Common.{
  ℕ, ◌+◌, String, Bool, true, false, not, ◌&&◌, ◌||◌, List, [], ◌∷◌, map, Result, ok, err, error,
  template, decimal, codes, any, nat_eq, ◌==◌, if◌then◌else◌, ◌≡◌, refl, ◌↔◌, arith,
}
use wtr.Common.Value.{
  Value, Items, Fields, undefined, null, bool, num, bigint, real, str, arr, obj, nil, item, end,
  field,
}
use wtr.Trace.Schema.{lower_code}

abbrev pii_words : List String
pii_words =
    "email" ∷ "name" ∷ "phone" ∷ "address_line" ∷ "dob" ∷ "ssn" ∷ "passport" ∷ "handle" ∷ "username"
    ∷ []

-- A word, then the end or `_`.
abbrev ends_word : List ℕ → List ℕ → Bool
ends_word [] [] = true
ends_word [] (c ∷ cs) = nat_eq c 95
ends_word (w ∷ ws) [] = false
ends_word (w ∷ ws) (c ∷ cs) = nat_eq w c && ends_word ws cs

abbrev begins_word : List ℕ → Bool
begins_word cs = any (λ word. ends_word (codes word) cs) pii_words

-- A word behind one of the `_` of a text.
abbrev word_inside : List ℕ → Bool
word_inside [] = false
word_inside (c ∷ cs) = nat_eq c 95 && begins_word cs || word_inside cs

-- `PII_KEY_PATTERN.test(key)`: the pattern ignores the case of ASCII letters.
unfoldable pub matches_pii : String → Bool
matches_pii key = let cs = map lower_code (codes key) in begins_word cs || word_inside cs

-- `PII_KEY_PATTERN.test(key) && !PII_KEY_ALLOWLIST.has(key)`
unfoldable pub is_pii_key : String → Bool
is_pii_key key = matches_pii key && not (key == "platform_name")

infixl 5 ◌>>◌
abbrev ◌>>◌ : Result (Unit {0}) → Result (Unit {0}) → Result (Unit {0})
ok _ >> next = next
err failure >> next = err failure

abbrev leak : String → String → Result (Unit {0})
leak path key = err (error (template ("Trace payload would leak PII at " ∷ path ∷ "." ∷ key ∷ [])))

unfoldable mutual
  pub walk : Value → String → Result (Unit {0})
  walk (arr vs) path = walk_items vs path 0
  walk (obj fs) path = walk_fields fs path
  walk undefined path = ok tt
  walk null path = ok tt
  walk (bool b) path = ok tt
  walk (num n) path = ok tt
  walk (bigint n) path = ok tt
  walk (real r) path = ok tt
  walk (str s) path = ok tt

  pub walk_items : Items → String → ℕ → Result (Unit {0})
  walk_items nil path index = ok tt
  walk_items (item v vs) path index =
      walk v (template (path ∷ "[" ∷ decimal index ∷ "]" ∷ [])) >> walk_items vs path (index + 1)

  pub walk_fields : Fields → String → Result (Unit {0})
  walk_fields end path = ok tt
  walk_fields (field key v fs) path =
      let rest = walk v (template (path ∷ "." ∷ key ∷ [])) >> walk_fields fs path in
      if is_pii_key key then leak path key else rest

unfoldable pub assert_no_pii : Fields → Result (Unit {0})
unfolding walk
assert_no_pii document = walk (obj document) "$"

-- A key stands in a value, at any depth.
mutual
  pub data HasKey : String → Value → Type 0 where
    in_items : {k : String} {vs : Items} → ItemsHaveKey k vs → HasKey k (arr vs)
    in_fields : {k : String} {fs : Fields} → FieldsHaveKey k fs → HasKey k (obj fs)

  pub data ItemsHaveKey : String → Items → Type 0 where
    head : {k : String} {v : Value} {vs : Items} → HasKey k v → ItemsHaveKey k (item v vs)
    tail : {k : String} {v : Value} {vs : Items} → ItemsHaveKey k vs → ItemsHaveKey k (item v vs)

  pub data FieldsHaveKey : String → Fields → Type 0 where
    here : {k j : String} {v : Value} {fs : Fields} → j ≡ k → FieldsHaveKey k (field j v fs)
    inside : {k j : String} {v : Value} {fs : Fields} → HasKey k v → FieldsHaveKey k (field j v fs)
    later :
        {k j : String} {v : Value} {fs : Fields}
        → FieldsHaveKey k fs
        → FieldsHaveKey k (field j v fs)

>>-eq-ok : (m n : Result (Unit {0})) → (m >> n) ≡ ok tt → (m ≡ ok tt) × (n ≡ ok tt)
>>-eq-ok (ok tt) n h = (refl, h)
>>-eq-ok (err e) n h = cc

walk_fields-field :
    (key : String) (v : Value) (fs : Fields) (path : String)
    → walk_fields (field key v fs) path ≡ ok tt
    → (is_pii_key key ≡ false)
      × ((walk v (template (path ∷ "." ∷ key ∷ [])) >> walk_fields fs path) ≡ ok tt)
unfolding walk_fields
walk_fields-field key v fs path h = ground arith

mutual
  unfolding walk walk_items walk_fields

  walk_sound :
      {k : String} {v : Value}
      → HasKey k v
      → (path : String) → walk v path ≡ ok tt
      → is_pii_key k ≡ false
  walk_sound (in_items h) path e = walk_items_sound h path 0 e
  walk_sound (in_fields h) path e = walk_fields_sound h path e

  walk_items_sound :
      {k : String} {vs : Items}
      → ItemsHaveKey k vs
      → (path : String) (index : ℕ) → walk_items vs path index ≡ ok tt
      → is_pii_key k ≡ false
  walk_items_sound (head h) path index e = walk_sound h _ (>>-eq-ok _ _ e).0
  walk_items_sound (tail h) path index e = walk_items_sound h path (index + 1) (>>-eq-ok _ _ e).1

  walk_fields_sound :
      {k : String} {fs : Fields}
      → FieldsHaveKey k fs
      → (path : String) → walk_fields fs path ≡ ok tt
      → is_pii_key k ≡ false
  walk_fields_sound (here {j} {v} {fs} same) path e =
      rw (← same) (walk_fields-field j v fs path e).0
  walk_fields_sound (inside {j} {v} {fs} h) path e =
      walk_sound h _ (>>-eq-ok _ _ (walk_fields-field j v fs path e).1).0
  walk_fields_sound (later {j} {v} {fs} h) path e =
      walk_fields_sound h path (>>-eq-ok _ _ (walk_fields-field j v fs path e).1).1

>>_ok : (m n : Result (Unit {0})) → m ≡ ok tt → n ≡ ok tt → (m >> n) ≡ ok tt
>>_ok (ok tt) n p q = q
>>_ok (err e) n p q = cc

mutual
  unfolding walk walk_items walk_fields

  walk_complete :
      (v : Value) (path : String)
      → ((k : String) → HasKey k v → is_pii_key k ≡ false)
      → walk v path ≡ ok tt
  walk_complete (arr vs) path h = walk_items_complete vs path 0 (λ k p. h k (in_items p))
  walk_complete (obj fs) path h = walk_fields_complete fs path (λ k p. h k (in_fields p))
  walk_complete undefined path h = refl
  walk_complete null path h = refl
  walk_complete (bool b) path h = refl
  walk_complete (num n) path h = refl
  walk_complete (bigint n) path h = refl
  walk_complete (real r) path h = refl
  walk_complete (str s) path h = refl

  walk_items_complete :
      (vs : Items) (path : String) (index : ℕ)
      → ((k : String) → ItemsHaveKey k vs → is_pii_key k ≡ false)
      → walk_items vs path index ≡ ok tt
  walk_items_complete nil path index h = refl
  walk_items_complete (item v vs) path index h =
      >>_ok _ _ (walk_complete v _ (λ k p. h k (head p)))
        (walk_items_complete vs path (index + 1) (λ k p. h k (tail p)))

  walk_fields_complete :
      (fs : Fields) (path : String)
      → ((k : String) → FieldsHaveKey k fs → is_pii_key k ≡ false)
      → walk_fields fs path ≡ ok tt
  walk_fields_complete end path h = refl
  walk_fields_complete (field key v fs) path h = rw (h key (here refl)) (
      >>_ok _ _ (walk_complete v _ (λ k p. h k (inside p)))
        (walk_fields_complete fs path (λ k p. h k (later p))))

-- `assertNoPii` lets a document pass exactly when no key in it, at any depth and inside arrays
-- too, is shaped like personal data.
pub assert_no_pii_iff :
    (document : Fields)
    → (assert_no_pii document ≡ ok tt)
      ↔ ((k : String) → HasKey k (obj document) → is_pii_key k ≡ false)
unfolding assert_no_pii
assert_no_pii_iff document = (λ e k p. walk_sound p "$" e, walk_complete (obj document) "$")
