-- ===== src/Common/Value.antt =====
-- JavaScript values as `unknown` and `Record<string, unknown>` hold them, and `JSON.stringify`.
use Prim.Native.Char.{code}
use wtr.Common.{
  ℕ, ◌%◌, ◌/◌, String, Bool, true, false, not, ◌||◌, List, [], ◌∷◌, Option, none, some, decimal,
  digit, template, ltb, nat_eq, ◌==◌, if◌then◌else◌, ◌≡◌, refl,
}

-- Numbers are the natural ones; `real` is any other number, by its text.
mutual
  pub data Value : Type 0 where
    undefined null : Value
    bool : Bool → Value
    num bigint : ℕ → Value
    real : String → Value
    str : String → Value
    arr : Items → Value
    obj : Fields → Value

  pub data Items : Type 0 where
    nil : Items
    item : Value → Items → Items

  pub data Fields : Type 0 where
    end : Fields
    field : String → Value → Fields → Fields

-- `{ ...first, ...second }` where no key stands in both
abbrev pub spread : Fields → Fields → Fields
spread end more = more
spread (field k v fs) more = field k v (spread fs more)

-- `value.key`, `undefined` where the key is missing
abbrev pub get : String → Fields → Value
get k end = undefined
get k (field j v fs) = if j == k then v else get k fs

-- `first ?? second`
abbrev pub first_of : Value → Value → Value
first_of undefined second = second
first_of null second = second
first_of first second = first

-- The elements of an array.
abbrev pub elements : Items → List Value
elements nil = []
elements (item v items) = v ∷ elements items

-- The own entries of an object, in order.
abbrev pub entries : Fields → List (String × Value)
entries end = []
entries (field k v fs) = (k, v) ∷ entries fs

-- A value that is an object: neither `null` nor an array.
abbrev pub as_object : Value → Option Fields
as_object (obj fs) = some fs
as_object _ = none

-- `value === text`
abbrev pub is_text : Value → String → Bool
is_text (str s) t = s == t
is_text _ t = false

-- `value === undefined`
abbrev pub is_undefined : Value → Bool
is_undefined undefined = true
is_undefined _ = false

-- `typeof value === "string"`
abbrev pub is_string : Value → Bool
is_string (str s) = true
is_string _ = false

-- `value` as a condition; the numbers of JSON are never `NaN`.
abbrev pub truthy : Value → Bool
truthy undefined = false
truthy null = false
truthy (bool b) = b
truthy (num n) = not (nat_eq n 0)
truthy (bigint n) = not (nat_eq n 0)
truthy (real t) = not (t == "-0")
truthy (str s) = not (s == "")
truthy (arr items) = true
truthy (obj fs) = true

-- `"key" in record`
abbrev pub has_key : String → Fields → Bool
has_key k end = false
has_key k (field j v fs) = j == k || has_key k fs

-- `...(text ? { key: text } : {})`: neither a missing text nor the empty one is written.
abbrev pub when_text : String → Option String → Fields
when_text k none = end
when_text k (some s) = if s == "" then end else field k (str s) end

-- `value ?? null` of a text
abbrev pub or_null : Option String → Value
or_null none = null
or_null (some s) = str s

abbrev pub num_or_null : Option ℕ → Value
num_or_null none = null
num_or_null (some n) = num n

abbrev pub texts : List String → Items
texts [] = nil
texts (s ∷ ss) = item (str s) (texts ss)

abbrev pub hex_digit : ℕ → String
hex_digit n =
    if ltb n 10
    then digit n
    else if nat_eq n 10
    then "a"
    else if nat_eq n 11
    then "b"
    else if nat_eq n 12
    then "c"
    else if nat_eq n 13
    then "d"
    else if nat_eq n 14
    then "e"
    else "f"

-- What `JSON.stringify` writes for a character of a text with the code `c`.
escaped : ℕ → String → String
escaped c plain =
    if nat_eq c 34
    then "\\\""
    else if nat_eq c 92
    then "\\\\"
    else if nat_eq c 8
    then "\\b"
    else if nat_eq c 9
    then "\\t"
    else if nat_eq c 10
    then "\\n"
    else if nat_eq c 12
    then "\\f"
    else if nat_eq c 13
    then "\\r"
    else if ltb c 32
    then template ("\\u00" ∷ hex_digit (c / 16) ∷ hex_digit (c % 16) ∷ [])
    else plain

quote_from : String → String
unfolding escaped
quote_from String.[] = "\""
quote_from (String.◌∷◌ c s) =
    template (escaped (code c) (String.◌∷◌ c String.[]) ∷ quote_from s ∷ [])

-- `JSON.stringify(text)`
unfoldable pub quote : String → String
unfolding quote_from
quote s = template ("\"" ∷ quote_from s ∷ [])

-- `parts.join(",")`
unfoldable pub join_commas : List String → String
join_commas [] = ""
join_commas (s ∷ []) = s
join_commas (s ∷ t ∷ rest) = template (s ∷ "," ∷ join_commas (t ∷ rest) ∷ [])

abbrev pub bool_text : Bool → String
bool_text true = "true"
bool_text false = "false"

abbrev pair_text : String → String → String
pair_text k text = template (quote k ∷ ":" ∷ text ∷ [])

-- `JSON.stringify(value)`: keys in their order, and no entry that is `undefined`. It throws on a
-- bigint, which is here printed as its digits.
unfoldable mutual
  unfolding quote join_commas

  pub json_stringify : Value → String
  json_stringify undefined = "undefined"
  json_stringify null = "null"
  json_stringify (bool b) = bool_text b
  json_stringify (num n) = decimal n
  json_stringify (bigint n) = decimal n
  json_stringify (real text) = text
  json_stringify (str s) = quote s
  json_stringify (arr vs) = template ("[" ∷ join_commas (json_items vs) ∷ "]" ∷ [])
  json_stringify (obj fs) = template ("{" ∷ join_commas (json_fields fs) ∷ "}" ∷ [])

  pub json_items : Items → List String
  json_items nil = []
  json_items (item undefined vs) = "null" ∷ json_items vs
  json_items (item v vs) = json_stringify v ∷ json_items vs

  pub json_fields : Fields → List String
  json_fields end = []
  json_fields (field k undefined fs) = json_fields fs
  json_fields (field k v fs) = pair_text k (json_stringify v) ∷ json_fields fs

quote_test : quote "a\"b" ≡ "\"a\\\"b\""
unfolding quote
quote_test = refl
