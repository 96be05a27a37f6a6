-- ===== src/Crypto.antt =====
-- lib/crypto/canonical.ts: canonical JSON and SHA-256 references.
-- The digest, UTF-8 encoding and hexadecimal printing of bytes are the platform's
-- (`crypto.subtle`, `TextEncoder`, `Buffer`), a parameter. Texts are compared by UTF-16 code
-- units, as JavaScript does.
use wtr.Common.{
  ℕ, ◌+◌, ◌-◌, ◌/◌, ◌%◌, String, List, [], ◌∷◌, Bool, true, false, codes, ltb, slice_from, template,
  decimal, if◌then◌else◌, ◌≡◌, refl,
}
use wtr.Common.Value.{
  Value, Items, Fields, undefined, null, bool, num, bigint, real, str, arr, obj, nil, item, end,
  field, quote, join_commas, bool_text,
}

pub record Platform : Type 0 where
  -- `new TextEncoder().encode(text)`
  pub encode : String → List ℕ
  -- `Buffer.from(await crypto.subtle.digest("SHA-256", bytes)).toString("hex")`
  pub digest_hex : List ℕ → String

-- The UTF-16 code units of code points.
abbrev code_units : List ℕ → List ℕ
code_units [] = []
code_units (c ∷ cs) =
    if ltb c 0x10000
    then c ∷ code_units cs
    else (0xd800 + (c - 0x10000) / 0x400) ∷ (0xdc00 + (c - 0x10000) % 0x400) ∷ code_units cs

abbrev units_before : List ℕ → List ℕ → Bool
units_before [] [] = false
units_before [] (d ∷ ds) = true
units_before (c ∷ cs) [] = false
units_before (c ∷ cs) (d ∷ ds) =
    let rest = units_before cs ds in if ltb c d then true else if ltb d c then false else rest

-- `a < b` on texts
abbrev pub before : String → String → Bool
before a b = units_before (code_units (codes a)) (code_units (codes b))

-- One insertion of the stable sort by key.
insert_entry : String → String → List (String × String) → List (String × String)
insert_entry k text [] = (k, text) ∷ []
insert_entry k text ((j, other) ∷ rest) =
    if before j k then (j, other) ∷ insert_entry k text rest else (k, text) ∷ (j, other) ∷ rest

sort_entries : List (String × String) → List (String × String)
unfolding insert_entry
sort_entries [] = []
sort_entries ((k, text) ∷ rest) = insert_entry k text (sort_entries rest)

print_entries : List (String × String) → List String
print_entries [] = []
print_entries ((k, text) ∷ rest) = template (quote k ∷ ":" ∷ text ∷ []) ∷ print_entries rest

unfoldable mutual
  unfolding sort_entries print_entries quote join_commas

  pub canonical_stringify : Value → String
  canonical_stringify undefined = "undefined"
  canonical_stringify null = "null"
  canonical_stringify (bool b) = bool_text b
  canonical_stringify (num n) = decimal n
  canonical_stringify (bigint n) = quote (decimal n)
  canonical_stringify (real text) = text
  canonical_stringify (str s) = quote s
  canonical_stringify (arr vs) = template ("[" ∷ join_commas (canonical_items vs) ∷ "]" ∷ [])
  canonical_stringify (obj fs) =
      template ("{" ∷ join_commas (print_entries (sort_entries (canonical_fields fs))) ∷ "}" ∷ [])

  pub canonical_items : Items → List String
  canonical_items nil = []
  canonical_items (item v vs) = canonical_stringify v ∷ canonical_items vs

  -- The entries that are not `undefined`, each with its text.
  pub canonical_fields : Fields → List (String × String)
  canonical_fields end = []
  canonical_fields (field k undefined fs) = canonical_fields fs
  canonical_fields (field k v fs) = (k, canonical_stringify v) ∷ canonical_fields fs

-- `hash.slice(2)`
abbrev pub strip_hex_prefix : String → String
strip_hex_prefix hash = slice_from 2 hash

module _ (platform : Platform) where
  unfoldable pub sha256_bytes : List ℕ → String
  sha256_bytes bytes = template ("0x" ∷ platform.digest_hex bytes ∷ [])

  unfoldable pub sha256_canonical : Value → String
  unfolding sha256_bytes canonical_stringify
  sha256_canonical value = sha256_bytes (platform.encode (canonical_stringify value))

canonical_test :
    canonical_stringify (obj (field "b" (num 1) (field "u" undefined (field "a" null end))))
    ≡ "{\"a\":null,\"b\":1}"
unfolding canonical_stringify decimal
canonical_test = refl
