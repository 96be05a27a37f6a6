-- ===== src/Trace/Schema.antt =====
-- lib/trace/schema.ts (without `assertNoPii`) and lib/trace/attestation.ts: hash references, media categories, metadata
-- roots, and attestation.
use Prim.Native.Char.{Char, code}
use wtr.Common.{
  ℕ, ◌+◌, String, Bool, true, false, ◌&&◌, ◌||◌, List, [], ◌∷◌, map, Option, none, some, Result, ok,
  err, error, template, after_prefix, codes, length, all, leb, nat_eq, otherwise, ◌==◌,
  if◌then◌else◌, ◌≡◌, refl,
}
use wtr.Common.Value.{Fields, obj, str, end, field, spread, when_text}
use wtr.Crypto.{Platform, sha256_canonical, strip_hex_prefix}

-- A metadata document, by its fields.
abbrev pub TraceDocument : Type 0
TraceDocument = Fields

abbrev pub is_digit : ℕ → Bool
is_digit c = leb 48 c && leb c 57

-- `[0-9a-f]`
abbrev pub is_lower_hex : ℕ → Bool
is_lower_hex c = is_digit c || leb 97 c && leb c 102

-- `toLowerCase` of the letters A to F; no other character outside `[0-9a-f]` becomes one of these.
abbrev pub lower_hex : Char → String
lower_hex c =
    let n = code c in
    if nat_eq n 65
    then "a"
    else if nat_eq n 66
    then "b"
    else if nat_eq n 67
    then "c"
    else if nat_eq n 68
    then "d"
    else if nat_eq n 69
    then "e"
    else if nat_eq n 70
    then "f"
    else String.◌∷◌ c String.[]

-- `text.toLowerCase()`, as far as the test for hexadecimal digits can see.
unfoldable pub lower_hex_text : String → String
lower_hex_text String.[] = ""
lower_hex_text (String.◌∷◌ c s) = template (lower_hex c ∷ lower_hex_text s ∷ [])

-- `/^[0-9a-f]{n}$/`
unfoldable pub is_hex_of : ℕ → String → Bool
is_hex_of n s = nat_eq (length (codes s)) n && all is_lower_hex (codes s)

abbrev pub bare_hash : String → String
bare_hash hash = elim (after_prefix "0x" hash) [
  | some rest ↦ rest
  | none ↦ otherwise (after_prefix "sha256:" hash) hash
]

unfoldable pub to_sha256_ref : String → Result String
unfolding is_hex_of lower_hex_text
to_sha256_ref hash =
    let bare = lower_hex_text (bare_hash hash) in
    if is_hex_of 64 bare
    then ok (template ("sha256:" ∷ bare ∷ []))
    else err (error "not a 64-hex SHA-256 value")

-- `toLowerCase` of a character's code, for the letters A to Z.
abbrev pub lower_code : ℕ → ℕ
lower_code c = if leb 65 c && leb c 90 then c + 32 else c

-- The codes of `text.split("/")[0]`.
abbrev pub before_slash : List ℕ → List ℕ
before_slash [] = []
before_slash (c ∷ cs) = if nat_eq c 47 then [] else c ∷ before_slash cs

abbrev pub same_codes : List ℕ → List ℕ → Bool
same_codes [] [] = true
same_codes (a ∷ as') (b ∷ bs) = nat_eq a b && same_codes as' bs
same_codes _ _ = false

unfoldable pub media_category : String → String
media_category mime =
    let start = map lower_code (before_slash (codes mime)) in
    if same_codes start (codes "audio")
    then "audio"
    else if same_codes start (codes "video")
    then "video"
    else if same_codes start (codes "image")
    then "image"
    else "document"

-- `AttestationSigner`
pub record Signer : Type 0 where
  pub key_id : String
  pub key_url : Option String
  pub sign : Option (String → String)

module _ (platform : Platform) where
  unfoldable pub metadata_root : TraceDocument → String
  metadata_root document =
      template ("sha256:" ∷ strip_hex_prefix (sha256_canonical platform (obj document)) ∷ [])

  -- `delete payload.attestation`
  abbrev without_attestation : Fields → Fields
  without_attestation end = end
  without_attestation (field k v fs) =
      let rest = without_attestation fs in if k == "attestation" then rest else field k v rest

  unfoldable pub attestation_payload_hash : TraceDocument → String
  attestation_payload_hash document = template (
      "sha256:"
      ∷ strip_hex_prefix (sha256_canonical platform (obj (without_attestation document)))
      ∷ [])

  abbrev apply_signer : Option (String → String) → String → Option String
  apply_signer none hash = none
  apply_signer (some sign) hash = if sign hash == "" then none else some (sign hash)

  unfoldable pub attest_document : TraceDocument → Signer → String → Fields
  unfolding attestation_payload_hash
  attest_document document signer signed_at =
      let hash = attestation_payload_hash document in
      field "payload_hash" (str hash) (
        spread (when_text "signature" (apply_signer signer.sign hash)) (
          field "key_id" (str signer.key_id) (
            spread (when_text "key_url" signer.key_url)
              (field "signed_at_utc" (str signed_at) end))))

media_category_test : media_category "Video/mp4" ≡ "video"
unfolding media_category
media_category_test = refl
