-- ===== src/Upload/Manifest.antt =====
-- lib/upload/manifest.ts: the metadata that comes with a batch of files. A record is a list of its entries,
-- in order; an assignment under the name `__proto__` adds no entry.
pub mod RoundTrip
mod Tests
use Prim.Native.Char.{Char, code}
use Prim.Native.String
use wtr.Common.{
  ℕ, suc, zero, ◌+◌, String, Bool, true, false, not, ◌&&◌, ◌||◌, List, [], ◌∷◌, ◌++◌, map, length,
  any, keep, Option, none, some, otherwise, Result, ok, err, error, Failure, ◌>>=◌, ◌==◌, includes,
  template, trim, split, codes, after_prefix, is_none, leb, ltb, nat_eq, push, if◌then◌else◌,
}
use wtr.Common.Value.{
  Value, Fields, undefined, null, bool, num, bigint, real, str, arr, obj, get, entries, as_object,
  is_undefined, is_text,
}

-- JavaScript's `toLowerCase`, `JSON.parse`, which gives nothing where it throws, and `String` of a value
-- that is no text.
pub record Builtins : Type 0 where
  pub to_lower_case : String → String
  pub parse_json : String → Option Value
  pub text_of : Value → String

abbrev pub Labels : Type 0
Labels = List (String × String)

pub record ManifestEntry : Type 0 where
  pub labels : Option Labels
  pub license_preset : Option String
  pub price_ip : Option String
  pub modality : Option String

abbrev pub Manifest : Type 0
Manifest = List (String × ManifestEntry)

-- `ManifestError`
abbrev pub manifest_error : String → Failure
manifest_error message = error message

-- `record[key] = value`
abbrev set_entry {ℓ} : {A : Type ℓ} → String → A → List (String × A) → List (String × A)
set_entry k v [] = (k, v) ∷ []
set_entry k v ((j, w) ∷ rest) =
    let later = set_entry k v rest in if j == k then (j, v) ∷ rest else (j, w) ∷ later

abbrev pub assign {ℓ} : {A : Type ℓ} → String → A → List (String × A) → List (String × A)
assign k v fields = if k == "__proto__" then fields else set_entry k v fields

abbrev pub string_of : Builtins → Value → String
string_of js (str s) = s
string_of js v = js.text_of v

abbrev pub chars : String → List Char
chars String.[] = []
chars (String.◌∷◌ c s) = c ∷ chars s

abbrev pub of_chars : List Char → String
of_chars [] = ""
of_chars (c ∷ cs) = String.◌∷◌ c (of_chars cs)

-- The text before the first `=` and the text after it.
abbrev at_equals : List Char → Option (List Char × List Char)
at_equals [] = none
at_equals (c ∷ cs) =
    let later : Option (List Char × List Char) = elim (at_equals cs) [
      | none ↦ none
      | some (before, after) ↦ some (c ∷ before, after)
    ] in
    if nat_eq (code c) 61 then some ([], cs) else later

abbrev pair_error : String → Failure
pair_error trimmed =
    manifest_error (template ("labels must be key=value pairs, got \"" ∷ trimmed ∷ "\"" ∷ []))

-- One pair of a label list, already trimmed.
unfoldable pub label_pair : String → Labels → Result Labels
label_pair trimmed labels = elim (at_equals (chars trimmed)) [
  | none ↦ err (pair_error trimmed)
  | some ([], after) ↦ err (pair_error trimmed)
  | some (c ∷ before, after) ↦
      ok (assign (trim (of_chars (c ∷ before))) (trim (of_chars after)) labels)
]

label_pairs : List String → Labels → Result Labels
label_pairs [] labels = ok labels
label_pairs (pair ∷ pairs) labels =
    let trimmed = trim pair in
    elim (trimmed == "") [
      | true ↦ label_pairs pairs labels
      | false ↦ label_pair trimmed labels >>= λ more. label_pairs pairs more
    ]

-- `parseLabelPairs`
unfoldable pub parse_label_pairs : String → Result Labels
unfolding label_pairs
parse_label_pairs raw = label_pairs (split 59 raw) []

-- `Object.fromEntries` of texts
abbrev from_entries : List (String × String) → Labels → Labels
from_entries [] labels = labels
from_entries ((k, v) ∷ rest) labels = from_entries rest (set_entry k v labels)

abbrev labels_of : Builtins → String → Value → Result (Option Labels)
labels_of js key undefined = ok none
labels_of js key (str s) = parse_label_pairs s >>= λ labels. ok (some labels)
labels_of js key (obj fs) =
    ok (some (from_entries (map (λ (name, v). (name, string_of js v)) (entries fs)) []))
labels_of js key _ = err (
    manifest_error
      (template ("the labels for \"" ∷ key ∷ "\" must be an object or key=value list" ∷ [])))

abbrev field_of : Builtins → Value → Option String
field_of js undefined = none
field_of js null = none
field_of js v = if is_text v "" then none else some (string_of js v)

-- `normalizeEntry`
unfoldable pub normalize_entry : Builtins → String → Fields → Result ManifestEntry
normalize_entry js key raw = do
  labels ← labels_of js key (get "labels" raw)
  ok (record {
    labels = labels;
    license_preset = field_of js (get "license_preset" raw);
    price_ip = field_of js (get "price_ip" raw);
    modality = field_of js (get "modality" raw);
  })

json_entries : Builtins → List (String × Value) → Manifest → Result Manifest
json_entries js [] manifest = ok manifest
json_entries js ((key, value) ∷ rest) manifest = elim (as_object value) [
  | none ↦ err (manifest_error (template ("the entry for \"" ∷ key ∷ "\" must be an object" ∷ [])))
  | some fs ↦
      normalize_entry js key fs >>= λ entry. json_entries js rest (assign key entry manifest)
]

-- `parseJsonManifest`
unfoldable pub parse_json_manifest : Builtins → String → Result Manifest
unfolding json_entries
parse_json_manifest js contents = elim (js.parse_json contents) [
  | none ↦ err (manifest_error "the manifest is not valid JSON")
  | some parsed ↦ elim (as_object parsed) [
    | none ↦ err (manifest_error "a JSON manifest must be an object keyed on filename")
    | some fs ↦ json_entries js (entries fs) []
  ]
]

-- The next character is a quote.
abbrev pub quote_next : List Char → Bool
quote_next [] = false
quote_next (c ∷ cs) = nat_eq (code c) 34

-- The loop of `splitCsvRow`; a quote that a quote follows inside quotes is one character of the cell, and the
-- round after it is skipped.
unfoldable pub split_cells : List Char → List Char → Bool → Bool → List (List Char)
split_cells [] current quoted skip = current ∷ []
split_cells (c ∷ rest) current quoted true = split_cells rest current quoted false
split_cells (c ∷ rest) current quoted false = elim (nat_eq (code c) 34) [
  | true ↦ elim (quoted && quote_next rest) [
    | true ↦ split_cells rest (push current c) quoted true
    | false ↦ split_cells rest current (not quoted) false
  ]
  | false ↦ elim (nat_eq (code c) 44 && not quoted) [
    | true ↦ current ∷ split_cells rest [] quoted false
    | false ↦ split_cells rest (push current c) quoted false
  ]
]

-- `splitCsvRow`
unfoldable pub split_csv_row : String → List String
unfolding split_cells
split_csv_row line = map (λ cell. trim (of_chars cell)) (split_cells (chars line) [] false false)

-- `header.forEach`: the cells under their columns, the empty text where a cell is missing.
abbrev row_record : List String → List String → List (String × String) → List (String × String)
row_record [] cells fields = fields
row_record (column ∷ columns) [] fields = row_record columns [] (assign column "" fields)
row_record (column ∷ columns) (cell ∷ cells) fields =
    row_record columns cells (assign column cell fields)

abbrev to_fields : List (String × String) → Fields
to_fields [] = Fields.end
to_fields ((k, v) ∷ rest) = Fields.field k (str v) (to_fields rest)

abbrev text_or_empty : Value → String
text_or_empty (str s) = s
text_or_empty _ = ""

csv_rows : Builtins → List String → List String → Manifest → Result Manifest
csv_rows js header [] manifest = ok manifest
csv_rows js header (line ∷ lines) manifest =
    let row = to_fields (row_record header (split_csv_row line) []) in
    let name = trim (text_or_empty (get "filename" row)) in
    elim (name == "") [
      | true ↦ csv_rows js header lines manifest
      | false ↦ normalize_entry js name row >>= λ entry.
          csv_rows js header lines (assign name entry manifest)
    ]

-- `parseCsvManifest`; the trim of a line takes the `\r` before its end.
unfoldable pub parse_csv_manifest : Builtins → String → Result Manifest
unfolding csv_rows
parse_csv_manifest js contents =
    elim (keep (λ line. not (line == "")) (map trim (split 10 contents))) [
      | [] ↦ err (manifest_error "the CSV manifest needs a header and one row")
      | first ∷ [] ↦ err (manifest_error "the CSV manifest needs a header and one row")
      | first ∷ second ∷ lines ↦
          let header = map (λ column. js.to_lower_case (trim column)) (split_csv_row first) in
          if includes header "filename"
          then csv_rows js header (second ∷ lines) []
          else err (manifest_error "the CSV manifest needs a `filename` column")
    ]

abbrev ends_with_json : List Char → Bool
ends_with_json [] = false
ends_with_json (c ∷ cs) = of_chars (c ∷ cs) == ".json" || ends_with_json cs

-- `parseManifest`
unfoldable pub parse_manifest : Builtins → String → String → Result Manifest
parse_manifest js filename contents =
    if ends_with_json (chars (js.to_lower_case filename))
    then parse_json_manifest js contents
    else parse_csv_manifest js contents
