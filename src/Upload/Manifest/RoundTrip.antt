-- ===== src/Upload/Manifest/RoundTrip.antt =====
-- lib/upload/manifest.ts: a row of quoted cells is split into these cells.
use Prim.Native.Char.{Char, code}
use wtr.Common.{
  ◌≡◌, refl, sym, ap, ◌∙◌, String, Bool, true, false, not, ◌&&◌, List, [], ◌∷◌, ◌++◌, map, push,
  append_assoc, append-nil, trim, nat_eq, Bool-cases, inl, inr, if◌then◌else◌, if_yes, if_no,
}
use wtr.Upload.Manifest.{chars, of_chars, quote_next, split_cells, split_csv_row}

abbrev quote : Char
quote = "\""

abbrev comma : Char
comma = ","

-- A cell in quotes, the quotes in it doubled.
abbrev doubled : List Char → List Char
doubled [] = []
doubled (c ∷ cs) = if nat_eq (code c) 34 then c ∷ c ∷ doubled cs else c ∷ doubled cs

abbrev quoted_cell : String → List Char → List Char
quoted_cell cell rest = quote ∷ (doubled (chars cell) ++ (quote ∷ rest))

-- The row of some cells, one at least.
abbrev printed : String → List String → List Char
printed cell [] = quoted_cell cell []
printed cell (next ∷ cells) = quoted_cell cell (comma ∷ printed next cells)

abbrev pub print_csv_row : String → List String → String
print_csv_row cell cells = of_chars (printed cell cells)

chars-of_chars : (cs : List Char) → chars (of_chars cs) ≡ cs
chars-of_chars [] = refl
chars-of_chars (c ∷ cs) = ap (λ rest. c ∷ rest) (chars-of_chars cs)

of_chars-chars : (s : String) → of_chars (chars s) ≡ s
of_chars-chars String.[] = refl
of_chars-chars (String.◌∷◌ c s) = ap (λ rest. String.◌∷◌ c rest) (of_chars-chars s)

-- A round of the loop, by what it tests: a quote, a quote next, a comma.
abbrev round : Char → List Char → List Char → Bool → Bool → Bool → Bool → List (List Char)
round c rest current quoted is_quote next is_comma = elim is_quote [
  | true ↦ elim (quoted && next) [
    | true ↦ split_cells rest (push current c) quoted true
    | false ↦ split_cells rest current (not quoted) false
  ]
  | false ↦ elim (is_comma && not quoted) [
    | true ↦ current ∷ split_cells rest [] quoted false
    | false ↦ split_cells rest (push current c) quoted false
  ]
]

split_cells-round :
    (c : Char) (rest current : List Char) (quoted : Bool)
    → split_cells (c ∷ rest) current quoted false
      ≡ round c rest current quoted (nat_eq (code c) 34) (quote_next rest) (nat_eq (code c) 44)
unfolding split_cells
split_cells-round c rest current quoted = refl

closing_quote :
    (rest current : List Char)
    → quote_next rest ≡ false
    → split_cells (quote ∷ rest) current true false ≡ split_cells rest current false false
closing_quote rest current e =
    split_cells-round quote rest current true
    ∙ ap (λ next. round quote rest current true true next false) e

doubled_quote :
    (c : Char) (rest current : List Char)
    → nat_eq (code c) 34 ≡ true
    → split_cells (c ∷ c ∷ rest) current true false ≡ split_cells rest (push current c) true false
unfolding split_cells
doubled_quote c rest current e =
    split_cells-round c (c ∷ rest) current true
    ∙ ap (λ q. round c (c ∷ rest) current true q q (nat_eq (code c) 44)) e

other_char :
    (c : Char) (rest current : List Char)
    → nat_eq (code c) 34 ≡ false
    → split_cells (c ∷ rest) current true false ≡ split_cells rest (push current c) true false
other_char c rest current e =
    split_cells-round c rest current true
    ∙ ap (λ q. round c rest current true q (quote_next rest) (nat_eq (code c) 44)) e
    ∙ kept (nat_eq (code c) 44)
  where
    kept :
        (is_comma : Bool)
        → round c rest current true false (quote_next rest) is_comma
          ≡ split_cells rest (push current c) true false
    kept true = refl
    kept false = refl

-- Inside quotes the loop reads a doubled text up to the closing quote.
inside :
    (cs current rest : List Char)
    → quote_next rest ≡ false
    → split_cells (doubled cs ++ (quote ∷ rest)) current true false
      ≡ split_cells rest (current ++ cs) false false
inside [] current rest e =
    closing_quote rest current e
    ∙ ap (λ c. split_cells rest c false false) (sym (append-nil current))
inside (c ∷ cs) current rest e =
    read
    ∙ inside cs (push current c) rest e
    ∙ ap (λ xs. split_cells rest xs false false) (append_assoc current (c ∷ []) cs)
  where
    after : List Char
    after = doubled cs ++ (quote ∷ rest)

    read :
        split_cells (doubled (c ∷ cs) ++ (quote ∷ rest)) current true false
        ≡ split_cells after (push current c) true false
    read = elim (Bool-cases (nat_eq (code c) 34)) [
      | inl is_quote ↦
          ap (λ xs. split_cells (xs ++ (quote ∷ rest)) current true false)
            (if_yes (c ∷ c ∷ doubled cs) (c ∷ doubled cs) is_quote)
          ∙ doubled_quote c after current is_quote
      | inr plain ↦
          ap (λ xs. split_cells (xs ++ (quote ∷ rest)) current true false)
            (if_no (c ∷ c ∷ doubled cs) (c ∷ doubled cs) plain)
          ∙ other_char c after current plain
    ]

opening_quote :
    (cell : String) (rest : List Char)
    → quote_next rest ≡ false
    → split_cells (quoted_cell cell rest) [] false false ≡ split_cells rest (chars cell) false false
unfolding split_cells
opening_quote cell rest e = inside (chars cell) [] rest e

printed-split :
    (cell : String) (cells : List String)
    → split_cells (printed cell cells) [] false false ≡ map chars (cell ∷ cells)
unfolding split_cells
printed-split cell [] = opening_quote cell [] refl
printed-split cell (next ∷ cells) =
    opening_quote cell (comma ∷ printed next cells) refl
    ∙ ap (λ rest. chars cell ∷ rest) (printed-split next cells)

map-chars :
    (cells : List String) → map (λ cell. trim (of_chars cell)) (map chars cells) ≡ map trim cells
map-chars [] = refl
map-chars (cell ∷ cells) =
    ap (λ c. trim c ∷ map (λ cell. trim (of_chars cell)) (map chars cells)) (of_chars-chars cell)
    ∙ ap (λ rest. trim cell ∷ rest) (map-chars cells)

-- A row that prints its cells in quotes, with the quotes in them doubled and commas between them, is split
-- into the same cells, each trimmed: commas, quotes and line ends inside a cell split nothing.
pub split_csv_row-print :
    (cell : String) (cells : List String)
    → split_csv_row (print_csv_row cell cells) ≡ map trim (cell ∷ cells)
unfolding split_csv_row
split_csv_row-print cell cells =
    ap (λ line. map (λ cell. trim (of_chars cell)) (split_cells line [] false false))
      (chars-of_chars (printed cell cells))
    ∙ ap (map (λ cell. trim (of_chars cell))) (printed-split cell cells)
    ∙ map-chars (cell ∷ cells)
