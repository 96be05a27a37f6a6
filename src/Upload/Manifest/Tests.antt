-- ===== src/Upload/Manifest/Tests.antt =====
-- A manifest, and the theorem on a row.
use wtr.Common.{[], ◌∷◌, map, none, some, ok, trim, split, ◌≡◌, refl}
use wtr.Upload.Manifest.{
  Builtins, ManifestEntry, parse_manifest, parse_csv_manifest, split_csv_row, normalize_entry,
  parse_label_pairs, label_pair,
}
use wtr.Upload.Manifest.RoundTrip.{print_csv_row, split_csv_row-print}

abbrev js : Builtins
js = record { to_lower_case = λ s. s; parse_json = λ s. none; text_of = λ v. "" }

abbrev entry : ManifestEntry
entry = record {
  labels = some (("genre", "ambient") ∷ ("bpm", "72") ∷ []);
  license_preset = some "WTR-TRAIN-NONEXCLUSIVE";
  price_ip = some "18";
  modality = some "audio";
}

-- The first row of `SAMPLE_MANIFEST`.
sample_test :
    parse_manifest js "m.csv"
      "filename,labels,license_preset,price_ip,modality\r\ntape_loops_12-18.wav,\"genre=ambient;bpm=72\",WTR-TRAIN-NONEXCLUSIVE,18,audio\r\n"
    ≡ ok (("tape_loops_12-18.wav", entry) ∷ [])
unfolding parse_manifest parse_csv_manifest split_csv_row normalize_entry parse_label_pairs
    label_pair trim split
sample_test = refl

split_csv_row-print_example :
    split_csv_row (print_csv_row "a,b" ("say \"hi\"" ∷ "" ∷ []))
    ≡ map trim ("a,b" ∷ "say \"hi\"" ∷ "" ∷ [])
split_csv_row-print_example = split_csv_row-print "a,b" ("say \"hi\"" ∷ "" ∷ [])
