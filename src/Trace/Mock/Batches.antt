-- ===== src/Trace/Mock/Batches.antt =====
-- lib/trace/mock.ts: what the batches answer to a resend.
use wtr.Common.{
  String, true, false, [], ◌∷◌, Option, none, some, Bool-cases, Option-cases, inl, inr, ◌==◌,
  eq_iff, eq_refl, ◌≡◌, ◌≢◌, refl, sym, ap, ◌∙◌, if◌then◌else◌,
}
use wtr.Crypto.{Platform}
use wtr.Trace.Mock.{
  Records, StoredRecord, duplicate, conflict, lookup, put, drop_key, adopt, register_item,
  record_key, synthetic_key, deterministic_data_id,
}

lookup-put :
    (key : String) (r : StoredRecord) (records : Records) → lookup key (put key r records) ≡ some r
lookup-put key r [] = rw (eq_refl key) refl
lookup-put key r ((k, old) ∷ rest) = elim (Bool-cases (k == key)) [
  | inl same ↦ rw (same, same) refl
  | inr other ↦ rw (other, other) (lookup-put key r rest)
]

differs : (k key gone : String) → (k == gone) ≡ true → (key == gone) ≡ false → (k == key) ≡ false
differs k key gone same ne = elim (Bool-cases (k == key)) [
  | inl hit ↦
      let met : (key == gone) ≡ true =
        (eq_iff key gone).1 (sym ((eq_iff k key).0 hit) ∙ (eq_iff k gone).0 same) in
      absurd (cc)
  | inr miss ↦ miss
]

lookup-drop_key :
    (key gone : String) (records : Records)
    → (key == gone) ≡ false
    → lookup key (drop_key gone records) ≡ lookup key records
lookup-drop_key key gone [] ne = refl
lookup-drop_key key gone ((k, r) ∷ rest) ne = elim (Bool-cases (k == gone)) [
  | inl same ↦
      let other : (k == key) ≡ false = differs k key gone same ne in
      rw (same, other) (lookup-drop_key key gone rest ne)
  | inr kept ↦ elim (Bool-cases (k == key)) [
    | inl hit ↦ rw (kept, hit) refl
    | inr miss ↦ rw (kept, miss) (lookup-drop_key key gone rest ne)
  ]
]

-- A key that is there is not one that is missing.
apart :
    (key other : String) (records : Records) (r : StoredRecord)
    → lookup key records ≡ none
    → lookup other records ≡ some r
    → (key == other) ≡ false
apart key other records r missing there = elim (Bool-cases (key == other)) [
  | inl same ↦
      let known : lookup key records ≡ some r =
        ap (λ k. lookup k records) ((eq_iff key other).0 same) ∙ there in
      absurd cc
  | inr differ ↦ differ
]

-- A record is found, with a payload hash.
record Stored (hash : String) (found : Option StoredRecord) : Type 0 where
  row : StoredRecord
  there : found ≡ some row
  same : row.payload_hash ≡ hash

module _ (platform : Platform) (provider : String) where
  adopt-lookup :
      (key data_id hash : String) (records : Records)
      → lookup key records ≡ none
      → Stored hash (lookup key (adopt platform provider key data_id hash records))
  adopt-lookup key data_id hash records missing =
      elim (Option-cases (lookup (synthetic_key platform provider data_id) records)) [
        | inl nothing ↦
            rw (nothing, adopt)
              (record {
                row = record { data_id = data_id; payload_hash = hash; updates = [] };
                there = lookup-put key _ records;
                same = refl;
              })
        | inr (early, found) ↦
            rw (found, adopt)
              (record {
                row = record early { payload_hash = hash };
                there =
                    lookup-drop_key key (synthetic_key platform provider data_id) _ (
                      apart key (synthetic_key platform provider data_id) records early missing
                        found)
                    ∙ lookup-put key _ records;
                same = refl;
              })
      ]

  -- What a registration leaves behind is found by the next one, unless it was refused.
  register_item-Stored :
      (source hash : String) (records : Records)
      → (register_item platform provider source hash records).0 ≢ conflict
      → Stored hash (
          lookup
            (record_key platform provider source)
            (register_item platform provider source hash records).1)
  unfolding register_item
  register_item-Stored source hash records fine =
      elim (Option-cases (lookup (record_key platform provider source) records)) [
        | inl nothing ↦
            rw (nothing, register_item)
              (adopt-lookup (record_key platform provider source)
                (deterministic_data_id platform provider source) hash records nothing)
        | inr (existing, found) ↦ elim (Bool-cases (existing.payload_hash == hash)) [
          | inl equal ↦
              rw (found, register_item)
                (record {
                  row = existing;
                  there = found;
                  same = (eq_iff existing.payload_hash hash).0 equal;
                })
          | inr differ ↦ absurd (fine (rw (found, register_item, differ) refl))
        ]
      ]

found_again :
    (platform : Platform) (provider source hash hash' : String) (records : Records)
    → Stored hash (lookup (record_key platform provider source) records)
    → register_item platform provider source hash' records
      ≡ (if hash == hash' then duplicate else conflict, records)
unfolding register_item
found_again platform provider source hash hash' records kept =
    rw (kept.there, register_item, kept.same) refl

-- The simulated `/records:batch` keeps the provider's contract: after a registration that was no
-- conflict, registering the same `source_record_id` again is a duplicate if the metadata's hash is the
-- same and a conflict if it is another one, and leaves the records as they are.
pub register_item-again :
    (platform : Platform) (provider source hash hash' : String) (records : Records)
    → (register_item platform provider source hash records).0 ≢ conflict
    → register_item platform provider source hash'
        (register_item platform provider source hash records).1
      ≡ (
        if hash == hash' then duplicate else conflict,
        (register_item platform provider source hash records).1,
      )
register_item-again platform provider source hash hash' records fine =
    found_again platform provider source hash hash' _
      (register_item-Stored platform provider source hash records fine)
