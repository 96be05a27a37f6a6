-- ===== src/Trace/Mock.antt =====
-- lib/trace/mock.ts: the in-process stand-in for the Trace write API.
pub mod Batches
use wtr.Common.{
  ℕ, ◌+◌, String, Bool, true, false, ◌&&◌, ◌||◌, List, [], ◌∷◌, Option, none, some, is_none, ltb,
  nat_eq, ok, push, find, find_last, keep, not, template, slice_from, slice_to, otherwise, ◌==◌,
  if◌then◌else◌,
}
use wtr.Common.Value.{
  Value, Items, Fields, undefined, bool, num, str, arr, obj, item, nil, field, end, get,
}
use wtr.Crypto.{Platform, sha256_canonical, strip_hex_prefix}
use wtr.Trace.Client.{HttpRequest, Answer, answered}

-- `StoredRecord`: `updates` is its map from `seq`.
pub record StoredRecord : Type 0 where
  pub data_id : String
  pub payload_hash : String
  pub updates : List (ℕ × String)

-- `records`, in the order of insertion.
abbrev pub Records : Type 0
Records = List (String × StoredRecord)

abbrev pub lookup : String → Records → Option StoredRecord
lookup key [] = none
lookup key ((k, r) ∷ rest) = if k == key then some r else lookup key rest

-- `Map.set`
abbrev pub put : String → StoredRecord → Records → Records
put key r [] = (key, r) ∷ []
put key r ((k, old) ∷ rest) = if k == key then (k, r) ∷ rest else (k, old) ∷ put key r rest

-- `Map.delete`
abbrev pub drop_key : String → Records → Records
drop_key key records = keep (λ entry. not (entry.0 == key)) records

abbrev pub update_hash : ℕ → List (ℕ × String) → Option String
update_hash seq [] = none
update_hash seq ((n, hash) ∷ rest) = if nat_eq n seq then some hash else update_hash seq rest

abbrev pub text_or_empty : Value → String
text_or_empty (str s) = s
text_or_empty _ = ""

abbrev pub num_or_zero : Value → ℕ
num_or_zero (num n) = n
num_or_zero _ = 0

abbrev dashed : String → String
dashed hex = template (
    slice_to 8 hex
    ∷ "-"
    ∷ slice_to 4 (slice_from 8 hex)
    ∷ "-4"
    ∷ slice_to 3 (slice_from 13 hex)
    ∷ "-"
    ∷ "8"
    ∷ slice_to 3 (slice_from 17 hex)
    ∷ "-"
    ∷ slice_to 12 (slice_from 20 hex)
    ∷ [])

-- The status of an item, with the rest of what a batch answers for it.
pub data ItemStatus : Type 0 where
  accepted duplicate conflict : ItemStatus

abbrev pub status_text : ItemStatus → String
status_text accepted = "accepted"
status_text duplicate = "duplicate"
status_text conflict = "conflict"

abbrev pub compare_hash : String → String → ItemStatus
compare_hash old new = if old == new then duplicate else conflict

module _ (platform : Platform) (provider : String) where
  -- `deterministicDataId`
  unfoldable pub deterministic_data_id : String → String
  deterministic_data_id source_record_id = dashed (
      strip_hex_prefix (
        sha256_canonical platform (
          obj (
            field "provider" (str provider)
              (field "source_record_id" (str source_record_id) end)))))

  abbrev pub record_key : String → String
  record_key source_record_id = template (provider ∷ ":" ∷ source_record_id ∷ [])

  abbrev pub synthetic_key : String → String
  synthetic_key data_id = template ("data_id:" ∷ data_id ∷ [])

  -- `payloadHash` of an item
  unfoldable pub payload_hash : Fields → String
  payload_hash it = strip_hex_prefix (
      sha256_canonical platform (
        obj (
          field "root" (get "initial_metadata_root" it)
            (field "json" (get "initial_metadata_json" it) end))))

  -- A record that an earlier update made is adopted with its updates.
  abbrev pub adopt : String → String → String → Records → Records
  adopt key data_id hash records = elim (lookup (synthetic_key data_id) records) [
    | some early ↦
        drop_key (synthetic_key data_id) (put key (record early { payload_hash = hash }) records)
    | none ↦ put key (record { data_id = data_id; payload_hash = hash; updates = [] }) records
  ]

  -- One item of `records:batch`, by its `source_record_id` and its hash.
  unfoldable pub register_item : String → String → Records → ItemStatus × Records
  register_item source_record_id hash records =
      elim (lookup (record_key source_record_id) records) [
        | some existing ↦ (compare_hash existing.payload_hash hash, records)
        | none ↦ (
          accepted,
          adopt (record_key source_record_id) (deterministic_data_id source_record_id) hash records,
        )
      ]

  unfoldable pub event_hash : Fields → String
  event_hash it = strip_hex_prefix (
      sha256_canonical platform (
        obj (
          field "prev" (get "prev_metadata_root" it)
            (field "root" (get "metadata_root" it) (field "json" (get "metadata_json" it) end)))))

  -- `byDataId.get(dataId)` and the key of the record in `records`: the last one wins. `byDataId` is
  -- made once for a batch; the items of the batch keep it in step with `records`.
  abbrev pub by_data_id : String → Records → Option (String × StoredRecord)
  by_data_id data_id records = find_last (λ entry. entry.1.data_id == data_id) records

  abbrev pub in_synthetic : String → Records → String × StoredRecord
  in_synthetic data_id records = elim (lookup (synthetic_key data_id) records) [
    | some r ↦ (synthetic_key data_id, r)
    | none ↦ (synthetic_key data_id, record { data_id = data_id; payload_hash = ""; updates = [] })
  ]

  abbrev pub update_target : String → Records → String × StoredRecord
  update_target data_id records = elim (by_data_id data_id records) [
    | some entry ↦ entry
    | none ↦ in_synthetic data_id records
  ]

  -- One item of `metadata-updates:batch`, its `seq` in bounds.
  unfoldable pub update_item : String → ℕ → String → Records → ItemStatus × Records
  update_item data_id seq hash records =
      let (key, r) = update_target data_id records in
      elim (update_hash seq r.updates) [
        | none ↦ (accepted, put key (record r { updates = push r.updates (seq, hash) }) records)
        | some existing ↦ (compare_hash existing hash, records)
      ]

  abbrev conflicts_of : ItemStatus → ℕ
  conflicts_of conflict = 1
  conflicts_of _ = 0

  abbrev fields_of : Value → Fields
  fields_of (obj fs) = fs
  fields_of _ = end

  abbrev items_of : Option Value → Items
  items_of (some (arr vs)) = vs
  items_of _ = nil

  -- The loop of `records:batch`: the items' answers, the conflicts, and the records.
  unfoldable pub register_items : Items → Records → (Items × ℕ) × Records
  register_items nil records = ((nil, 0), records)
  register_items (item v vs) records =
      let it = fields_of v in
      let source = text_or_empty (get "source_record_id" it) in
      let (status, records') = register_item source (payload_hash it) records in
      let ((answers, conflicts), records'') = register_items vs records' in
      (
        (
          item
              (obj (
                field "source_record_id" (str source) (
                  field "data_id" (str (deterministic_data_id source))
                    (field "status" (str (status_text status)) end))))
              answers,
          conflicts_of status + conflicts,
        ),
        records'',
      )

  -- The loop of `metadata-updates:batch`; none where a `seq` is out of bounds.
  unfoldable pub update_items : Items → Records → Option (Items × ℕ) × Records
  update_items nil records = (some (nil, 0), records)
  update_items (item v vs) records =
      let it = fields_of v in
      let data_id = text_or_empty (get "data_id" it) in
      let seq = num_or_zero (get "seq" it) in
      let (status, records') = update_item data_id seq (event_hash it) records in
      let rest = update_items vs records' in
      if ltb seq 1 || ltb 100 seq then (none, records) else elim rest.0 [
        | none ↦ (none, rest.1)
        | some (answers, conflicts) ↦ (
          some (
            item
                (obj (
                  field "data_id" (str data_id)
                    (field "seq" (num seq) (field "status" (str (status_text status)) end))))
                answers,
            conflicts_of status + conflicts,
          ),
          rest.1,
        )
      ]

  abbrev count : Items → ℕ
  count nil = 0
  count (item v vs) = count vs + 1

  abbrev batch_response : Items → Items → ℕ → Answer
  batch_response items answers conflicts = answered (if ltb 0 conflicts then 409 else 202) (
      ok (
        some (
          obj (
            field "mock" (bool true) (
              field "provider" (str provider) (
                field "records" (num (count items))
                  (field "conflicts" (num conflicts) (field "items" (arr answers) end))))))))

  abbrev refusal : ℕ → String → Answer
  refusal status message =
      answered status (ok (some (obj (field "mock" (bool true) (field "error" (str message) end)))))

  abbrev update_response : Items → Option (Items × ℕ) → Answer
  update_response items none = refusal 400 "seq must be 1-100"
  update_response items (some (answers, conflicts)) = batch_response items answers conflicts

-- The transport that `createMockTraceFetch` returns.
unfoldable pub mock_fetch : Platform → HttpRequest → Records → Answer × Records
mock_fetch platform request records =
    let is = λ (method path : String). request.method == method && request.path == path in
    let items = items_of platform request.provider request.body in
    if is "PUT" "/webhook/v1/data-audit/provider-policy"
    then (
      answered 200 (ok (some (obj (field "mock" (bool true) (field "status" (str "stored") end))))),
      records,
    )
    else if is "POST" "/webhook/v1/data-audit/records:batch"
    then (let ((answers, conflicts), records') =
          register_items platform request.provider items records in
        (batch_response platform request.provider items answers conflicts, records'))
    else if is "POST" "/webhook/v1/data-audit/metadata-updates:batch"
    then (let (answer, records') = update_items platform request.provider items records in
        (update_response platform request.provider items answer, records'))
    else (
      refusal platform request.provider 404
          (template ("no mock for " ∷ request.method ∷ " " ∷ request.path ∷ [])),
      records,
    )
