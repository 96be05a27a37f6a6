-- ===== src/Trace/Tests.antt =====
-- The Trace client and the simulated transport on sample requests.
use wtr.Common.{
  inl, ◌≤◌, String, true, false, List, [], ◌∷◌, ◌++◌, none, some, ok, err, error, codes, decimal,
  ◌≡◌, refl, arith, ◌↔◌, ◌≢◌,
}
use wtr.Common.Value.{Value, Fields, str, arr, obj, item, nil, field, end}
use wtr.Crypto.{Platform}
use wtr.Trace.Pii.{
  HasKey, in_fields, here, inside, in_items, is_pii_key, matches_pii, assert_no_pii,
  assert_no_pii_iff, head,
}
use wtr.Trace.Client.{
  ClientConfig, Answer, broken, answered, Registration, Update, turn, request, register_data,
  update_metadata, http_error, returned, last_error, cap_error,
}
use wtr.Trace.Client.Attempts.{
  recording, scripted, Resent, unreachable, server_error, with_value, request-Resent,
  request-returns,
}
use wtr.Trace.Client.Guards.{Refused, register_data-Refused, update_metadata-Refused}
use wtr.Trace.Mock.{Records, conflict, register_item, mock_fetch}
use wtr.Trace.Mock.Batches.{register_item-again}

abbrev leaky : Fields
leaky = field "a" (arr (item (obj (field "contact_email" (str "x") end)) nil)) end

assert_no_pii_iff_example :
    (assert_no_pii leaky ≡ ok tt) ↔ ((k : String) → HasKey k (obj leaky) → is_pii_key k ≡ false)
assert_no_pii_iff_example = assert_no_pii_iff leaky

abbrev platform : Platform
platform = record { encode = codes; digest_hex = λ _. "0123456789abcdef0123456789abcdef" }

-- The mock behind the client.
abbrev config : ClientConfig Records
config = record {
  platform = platform;
  provider = "wtr";
  fetch = mock_fetch platform;
  sleep = λ ms w. w;
  jitter = λ backoff w. (0, w);
  max_attempts = 5;
  base_delay_ms = 250;
}

abbrev policy : Value
policy = obj (field "version" (str "1") end)

request-Resent_example :
    Resent 5
      (record {
        method = "PUT";
        path = "/policy";
        provider = "wtr";
        batch_id = "b1";
        body = some policy;
      })
      []
      (request (recording config) "PUT" "/policy" "b1" (some policy) [] ([], [])).1.1
request-Resent_example = request-Resent config "PUT" "/policy" "b1" (some policy) [] [] []

abbrev good : Answer
good = answered 202 (ok (some policy))

abbrev bad : List Answer
bad = broken (error "reset") ∷ answered 503 (ok none) ∷ []

turn_test :
    (turn [] good ≡ returned policy)
    × (turn [] (broken (error "reset")) ≡ last_error (error "reset"))
    × (turn [] (answered 503 (ok none)) ≡ last_error (http_error 503))
unfolding turn decimal
turn_test = (refl, refl, refl)

request-returns_example :
    request (scripted config) "PUT" "/policy" "b1" (some policy) [] (bad ++ good ∷ [])
    ≡ (ok policy, [])
request-returns_example =
    request-returns config "PUT" "/policy" "b1" (some policy) [] bad good [] policy
      (unreachable (error "reset"), (server_error 503 (ok none) (omega arith) refl, tt))
      (with_value 202 policy (inl (omega arith, omega arith))) (omega arith)

abbrev registration : Registration
registration = record {
  document = leaky;
  source_record_id = "a1";
  occurred_at = "2026-01-01";
  batch_id = "b1";
}

pii_test : is_pii_key "contact_email" ≡ true
unfolding is_pii_key matches_pii
pii_test = refl

abbrev leak : HasKey "contact_email" (obj leaky)
leak = in_fields (inside (in_items (head (in_fields (here refl)))))

register_data-Refused_example : Refused [] (register_data config registration [])
register_data-Refused_example =
    register_data-Refused config registration [] "contact_email" leak pii_test

abbrev update : Update
update = record {
  data_id = "d1";
  document = leaky;
  prev_metadata_root = "sha256:0";
  update_count = 100;
  occurred_at = "2026-01-01";
  batch_id = "b1";
}

update_metadata-Refused_example :
    (100 ≤ 100 → update_metadata config update [] ≡ (err (cap_error "d1"), []))
    × ((key : String)
        → HasKey key (obj leaky)
        → is_pii_key key ≡ true
        → Refused [] (update_metadata config update []))
update_metadata-Refused_example = update_metadata-Refused config update []

fresh_test : (register_item platform "wtr" "a1" "h1" []).0 ≢ conflict
unfolding register_item
fresh_test h = cc

register_item-again_example :
    register_item platform "wtr" "a1" "h2" (register_item platform "wtr" "a1" "h1" []).1
    ≡ (conflict, (register_item platform "wtr" "a1" "h1" []).1)
register_item-again_example = register_item-again platform "wtr" "a1" "h1" "h2" [] fresh_test
