-- ===== src/Pipeline/Log/Numbering.antt =====
-- Sequence numbers and idempotency keys of the event log.
use wtr.Common.{
  ℕ, zero, suc, ◌+◌, ◌≤◌, String, Bool, true, false, List, [], ◌∷◌, Option, none, some, length,
  length-append, push, keep, find, is_none, map, Bool-cases, inl, inr, ◌==◌, eq_iff, ◌≡◌, ◌≢◌, refl,
  sym, ◌∙◌, arith,
}
use mathlib.Core.List.{map-append}
use mathlib.Core.Bool.{and-eq-true_iff}
use wtr.Pipeline.Types.{AssetEvent}
use wtr.Pipeline.Rows.{AppendEventInput}
use wtr.Pipeline.Store.{append_to_log, new_event, replayed, is_replay, is_of, has_key}
use wtr.Pipeline.Exec.Hoare.{Log}
use wtr.Pipeline.Log.{append_to_log_cases, keep-push}

abbrev pub one_to : ℕ → List ℕ
one_to zero = []
one_to (suc n) = push (one_to n) (suc n)

abbrev seq_of : AssetEvent → ℕ
seq_of e = e.seq

-- The events of every asset are numbered 1, 2, 3 and so on, in the order of the log.
abbrev pub IsNumbered : Log → Type 0
IsNumbered log =
    (a : String) → map seq_of (keep (is_of a) log) ≡ one_to (length (keep (is_of a) log))

length-push : (log : Log) (e : AssetEvent) → length (push log e) ≡ suc (length log)
length-push log e = omega (arith, length-append log (e ∷ []))

number_next :
    (log : Log) (e : AssetEvent)
    → e.seq ≡ length log + 1
    → map seq_of log ≡ one_to (length log)
    → map seq_of (push log e) ≡ one_to (length (push log e))
number_next log e next h =
    let numbered : e.seq ≡ suc (length log) = omega arith in
    rw (length-push, map-append, h, numbered) refl

push-IsNumbered :
    (input : AppendEventInput) (log : Log)
    → IsNumbered log
    → IsNumbered (push log (new_event input log))
push-IsNumbered input log h a = elim (Bool-cases (input.asset_id == a)) [
  | inl mine ↦
      let e : input.asset_id ≡ a = (eq_iff input.asset_id a).0 mine in
      rw (keep-push, mine)
        (number_next (keep (is_of a) log) (new_event input log) (rw e refl) (h a))
  | inr other ↦ rw (keep-push, other) (h a)
]

pub append_to_log-IsNumbered :
    (input : AppendEventInput) (log : Log) → IsNumbered log → IsNumbered (append_to_log input log)
append_to_log-IsNumbered input log h =
    append_to_log_cases IsNumbered input log h (λ _. push-IsNumbered input log h)

-- No two events of an asset have the same idempotency key.
abbrev pub HasUniqueKeys : Log → Type 0
HasUniqueKeys log = (a key : String) → key ≢ "" → length (keep (is_replay a key) log) ≤ 1

keep-find : (test : AssetEvent → Bool) (log : Log) → find test log ≡ none → keep test log ≡ []
keep-find test [] h = refl
keep-find test (x ∷ log) h = elim (Bool-cases (test x)) [
  | inl hit ↦ absurd (ground arith)
  | inr miss ↦ rw miss (keep-find test log (rw miss at h))
]

-- An input that an event with the key would replay has the key and the asset.
pub has_key-eq : (o : Option String) (key : String) → has_key o key ≡ true → o ≡ some key
has_key-eq none key h = cc
has_key-eq (some k) key h = cc ((eq_iff k key).0 h)

none_of_is_none : (o : Option AssetEvent) → is_none o ≡ true → o ≡ none
none_of_is_none none h = refl
none_of_is_none (some e) h = cc

not_empty : (key : String) → key ≢ "" → (key == "") ≡ false
not_empty key ne = elim (Bool-cases (key == "")) [
  | inl e ↦ absurd (ne ((eq_iff key "").0 e))
  | inr h ↦ h
]

fresh_key :
    (input : AppendEventInput) (log : Log) (a key : String)
    → key ≢ ""
    → is_none (replayed input log) ≡ true
    → is_replay a key (new_event input log) ≡ true
    → find (is_replay a key) log ≡ none
fresh_key input log a key ne fresh hit =
    let (mine, keyed) = (and-eq-true_iff _ _).0 hit in
    let same_asset : input.asset_id ≡ a = (eq_iff input.asset_id a).0 mine in
    let same_key = has_key-eq input.idempotency_key key keyed in
    let searched : replayed input log ≡ find (is_replay a key) log =
      rw (same_key, not_empty key ne, same_asset) refl in
    sym searched ∙ none_of_is_none (replayed input log) fresh

push-HasUniqueKeys :
    (input : AppendEventInput) (log : Log)
    → HasUniqueKeys log
    → is_none (replayed input log) ≡ true
    → HasUniqueKeys (push log (new_event input log))
push-HasUniqueKeys input log h fresh a key ne =
    elim (Bool-cases (is_replay a key (new_event input log))) [
      | inl hit ↦
          rw (keep-push, hit, keep-find _ log (fresh_key input log a key ne fresh hit))
            (omega arith)
      | inr miss ↦ rw (keep-push, miss) (h a key ne)
    ]

pub append_to_log-HasUniqueKeys :
    (input : AppendEventInput) (log : Log)
    → HasUniqueKeys log
    → HasUniqueKeys (append_to_log input log)
append_to_log-HasUniqueKeys input log h =
    append_to_log_cases HasUniqueKeys input log h (push-HasUniqueKeys input log h)
