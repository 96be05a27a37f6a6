-- ===== src/Pipeline/Log/Kinds.antt =====
-- What the idempotency keys of the stage handlers say about the type of their event.
use Prim.Native.Char.{code}
use Prim.Native.String
use text.Mathlib.TextLemmas.{cons-append, nil-append}
use wtr.Common.{
  String, Bool, true, false, List, [], ◌∷◌, Option, none, some, push, find, is_none, after_prefix,
  nat_eq, ◌==◌, eq_iff, if◌then◌else◌, All, All-append, Bool-cases, Option-cases, inl, inr,
  keep-append, any-append, eq_refl, sym, ap, ◌≡◌, refl, arith,
}
use wtr.Pipeline.Types.{EventType, same_type, AssetEvent, event_name}
use wtr.Pipeline.Rows.{AppendEventInput}
use wtr.Pipeline.Store.{append_to_log, new_event, replayed, is_replay, has_key}
use wtr.Pipeline.Exec.Hoare.{Log}
use wtr.Pipeline.Log.{append_to_log_cases, has}

abbrev pub Table : Type 0
Table = List (String × EventType)

-- The beginnings of the keys that the stage handlers write.
abbrev pub stage_keys : Table
stage_keys =
    ("ingest:", EventType.ingested)
    ∷ ("label:", EventType.labeled)
    ∷ ("3a:", EventType.media_encrypted_uploaded)
    ∷ ("3b:", EventType.trace_registered)
    ∷ ("3c:", EventType.ip_registered)
    ∷ ("3d:", EventType.cdr_vault_allocated)
    ∷ ("list:", EventType.listed)
    ∷ ("sale:", EventType.sold)
    ∷ ("payout:", EventType.payout_credited)
    ∷ ("settle:", EventType.settled)
    ∷ ("register-failed:", EventType.register_failed)
    ∷ ("duplicate-claim:", EventType.duplicate_claim_flagged)
    ∷ []

first_kind : Table → String → Option EventType
unfolding after_prefix
first_kind [] key = none
first_kind ((start, kind) ∷ table) key = elim (after_prefix start key) [
  | some _ ↦ some kind
  | none ↦ first_kind table key
]

-- The event type that a key announces.
pub kind_of : String → Option EventType
unfolding first_kind
kind_of key = first_kind stage_keys key

-- Two texts differ at a place that both have.
unfoldable pub clashes : String → String → Bool
clashes String.[] q = false
clashes (String.◌∷◌ c p) String.[] = false
clashes (String.◌∷◌ c p) (String.◌∷◌ d q) = if nat_eq (code c) (code d) then clashes p q else true

pub clashes-after_prefix :
    (p q rest : String) → clashes p q ≡ true → after_prefix p (String.◌++◌ q rest) ≡ none
unfolding clashes after_prefix
clashes-after_prefix String.[] q rest h = cc
clashes-after_prefix (String.◌∷◌ c p) String.[] rest h = cc
clashes-after_prefix (String.◌∷◌ c p) (String.◌∷◌ d q) rest h =
    rw (cons-append d q rest) (ground (arith, clashes-after_prefix p q rest))

pub after_prefix-append : (p rest : String) → after_prefix p (String.◌++◌ p rest) ≡ some rest
unfolding after_prefix
after_prefix-append String.[] rest = rw (nil-append rest)
after_prefix-append (String.◌∷◌ c p) rest =
    rw (cons-append c p rest) (ground (arith, after_prefix-append p rest))

-- The kind of every key that begins with `q`, as far as `q` alone decides it.
unfoldable pub kind_of_start : Table → String → Option EventType
unfolding clashes
kind_of_start [] q = none
kind_of_start ((start, kind) ∷ table) q =
    let later = kind_of_start table q in
    if start == q then some kind else if clashes start q then later else none

kind_of_start_sound :
    (table : Table) (q rest : String) (kind : EventType)
    → kind_of_start table q ≡ some kind
    → first_kind table (String.◌++◌ q rest) ≡ some kind
unfolding first_kind kind_of_start
kind_of_start_sound [] q rest kind h = cc
kind_of_start_sound ((start, k) ∷ table) q rest kind h = elim (Bool-cases (start == q)) [
  | inl eq ↦
      let e : start ≡ q = (eq_iff start q).0 eq in
      let found : after_prefix start (String.◌++◌ q rest) ≡ some rest =
        rw e (after_prefix-append q rest) in
      rw (found, first_kind) (ground arith)
  | inr ne ↦ elim (Bool-cases (clashes start q)) [
    | inl clash ↦
        rw (clashes-after_prefix start q rest clash, first_kind)
          (kind_of_start_sound table q rest kind (rw (ne, clash, kind_of_start) at h))
    | inr open' ↦ absurd (ground arith)
  ]
]

pub kind_of-template :
    (q rest : String) (kind : EventType)
    → kind_of_start stage_keys q ≡ some kind
    → kind_of (String.◌++◌ q rest) ≡ some kind
unfolding kind_of
kind_of-template q rest kind h = kind_of_start_sound stage_keys q rest kind h

abbrev fits : Option EventType → EventType → Bool
fits none event_type = true
fits (some kind) event_type = same_type kind event_type

abbrev pub fits_key : Option String → EventType → Bool
fits_key none event_type = true
fits_key (some key) event_type = fits (kind_of key) event_type

-- Every event has the type that its key announces.
abbrev pub KeysFit : Log → Type 0
KeysFit log = All (λ e. fits_key e.idempotency_key e.event_type ≡ true) log

pub append_to_log-KeysFit :
    (input : AppendEventInput) (log : Log)
    → fits_key input.idempotency_key input.event_type ≡ true
    → KeysFit log
    → KeysFit (append_to_log input log)
append_to_log-KeysFit input log fit h =
    append_to_log_cases KeysFit input log h (λ _. All-append _ log _ h (fit, tt))

same_type_comm : (a b : EventType) → same_type a b ≡ true → same_type b a ≡ true
same_type_comm a b h =
    (eq_iff (event_name b) (event_name a)).1 (sym ((eq_iff (event_name a) (event_name b)).0 h))

type_of_key :
    (o : Option String) (key : String) (event_type kind : EventType)
    → has_key o key ≡ true
    → fits_key o event_type ≡ true
    → kind_of key ≡ some kind
    → same_type event_type kind ≡ true
type_of_key none key event_type kind h fit k = cc
type_of_key (some j) key event_type kind h fit k =
    let e : j ≡ key = (eq_iff j key).0 h in
    let fit' : fits (kind_of key) event_type ≡ true = rw e at fit in
    let fit'' : fits (some kind) event_type ≡ true = rw k at fit' in
    same_type_comm kind event_type fit''

module _ (asset_id key : String) (kind : EventType) (k : kind_of key ≡ some kind) where
  has-find :
      (log : Log) (e : AssetEvent)
      → find (is_replay asset_id key) log ≡ some e
      → KeysFit log
      → has asset_id log kind ≡ true
  has-find [] e h fit = cc
  has-find (x ∷ log) e h (fit, rest) = elim (Bool-cases (is_replay asset_id key x)) [
    | inl hit ↦ ground (arith, type_of_key x.idempotency_key key x.event_type kind)
    | inr miss ↦
        let found : find (is_replay asset_id key) log ≡ some e = ground arith in
        let ih = has-find log e found rest in ground arith
  ]

kind_of-empty : kind_of "" ≡ none
unfolding kind_of
kind_of-empty = refl

key_not_empty : (key : String) (kind : EventType) → kind_of key ≡ some kind → (key == "") ≡ false
key_not_empty key kind k = elim (Bool-cases (key == "")) [
  | inl e ↦ cc (ap kind_of ((eq_iff key "").0 e), kind_of-empty)
  | inr ne ↦ ne
]

has-push :
    (asset_id : String) (log : Log) (e : AssetEvent)
    → e.asset_id ≡ asset_id
    → has asset_id (push log e) e.event_type ≡ true
has-push asset_id log e same =
    rw (keep-append, any-append)
      (ground (arith, eq_iff e.asset_id asset_id, eq_refl (event_name e.event_type)))

-- After an append under a stage's key the log has an event of the stage's type, whether the append
-- was a replay or not.
pub append_to_log-has :
    (input : AppendEventInput) (key : String) (log : Log)
    → input.idempotency_key ≡ some key
    → kind_of key ≡ some input.event_type
    → KeysFit log
    → has input.asset_id (append_to_log input log) input.event_type ≡ true
unfolding append_to_log
append_to_log-has input key log with_key k fit =
    let same : replayed input log ≡ find (is_replay input.asset_id key) log =
      rw (with_key, key_not_empty key _ k) refl in
    elim (Option-cases (find (is_replay input.asset_id key) log)) [
      | inl fresh ↦
          let new : is_none (replayed input log) ≡ true = rw (same, fresh) refl in
          rw new (has-push input.asset_id log (new_event input log) refl)
      | inr (e, replay) ↦
          let old : is_none (replayed input log) ≡ false = rw (same, replay) refl in
          rw old (has-find input.asset_id key input.event_type k log e replay fit)
    ]
