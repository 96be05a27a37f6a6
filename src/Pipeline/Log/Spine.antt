-- ===== src/Pipeline/Log/Spine.antt =====
-- The order of the pipeline's events: none is recorded before the one that its stage needs.
use wtr.Common.{
  String, Bool, true, false, ◌||◌, List, [], ◌∷◌, Option, none, some, push, any-append, ◌++◌,
  append-nil, append_assoc, includes, Bool-cases, inl, inr, All, ◌⊎◌, ◌==◌, eq_iff, eq_refl,
  if◌then◌else◌, ◌≡◌, refl, sym, ap, subst, ◌∙◌,
}
use mathlib.Core.Option.{some-injective}
use wtr.Pipeline.Types.{EventType, event_name, same_type, AssetEvent}
use wtr.Pipeline.Rows.{AppendEventInput}
use wtr.Pipeline.Store.{append_to_log, new_event, is_of}
use wtr.Pipeline.Exec.Hoare.{Log}
use wtr.Pipeline.Log.{append_to_log_cases, has, has-append_to_log, keep-push}
use wtr.Pipeline.Log.Kinds.{KeysFit, kind_of, append_to_log-KeysFit, append_to_log-has}

-- The event that must be there first.
unfoldable pub before : EventType → Option EventType
before EventType.labeled = some EventType.ingested
before EventType.media_encrypted_uploaded = some EventType.labeled
before EventType.trace_registered = some EventType.media_encrypted_uploaded
before EventType.ip_registered = some EventType.trace_registered
before EventType.cdr_vault_allocated = some EventType.ip_registered
before EventType.listed = some EventType.cdr_vault_allocated
before EventType.sold = some EventType.listed
before EventType.payout_credited = some EventType.sold
before EventType.settled = some EventType.payout_credited
before _ = none

-- The type with a name; the types that nothing must precede are all one here.
named : String → Option EventType
named s =
    if s == "asset.labeled"
    then before EventType.labeled
    else if s == "asset.media_encrypted_uploaded"
    then before EventType.media_encrypted_uploaded
    else if s == "asset.trace_registered"
    then before EventType.trace_registered
    else if s == "asset.ip_registered"
    then before EventType.ip_registered
    else if s == "asset.cdr_vault_allocated"
    then before EventType.cdr_vault_allocated
    else if s == "asset.listed"
    then before EventType.listed
    else if s == "asset.sold"
    then before EventType.sold
    else if s == "asset.payout_credited"
    then before EventType.payout_credited
    else if s == "asset.settled"
    then before EventType.settled
    else none

named-event_name : (t : EventType) → named (event_name t) ≡ before t
unfolding named before
named-event_name EventType.labeled = refl
named-event_name _ = refl

before-same_type : (t u : EventType) → same_type t u ≡ true → before t ≡ before u
before-same_type t u h =
    sym (named-event_name t)
    ∙ ap named ((eq_iff (event_name t) (event_name u)).0 h)
    ∙ named-event_name u

-- Each event of a log that goes on after another comes after the event of its asset that its stage needs.
abbrev pub IsOrderedAfter : Log → Log → Type 0
IsOrderedAfter seen [] = Unit
IsOrderedAfter seen (e ∷ log) =
    ((u : EventType) → before e.event_type ≡ some u → has e.asset_id seen u ≡ true)
    × IsOrderedAfter (push seen e) log

abbrev pub IsOrdered : Log → Type 0
IsOrdered log = IsOrderedAfter [] log

-- An asset with an event has the one that its stage needs, wherever they stand.
abbrev pub HasNeeds : Log → Type 0
HasNeeds log =
    (a : String) (t u : EventType) → before t ≡ some u → has a log t ≡ true → has a log u ≡ true

one_or_other : (old new : Bool) → (old || (new || false)) ≡ true → (old ≡ true) ⊎ (new ≡ true)
one_or_other true new h = inl refl
one_or_other false true h = inr refl
one_or_other false false h = cc

-- What a push brings is there already, or is what was pushed.
has-push_inv :
    (a : String) (t : EventType) (log : Log) (e : AssetEvent)
    → has a (push log e) t ≡ true
    → (has a log t ≡ true) ⊎ ((e.asset_id ≡ a) × (same_type e.event_type t ≡ true))
has-push_inv a t log e h = elim (Bool-cases (is_of a e)) [
  | inl mine ↦
      let both : (has a log t || (same_type e.event_type t || false)) ≡ true =
        rw (keep-push, mine, any-append) at h in
      elim (one_or_other _ _ both) [
        | inl old ↦ inl old
        | inr new ↦ inr ((eq_iff e.asset_id a).0 mine, new)
      ]
  | inr other ↦ inl (rw (keep-push, other) at h)
]

has-push_old :
    (a : String) (t : EventType) (log : Log) (e : AssetEvent)
    → has a log t ≡ true
    → has a (push log e) t ≡ true
has-push_old a t log e h = elim (Bool-cases (is_of a e)) [
  | inl mine ↦ rw (keep-push, mine, any-append, h)
  | inr other ↦ rw (keep-push, other) h
]

push-HasNeeds :
    (e : AssetEvent) (log : Log)
    → HasNeeds log
    → ((u : EventType) → before e.event_type ≡ some u → has e.asset_id log u ≡ true)
    → HasNeeds (push log e)
push-HasNeeds e log h ready a t u pre there =
    has-push_old a u log e (elim (has-push_inv a t log e there) [
      | inl old ↦ h a t u pre old
      | inr (owner, kind) ↦ rw (← owner) (ready u (before-same_type e.event_type t kind ∙ pre))
    ])

ordered_needs : (seen log : Log) → HasNeeds seen → IsOrderedAfter seen log → HasNeeds (seen ++ log)
ordered_needs seen [] h k = subst HasNeeds (sym (append-nil seen)) h
ordered_needs seen (e ∷ log) h (ready, later) =
    subst HasNeeds (append_assoc seen (e ∷ []) log)
      (ordered_needs (push seen e) log (push-HasNeeds e seen h ready) later)

pub IsOrdered-HasNeeds : (log : Log) → IsOrdered log → HasNeeds log
IsOrdered-HasNeeds log h = ordered_needs [] log (λ a t u pre there. cc) h

push-IsOrderedAfter :
    (seen log : Log) (e : AssetEvent)
    → IsOrderedAfter seen log
    → ((u : EventType) → before e.event_type ≡ some u → has e.asset_id (seen ++ log) u ≡ true)
    → IsOrderedAfter seen (push log e)
push-IsOrderedAfter seen [] e h ready =
    (λ u pre. subst (λ l. has e.asset_id l u ≡ true) (append-nil seen) (ready u pre), tt)
push-IsOrderedAfter seen (x ∷ log) e (h, hs) ready = (
  h,
  push-IsOrderedAfter (push seen x) log e hs (λ u pre.
      subst (λ l. has e.asset_id l u ≡ true) (sym (append_assoc seen (x ∷ []) log)) (ready u pre)),
)

-- An append keeps the order, if what its event needs is there.
pub append_to_log-IsOrdered :
    (input : AppendEventInput) (log : Log)
    → IsOrdered log
    → ((u : EventType) → before input.event_type ≡ some u → has input.asset_id log u ≡ true)
    → IsOrdered (append_to_log input log)
append_to_log-IsOrdered input log h ready =
    append_to_log_cases IsOrdered input log h
      (λ _. push-IsOrderedAfter [] log (new_event input log) h ready)

-- A log that the handlers may start from.
pub record IsSound (log : Log) : Type 0 where
  pub keys : KeysFit log
  pub order : IsOrdered log

-- The sub-steps that a handler found done, each with the type of its event, are in the log.
abbrev pub AreDone : String → List String → List (String × EventType) → Log → Type 0
AreDone a already table log = All (λ s. includes already s.0 ≡ true → has a log s.1 ≡ true) table

-- A sound log that has come as far as a type, and has what was done before.
pub record Reached (a : String) (already : List String) (table : List (String × EventType))
    (t : EventType) (log : Log) : Type 0 where
  pub sound : IsSound log
  pub there : has a log t ≡ true
  pub done : AreDone a already table log

AreDone-append :
    (a : String) (already : List String) (table : List (String × EventType))
    (input : AppendEventInput) (log : Log)
    → AreDone a already table log
    → AreDone a already table (append_to_log input log)
AreDone-append a already [] input log h = tt
AreDone-append a already ((step, t) ∷ table) input log (h, hs) =
    (λ i. has-append_to_log a t input log (h i), AreDone-append a already table input log hs)

-- An append of an event that nothing must precede.
pub append_to_log-IsSound :
    (input : AppendEventInput) (key : String) (log : Log)
    → input.idempotency_key ≡ some key
    → kind_of key ≡ some input.event_type
    → ((u : EventType) → before input.event_type ≡ some u → has input.asset_id log u ≡ true)
    → IsSound log
    → IsSound (append_to_log input log)
append_to_log-IsSound input key log with_key kind ready s = record {
  keys =
      append_to_log-KeysFit input log (rw (with_key, kind) (eq_refl (event_name input.event_type)))
        s.keys;
  order = append_to_log-IsOrdered input log s.order ready;
}

-- The append of a stage's event, by a handler that has come as far as the type before it.
pub append_to_log-Reached :
    (already : List String) (table : List (String × EventType)) (t : EventType)
    (input : AppendEventInput) (key : String) (log : Log)
    → input.idempotency_key ≡ some key
    → kind_of key ≡ some input.event_type
    → before input.event_type ≡ some t
    → Reached input.asset_id already table t log
    → Reached input.asset_id already table input.event_type (append_to_log input log)
append_to_log-Reached already table t input key log with_key kind pre r = record {
  sound = append_to_log-IsSound input key log with_key kind (λ u e. ready u (sym pre ∙ e)) r.sound;
  there = append_to_log-has input key log with_key kind r.sound.keys;
  done = AreDone-append input.asset_id already table input log r.done;
}
  where
    ready : (u : EventType) → some t ≡ some u → has input.asset_id log u ≡ true
    ready u e = subst (λ v. has input.asset_id log v ≡ true) (some-injective _ _ e) r.there

-- The append of the first event of all.
pub append_to_log-Reached_first :
    (input : AppendEventInput) (key : String) (log : Log)
    → input.idempotency_key ≡ some key
    → kind_of key ≡ some input.event_type
    → before input.event_type ≡ none
    → IsSound log
    → Reached input.asset_id [] [] input.event_type (append_to_log input log)
append_to_log-Reached_first input key log with_key kind free s = record {
  sound = append_to_log-IsSound input key log with_key kind (λ u e. cc) s;
  there = append_to_log-has input key log with_key kind s.keys;
  done = tt;
}

-- The append of an event that nothing must precede, on the way.
pub append_to_log-Reached_aside :
    (a : String) (already : List String) (table : List (String × EventType)) (t : EventType)
    (input : AppendEventInput) (key : String) (log : Log)
    → input.idempotency_key ≡ some key
    → kind_of key ≡ some input.event_type
    → before input.event_type ≡ none
    → Reached a already table t log
    → Reached a already table t (append_to_log input log)
append_to_log-Reached_aside a already table t input key log with_key kind free r = record {
  sound = append_to_log-IsSound input key log with_key kind (λ u e. cc) r.sound;
  there = has-append_to_log a t input log r.there;
  done = AreDone-append a already table input log r.done;
}

-- A type that is in the log already.
pub Reached-already :
    (a : String) (already : List String) (table : List (String × EventType)) (t u : EventType)
    (log : Log)
    → Reached a already table t log
    → has a log u ≡ true
    → Reached a already table u log
Reached-already a already table t u log r there = record {
  sound = r.sound;
  there = there;
  done = r.done;
}
