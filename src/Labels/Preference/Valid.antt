-- ===== src/Labels/Preference/Valid.antt =====
-- lib/labels/preference.ts: what `validatePreferenceSpec` promises of a specification.
use wtr.Common.{
  ◌≤◌, units, ◌>>=◌, String, true, Result, ok, err, ltb, codes, trim, Bool-cases, inl, inr, ◌==◌,
  eq_iff, ◌≡◌, ◌≢◌, refl, subst, ap, arith,
}
use wtr.Common.Value.{Value, undefined, null, bool, num, bigint, real, str, arr, obj, get, first_of}
use wtr.Labels.Preference.{
  PreferenceSpec, text, optional_text, distinct, validate_preference_spec, max_chars,
}

-- A text that is not blank, and not too long.
pub record IsFilled (s : String) : Type 0 where
  pub not_blank : trim s ≢ ""
  pub bounded : units (codes s) ≤ max_chars

pub record IsValid (spec : PreferenceSpec) : Type 0 where
  pub prompt : IsFilled spec.prompt
  pub a : IsFilled spec.a
  pub b : IsFilled spec.b
  pub apart : spec.a ≢ spec.b

abbrev value_or : {A : Type 0} → A → Result A → A
value_or other (ok a) = a
value_or other (err e) = other

filled : (s name : String) (t : String) → text (str s) name max_chars ≡ ok t → IsFilled t
unfolding text
filled s name t h = elim (Bool-cases (trim s == "")) [
  | inl blank ↦ let failed : err _ ≡ ok t = rw (blank, text) at h in absurd cc
  | inr some_text ↦ elim (Bool-cases (ltb max_chars (units (codes s)))) [
    | inl long ↦ let failed : err _ ≡ ok t = rw (some_text, long, text) at h in absurd cc
    | inr short ↦
        let same : ok s ≡ ok t = rw (some_text, short, text) at h in
        subst IsFilled (ap (value_or s) same) (record {
          not_blank = λ e. let hit : (trim s == "") ≡ true = (eq_iff (trim s) "").1 e in cc;
          bounded = ground arith;
        })
  ]
]

text-IsFilled : (v : Value) (name t : String) → text v name max_chars ≡ ok t → IsFilled t
unfolding text
text-IsFilled (str s) name t h = filled s name t h
text-IsFilled undefined name t h = cc
text-IsFilled null name t h = cc
text-IsFilled (bool b) name t h = cc
text-IsFilled (num n) name t h = cc
text-IsFilled (bigint n) name t h = cc
text-IsFilled (real n) name t h = cc
text-IsFilled (arr vs) name t h = cc
text-IsFilled (obj fs) name t h = cc

bind_inv :
    {A B : Type 0} (m : Result A) (f : A → Result B) (b : B)
    → (m >>= f) ≡ ok b
    → (a : A) × (m ≡ ok a) × (f a ≡ ok b)
bind_inv (ok a) f b h = (a, refl, h)
bind_inv (err e) f b h = cc

distinct_inv :
    (spec result : PreferenceSpec) → distinct spec ≡ ok result → (spec ≡ result) × (spec.a ≢ spec.b)
distinct_inv spec result h = elim (Bool-cases (spec.a == spec.b)) [
  | inl same ↦ let failed : err _ ≡ ok result = rw (same, distinct) at h in absurd cc
  | inr apart ↦
      let found : ok spec ≡ ok result = rw (apart, distinct) at h in
      (
        ap (value_or spec) found,
        λ e. let hit : (spec.a == spec.b) ≡ true = (eq_iff spec.a spec.b).1 e in cc,
      )
]

-- Whatever value it is given, a specification that `validatePreferenceSpec` returns has a prompt and two
-- candidates that are not blank and have at most 8000 UTF-16 units each, and the candidates differ.
pub validate_preference_spec-IsValid :
    (raw : Value) (spec : PreferenceSpec) → validate_preference_spec raw ≡ ok spec → IsValid spec
unfolding validate_preference_spec
validate_preference_spec-IsValid (obj raw) spec h =
    let (prompt, hp, h1) = bind_inv (text (get "prompt" raw) "prompt" max_chars) _ spec h in
    let (a, ha, h2) = bind_inv (text (get "a" raw) "a" max_chars) _ spec h1 in
    let (b, hb, h3) = bind_inv (text (get "b" raw) "b" max_chars) _ spec h2 in
    let (source, _, h4) =
      bind_inv
        (optional_text (first_of (get "sourceFamily" raw) (get "source_family" raw)) "sourceFamily")
        _ spec h3 in
    let (trace, _, h5) =
      bind_inv
        (optional_text (first_of (get "traceAssetId" raw) (get "trace_asset_id" raw))
          "traceAssetId")
        _ spec h4 in
    let (same, apart) = distinct_inv _ spec h5 in
    subst IsValid same (record {
      prompt = text-IsFilled _ _ prompt hp;
      a = text-IsFilled _ _ a ha;
      b = text-IsFilled _ _ b hb;
      apart = apart;
    })
validate_preference_spec-IsValid undefined spec h = cc
validate_preference_spec-IsValid null spec h = cc
validate_preference_spec-IsValid (bool b) spec h = cc
validate_preference_spec-IsValid (num n) spec h = cc
validate_preference_spec-IsValid (bigint n) spec h = cc
validate_preference_spec-IsValid (real n) spec h = cc
validate_preference_spec-IsValid (str s) spec h = cc
validate_preference_spec-IsValid (arr vs) spec h = cc
