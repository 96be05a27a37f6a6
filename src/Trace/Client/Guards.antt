-- ===== src/Trace/Client/Guards.antt =====
-- lib/trace/client.ts: what is checked before a request goes out.
use wtr.Common.{
  ℕ, ◌≤◌, String, true, false, Failure, Result, ok, err, leb, Bool-cases, inl, inr, ◌≡◌, refl,
  arith,
}
use wtr.Common.Value.{Fields, obj}
use wtr.Trace.Pii.{assert_no_pii, assert_no_pii_iff, HasKey, is_pii_key}
use wtr.Trace.Client.{
  ClientConfig, Registration, Update, update_metadata, register_data, max_updates, cap_error,
}

-- What a call says when it threw before it sent anything.
pub data Refused {W A : Type 0} (w : W) (outcome : Result A × W) : Type 0 where
  refused : (e : Failure) → outcome ≡ (err e, w) → Refused w outcome

le→leb : (a b : ℕ) → a ≤ b → leb a b ≡ true
le→leb a b h = ground arith

caught :
    (document : Fields) (key : String)
    → HasKey key (obj document)
    → is_pii_key key ≡ true
    → (answer : Result (Unit {0})) → assert_no_pii document ≡ answer
    → (e : Failure) × (assert_no_pii document ≡ err e)
caught document key there bad (ok tt) h =
    let clean : is_pii_key key ≡ false = (assert_no_pii_iff document).0 h key there in absurd cc
caught document key there bad (err e) h = (e, h)

-- `registerData` throws and sends nothing if the document has, at any depth, a key that is shaped like
-- personal data.
pub register_data-Refused :
    {W : Type 0} (config : ClientConfig W) (params : Registration) (w : W) (key : String)
    → HasKey key (obj params.document)
    → is_pii_key key ≡ true
    → Refused w (register_data config params w)
unfolding register_data
register_data-Refused config params w key there bad =
    let (e, h) = caught params.document key there bad _ refl in
    refused e (rw (h, register_data) refl)

-- `updateMetadata` throws and sends nothing if the document has, at any depth, a key that is shaped like
-- personal data; where the data id has had 100 updates, whatever the document is, it throws the error
-- of the cap and sends nothing.
pub update_metadata-Refused :
    {W : Type 0} (config : ClientConfig W) (params : Update) (w : W)
    → (max_updates ≤ params.update_count
        → update_metadata config params w ≡ (err (cap_error params.data_id), w))
      × ((key : String)
          → HasKey key (obj params.document)
          → is_pii_key key ≡ true
          → Refused w (update_metadata config params w))
unfolding update_metadata
update_metadata-Refused config params w = (
  λ full. rw (le→leb max_updates params.update_count full, update_metadata) refl,
  λ key there bad.
      let (e, h) = caught params.document key there bad _ refl in
      elim (Bool-cases (leb max_updates params.update_count)) [
        | inl full ↦ refused (cap_error params.data_id) (rw (full, update_metadata) refl)
        | inr room ↦ refused e (rw (room, h, update_metadata) refl)
      ],
)
