-- ===== src/Said.antt =====
-- crates/affinidi-keri-core/src/said.rs: self-addressing identifiers.
pub mod Verification
use affinidi_keri_rs.Prelude.{
  ℕ, zero, suc, String, Bool, true, false, not, ◌&&◌, Option, none, some, if◌then◌else◌, ◌==◌,
  nat_eq, string_eq,
}
use affinidi_keri_rs.Prelude.Result.{ok, ◌>>=◌, ◌>>◌, guard, ok_or}
use affinidi_keri_rs.Json.{Value, Fields, object, string, lookup, insert, as_object, as_str}
use affinidi_keri_rs.Crypto.Extern.{Bytes}
use affinidi_keri_rs.Crypto.Diger
use affinidi_keri_rs.Version.{SerializationKind, json, cbor, msg_pack}
use affinidi_keri_rs.Error.{
  CoreError, CoreResult, validation, missing_field, said_mismatch, from_crypto,
}
use affinidi_keri_rs.Deps.{Deps}

-- `"#".repeat(n)`.
unfoldable pub dummy : ℕ → String
dummy zero = ""
dummy (suc n) = String.◌∷◌ "#" (dummy n)

abbrev pub format_error : SerializationKind → CoreError
format_error json = CoreError.json
format_error cbor = CoreError.cbor
format_error msg_pack = CoreError.msg_pack

abbrev is_some : Option Value → Bool
is_some none = false
is_some (some v) = true

abbrev both_eq : (Value → Value → Bool) → Option Value → Option Value → Bool
both_eq eq (some v) (some w) = eq v w
both_eq eq _ _ = false

-- Write the identifier under the label, and under `i` too for a self-addressing inception.
unfoldable pub fill : String → Bool → String → Fields → Fields
fill label self_addressing text fields =
    let labelled = insert label (string text) fields in
    if self_addressing then insert "i" (string text) labelled else labelled

module _ (d : Deps) where
  unfoldable pub serialize_sad : Value → SerializationKind → CoreResult Bytes
  serialize_sad sad kind = ok_or (d.serialize kind sad) (format_error kind)

  unfoldable pub is_self_addressing : String → Fields → Bool
  is_self_addressing label fields =
      label == "d" && both_eq d.value_eq (lookup "d" fields) (lookup "i" fields)

  -- The digest of the object with the identifier blanked out.
  unfoldable pub digest_said :
      String → Bool → String → SerializationKind → ℕ → Fields → CoreResult String
  digest_said label self_addressing code kind size fields = do
    serialized ← serialize_sad (object (fill label self_addressing (dummy size) fields)) kind
    diger ← from_crypto (Diger.from_data d.crypto code serialized)
    from_crypto (Diger.qb64 d.crypto diger)

  unfoldable pub fixed_size : String → CoreResult ℕ
  fixed_size code = do
    size ← ok_or (d.full_size code) validation
    guard (not (size == 0)) validation
    ok size

  -- The identifier, and the object with it filled in.
  unfoldable pub compute_said :
      Value → String → String → SerializationKind → CoreResult (String × Value)
  compute_said sad label code kind = do
    fields ← ok_or (as_object sad) validation
    size ← fixed_size code
    guard (is_some (lookup label fields)) (missing_field label)
    let self_addressing = is_self_addressing label fields
    said ← digest_said label self_addressing code kind size fields
    ok (
      said,
      object (fill label self_addressing said (fill label self_addressing (dummy size) fields)),
    )

  abbrev str_at : String → Fields → Option String
  str_at label fields = elim (lookup label fields) [ none ↦ none | some v ↦ as_str v ]

  unfoldable pub verify_said : Value → String → String → SerializationKind → CoreResult (Unit {0})
  verify_said sad label code kind = do
    fields ← ok_or (as_object sad) validation
    current ← ok_or (str_at label fields) (missing_field label)
    computed ← compute_said sad label code kind
    guard (computed.0 == current) said_mismatch
