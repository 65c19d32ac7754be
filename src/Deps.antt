-- ===== src/Deps.antt =====
-- What the core and protocol crates take from crates outside the repository: the primitives of
-- `Crypto.Extern`, serde with its formats (serde_json, ciborium, rmp_serde) and the CESR size table.
-- The derived `Deserialize` of an event structure is generated code, so it is a field too.
use affinidi_keri_rs.Prelude.{ℕ, String, Bool, Option, nat_eq, string_eq}
use affinidi_keri_rs.Json.{Value}
use affinidi_keri_rs.Crypto.Extern.{Bytes, Extern}
use affinidi_keri_rs.Version.{SerializationKind}
use affinidi_keri_rs.Event.{
  InceptionEvent, DelegatedInceptionEvent, RotationEvent, DelegatedRotationEvent, InteractionEvent,
  SealEvent,
}

-- `affinidi_cesr::Counter`: what `code()` and `count()` return.
pub record Counter : Type 0 where
  pub code : String
  pub count : ℕ

pub record Deps : Type 0 where
  pub crypto : Extern
  pub counter_new : String → ℕ → Option Counter
  pub counter_qb64 : Counter → Option String
  -- `Counter::from_qb64` of a text that may go on, and `full_size()`.
  pub counter_from_qb64 : String → Option Counter
  pub counter_full_size : Counter → ℕ
  -- `hardage(first character)`, `indexer_sizage(code)`: the full size of an indexed signature.
  pub hardage : ℕ → Option ℕ
  pub indexer_size : String → Option ℕ
  -- `matter_sizage(code)`: the full size of a code's qb64 text, 0 if it varies.
  pub full_size : String → Option ℕ
  -- `serde_json::from_value`.
  pub to_inception : Value → Option InceptionEvent
  pub to_delegated_inception : Value → Option DelegatedInceptionEvent
  pub to_rotation : Value → Option RotationEvent
  pub to_delegated_rotation : Value → Option DelegatedRotationEvent
  pub to_interaction : Value → Option InteractionEvent
  pub to_seal_event : Value → Option SealEvent
  -- `PartialEq` of `serde_json::Value`.
  pub value_eq : Value → Value → Bool
  -- `serde_json::to_vec`, `ciborium::into_writer`, `rmp_serde::to_vec`.
  pub serialize : SerializationKind → Value → Option Bytes
  -- `serde_json::from_slice`, `ciborium::from_reader`, `rmp_serde::from_slice`.
  pub deserialize : SerializationKind → Bytes → Option Value
