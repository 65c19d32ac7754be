-- ===== src/Delegation.antt =====
-- crates/affinidi-keri-core/src/delegation.rs: the authorisation of a delegated event by an event of
-- its delegator.
pub mod Anchor
pub mod Source
use affinidi_keri_rs.Prelude.{
  ℕ, zero, suc, ◌+◌, ◌-◌, ◌*◌, String, Bool, false, not, ◌&&◌, ◌||◌, Option, none, some, List, [],
  ◌∷◌, if◌then◌else◌, ◌==◌, nat_eq, string_eq, length,
}
use affinidi_keri_rs.Prelude.Result.{◌>>=◌, ◌>>◌, ok, guard, ok_or}
use affinidi_keri_rs.Prelude.Text.{to_hex}
use affinidi_keri_rs.Json.{Value}
use affinidi_keri_rs.Crypto.Extern.{Bytes, Extern}
use affinidi_keri_rs.Error.{CoreError, CoreResult, validation, parse_error}
use affinidi_keri_rs.Event.{SealEvent}
use affinidi_keri_rs.Deps.{Deps}

pub record DelegationProof : Type 0 where
  pub sn : ℕ
  pub said : String

-- `trait DelegatorAnchors`: the seals in the delegator's verified event at a place, if it is there.
pub record DelegatorAnchors : Type 0 where
  pub anchors_at : String → ℕ → String → CoreResult (Option (List Value))

-- `u64::from_be_bytes`, with the value of the bytes before.
unfoldable pub from_be_bytes : ℕ → Bytes → ℕ
from_be_bytes acc [] = acc
from_be_bytes acc (b ∷ bs) = from_be_bytes (acc * 256 + b) bs

-- `raw.split_at(raw.len().saturating_sub(8))` and the test that the high bytes are 0: `none` where
-- one is not, and otherwise the low bytes, at most eight.
unfoldable pub low_bytes : ℕ → Bytes → Option Bytes
low_bytes zero bs = some bs
low_bytes (suc high) [] = some []
low_bytes (suc high) (b ∷ bs) = if b == 0 then low_bytes high bs else none

unfoldable pub from_seal_source_couple : Extern → String → String → CoreResult DelegationProof
from_seal_source_couple x sn_qb64 said_qb64 = do
  matter ← ok_or (x.matter_from_qb64 sn_qb64) parse_error
  low ← ok_or (low_bytes (length matter.raw - 8) matter.raw) parse_error
  said ← ok_or (x.matter_from_qb64 said_qb64) parse_error
  ok (record { sn = from_be_bytes 0 low; said = said_qb64 })

module _ (d : Deps) where
  -- The event seal names this delegatee, sequence number and digest.
  unfoldable pub seals : String → ℕ → String → Value → Bool
  seals delegatee sn said anchor = elim (d.to_seal_event anchor) [
    | none ↦ false
    | some seal ↦ seal.prefix == delegatee && seal.digest == said && seal.sn == to_hex sn
  ]

  -- `anchors.iter().any(…)`.
  unfoldable pub any_seals : String → ℕ → String → List Value → Bool
  any_seals delegatee sn said [] = false
  any_seals delegatee sn said (a ∷ as') =
      seals delegatee sn said a || any_seals delegatee sn said as'

  unfoldable pub verify_delegation :
      String → ℕ → String → String → DelegationProof → DelegatorAnchors → CoreResult (Unit {0})
  verify_delegation delegatee sn said delegator proof source = do
    guard (not (delegator == "")) validation
    guard (not (delegator == delegatee)) validation
    found ← source.anchors_at delegator proof.sn proof.said
    anchors ← ok_or found validation
    guard (any_seals delegatee sn said anchors) validation
