-- ===== src/Kever.antt =====
-- crates/affinidi-keri-core/src/kever.rs: the verifier of one identifier's key event log.
pub mod Signatures
pub mod Updates
pub mod History
pub mod Inception
pub mod Delegated
pub mod Witnesses
use affinidi_keri_rs.Prelude.{
  ℕ, String, Bool, true, false, not, ◌&&◌, Option, none, some, List, [], ◌∷◌, ◌++◌, leb,
  if◌then◌else◌, ◌==◌, nat_eq, string_eq, u64_mod, succ_u64, length, get_elem?, contains, push_new,
}
use affinidi_keri_rs.Prelude.Result.{◌>>=◌, ◌>>◌, ok, err, guard, ok_or, is_ok}
use affinidi_keri_rs.Prelude.Text.{from_str_radix}
use affinidi_keri_rs.Json.{Value, get_str}
use affinidi_keri_rs.Crypto.Extern.{Bytes}
use affinidi_keri_rs.Crypto.Verfer
use affinidi_keri_rs.Crypto.Verfer.{Verfer}
use affinidi_keri_rs.Crypto.Diger
use affinidi_keri_rs.Crypto.Siger
use affinidi_keri_rs.Crypto.Siger.{Siger}
use affinidi_keri_rs.Error
use affinidi_keri_rs.Error.{
  CoreError, CoreResult, from_crypto, unexpected_ilk, validation, out_of_order, threshold_not_met,
  invalid_prefix, missing_field,
}
use affinidi_keri_rs.Threshold.{Threshold, is_satisfied}
use affinidi_keri_rs.Version.{json}
use affinidi_keri_rs.Event.{InceptionEvent}
use affinidi_keri_rs.KeyState
use affinidi_keri_rs.KeyState.{KeyState}
use affinidi_keri_rs.Deps.{Deps}
use affinidi_keri_rs.Said
use affinidi_keri_rs.Serder
use affinidi_keri_rs.Serder.{Serder}
use affinidi_keri_rs.Delegation.{DelegationProof, DelegatorAnchors, verify_delegation}

pub record Kever : Type 0 where
  pub state : KeyState
  pub incepted : Bool

-- `serde_json::from_value(…).map_err(CoreError::Json)`.
abbrev pub from_value : {A : Type 0} → Option A → CoreResult A
from_value o = ok_or o CoreError.json

unfoldable pub reject_plain_rotation_when_delegated : KeyState → CoreResult (Unit {0})
reject_plain_rotation_when_delegated s = guard (not s.delegated) unexpected_ilk

module _ (d : Deps) where
  unfoldable pub verfers_from_keys : List String → CoreResult (List Verfer)
  verfers_from_keys [] = ok []
  verfers_from_keys (k ∷ ks) = do
    verfer ← from_crypto (Verfer.from_qb64 d.crypto k)
    verfers ← verfers_from_keys ks
    ok (verfer ∷ verfers)

  -- Each key of the event is the text of the verifier at its place.
  unfoldable pub keys_match : List String → List Verfer → CoreResult (Unit {0})
  keys_match [] _ = ok tt
  keys_match (k ∷ ks) [] = ok tt
  keys_match (k ∷ ks) (v ∷ vs) = do
    text ← from_crypto (Verfer.qb64 d.crypto v)
    guard (k == text) validation
    keys_match ks vs

  -- The indices of the valid signatures, each once. An index out of range is skipped.
  unfoldable pub satisfied_indices : Bytes → List Verfer → List Siger → List ℕ → CoreResult (List ℕ)
  satisfied_indices message verfers [] acc = ok acc
  satisfied_indices message verfers (sig ∷ sigs) acc = elim (get_elem? verfers (Siger.index sig)) [
    | none ↦ satisfied_indices message verfers sigs acc
    | some verfer ↦ elim (Verfer.verify d.crypto verfer message (Siger.raw sig)) [
      | err e ↦ err (CoreError.crypto e)
      | ok valid ↦
          satisfied_indices message verfers sigs
            (if valid then push_new acc (Siger.index sig) else acc)
    ]
  ]

  unfoldable pub verify_sigs_static :
      Bytes → List Siger → List Verfer → Threshold → CoreResult (Unit {0})
  verify_sigs_static message sigs verfers threshold = do
    indices ← satisfied_indices message verfers sigs []
    guard (is_satisfied threshold indices (length verfers)) threshold_not_met

  -- Self-addressing (`i == d`) or basic (`i == keys[0]`), by the code of the prefix.
  unfoldable pub validate_prefix_derivation : InceptionEvent → CoreResult (Unit {0})
  validate_prefix_derivation icp =
      if is_ok (Diger.from_qb64 d.crypto icp.prefix)
      then guard (icp.prefix == icp.said) invalid_prefix
      else if is_ok (Verfer.from_qb64 d.crypto icp.prefix)
      then elim icp.keys [
        | [] ↦ err invalid_prefix
        | k ∷ ks ↦ guard (icp.prefix == k) invalid_prefix
      ]
      else err invalid_prefix

  -- What `new` and `new_from_parts` do once the object is known to be an inception with its SAID.
  unfoldable pub incept : Bytes → Value → List Siger → List Verfer → CoreResult Kever
  incept raw sad sigs verfers = do
    icp ← from_value (d.to_inception sad)
    guard (length icp.keys == length verfers) validation
    keys_match icp.keys verfers
    verify_sigs_static raw sigs verfers icp.keys_threshold
    validate_prefix_derivation icp
    state ← KeyState.from_inception icp
    ok (record { state = state; incepted = true })

  unfoldable pub new : Serder → List Siger → List Verfer → CoreResult Kever
  new serder sigs verfers = do
    ilk ← Serder.ilk serder
    guard (not (ilk == "dip")) unexpected_ilk
    guard (ilk == "icp") unexpected_ilk
    Serder.verify_said d serder "E"
    incept serder.raw serder.sad sigs verfers

  unfoldable pub new_from_parts : Bytes → Value → List Siger → List Verfer → CoreResult Kever
  new_from_parts raw sad sigs verfers = do
    ilk ← ok_or (get_str sad "t") (missing_field "t")
    guard (ilk == "icp") unexpected_ilk
    Said.verify_said d sad "d" "E" json
    incept raw sad sigs verfers

  unfoldable pub new_delegated :
      Serder → List Siger → List Verfer → DelegationProof → DelegatorAnchors → CoreResult Kever
  new_delegated serder sigs verfers proof source = do
    ilk ← Serder.ilk serder
    guard (ilk == "dip") unexpected_ilk
    Serder.verify_said d serder "E"
    dip ← from_value (d.to_delegated_inception serder.sad)
    guard (length dip.keys == length verfers) validation
    keys_match dip.keys verfers
    verify_sigs_static serder.raw sigs verfers dip.keys_threshold
    guard (dip.prefix == dip.said) invalid_prefix
    verify_delegation d dip.prefix 0 dip.said dip.delegator proof source
    state ← KeyState.from_delegated_inception dip
    ok (record { state = state; incepted = true })

  -- The state is assigned at the end of an arm, so an error leaves the verifier as it was.
  unfoldable pub update : Kever → Serder → List Siger → CoreResult Kever
  update k serder sigs = do
    guard k.incepted validation
    Serder.verify_said d serder "E"
    ilk ← Serder.ilk serder
    sn ← Serder.sn serder
    guard (sn == succ_u64 k.state.sn) (out_of_order (succ_u64 k.state.sn) sn)
    if ilk == "rot"
        then (do
          reject_plain_rotation_when_delegated k.state
          rot ← from_value (d.to_rotation serder.sad)
          verfers ← verfers_from_keys rot.keys
          verify_sigs_static serder.raw sigs verfers rot.keys_threshold
          state ← KeyState.apply_rotation d.crypto k.state rot
          ok (record k { state = state }))
        else if ilk == "ixn"
        then (do
          verfers ← verfers_from_keys k.state.keys
          verify_sigs_static serder.raw sigs verfers k.state.threshold
          ixn ← from_value (d.to_interaction serder.sad)
          state ← KeyState.apply_interaction k.state ixn
          ok (record k { state = state }))
        else if ilk == "drt"
        then err unexpected_ilk
        else err unexpected_ilk

  unfoldable pub verify_update : Kever → Serder → List Siger → CoreResult KeyState
  verify_update k serder sigs = do
    guard k.incepted validation
    Serder.verify_said d serder "E"
    ilk ← Serder.ilk serder
    sn ← Serder.sn serder
    guard (sn == succ_u64 k.state.sn) (out_of_order (succ_u64 k.state.sn) sn)
    if ilk == "rot"
        then (do
          reject_plain_rotation_when_delegated k.state
          rot ← from_value (d.to_rotation serder.sad)
          verfers ← verfers_from_keys rot.keys
          verify_sigs_static serder.raw sigs verfers rot.keys_threshold
          KeyState.apply_rotation d.crypto k.state rot)
        else if ilk == "ixn"
        then (do
          verfers ← verfers_from_keys k.state.keys
          verify_sigs_static serder.raw sigs verfers k.state.threshold
          ixn ← from_value (d.to_interaction serder.sad)
          KeyState.apply_interaction k.state ixn)
        else if ilk == "drt"
        then err unexpected_ilk
        else err unexpected_ilk

  unfoldable pub verify_update_owned : Kever → Bytes → Value → List Siger → CoreResult KeyState
  verify_update_owned k raw sad sigs = do
    guard k.incepted validation
    Said.verify_said d sad "d" "E" json
    ilk ← ok_or (get_str sad "t") (missing_field "t")
    sn_str ← ok_or (get_str sad "s") (missing_field "s")
    sn ← ok_or (from_str_radix 16 u64_mod sn_str) validation
    guard (sn == succ_u64 k.state.sn) (out_of_order (succ_u64 k.state.sn) sn)
    if ilk == "rot"
        then (do
          reject_plain_rotation_when_delegated k.state
          rot ← from_value (d.to_rotation sad)
          verfers ← verfers_from_keys rot.keys
          verify_sigs_static raw sigs verfers rot.keys_threshold
          KeyState.apply_rotation d.crypto k.state rot)
        else if ilk == "ixn"
        then (do
          verfers ← verfers_from_keys k.state.keys
          verify_sigs_static raw sigs verfers k.state.threshold
          ixn ← from_value (d.to_interaction sad)
          KeyState.apply_interaction k.state ixn)
        else if ilk == "drt"
        then err unexpected_ilk
        else err unexpected_ilk

  unfoldable pub verify_update_delegated :
      Kever → Serder → List Siger → DelegationProof → DelegatorAnchors → CoreResult KeyState
  verify_update_delegated k serder sigs proof source = do
    guard k.incepted validation
    Serder.verify_said d serder "E"
    ilk ← Serder.ilk serder
    guard (ilk == "drt") unexpected_ilk
    sn ← Serder.sn serder
    guard (sn == succ_u64 k.state.sn) (out_of_order (succ_u64 k.state.sn) sn)
    drt ← from_value (d.to_delegated_rotation serder.sad)
    verfers ← verfers_from_keys drt.keys
    verify_sigs_static serder.raw sigs verfers drt.keys_threshold
    verify_delegation d drt.prefix sn drt.said drt.delegator proof source
    KeyState.apply_delegated_rotation d.crypto k.state drt

  -- Signatures over any message, by the current keys under the current threshold.
  unfoldable pub verify_sigs : Kever → Bytes → List Siger → CoreResult Bool
  verify_sigs k message sigs = do
    verfers ← verfers_from_keys k.state.keys
    verify_sigs_static message sigs verfers k.state.threshold
    ok true

  -- The designated witnesses with a valid receipt, each once, in the order of the receipts.
  unfoldable pub valid_witnesses :
      Bytes → List String → List (String × Bytes) → List String → CoreResult (List String)
  valid_witnesses message backers [] valid = ok valid
  valid_witnesses message backers ((prefix, sig) ∷ couples) valid =
      elim (contains backers prefix && not (contains valid prefix)) [
        | false ↦ valid_witnesses message backers couples valid
        | true ↦ elim (Verfer.from_qb64 d.crypto prefix) [
          | err e ↦ err (CoreError.crypto e)
          | ok verfer ↦ elim (Verfer.verify d.crypto verfer message sig) [
            | err e ↦ err (CoreError.crypto e)
            | ok good ↦
                valid_witnesses message backers couples
                  (if good then valid ++ prefix ∷ [] else valid)
          ]
        ]
      ]

  unfoldable pub verify_witness_receipts_static :
      Bytes → List (String × Bytes) → List String → ℕ → CoreResult (Unit {0})
  verify_witness_receipts_static message couples backers backer_threshold =
      if backer_threshold == 0 then ok tt else do
        valid ← valid_witnesses message backers couples []
        guard (leb backer_threshold (length valid)) validation

  unfoldable pub verify_witness_receipts :
      Kever → Bytes → List (String × Bytes) → CoreResult (Unit {0})
  verify_witness_receipts k message couples =
      verify_witness_receipts_static message couples k.state.backers k.state.backer_threshold

unfoldable pub apply_verified_update : Kever → KeyState → Kever
apply_verified_update k state = record k { state = state }
