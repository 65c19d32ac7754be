-- ===== src/Event.antt =====
-- crates/affinidi-keri-core/src/event.rs, seal.rs and the structures of serder.rs and version.rs:
-- the bodies of the key events, with the fields under their Rust names.
use affinidi_keri_rs.Prelude.{ℕ, String, List, nat_eq, string_eq, u64_mod}
use affinidi_keri_rs.Prelude.Result.{ok_or}
use affinidi_keri_rs.Json.{Value}
use affinidi_keri_rs.Threshold.{Threshold}
use affinidi_keri_rs.Prelude.Text.{from_str_radix}
use affinidi_keri_rs.Error.{CoreResult, validation}
use affinidi_keri_rs.Ilk.{Ilk, icp, rot, ixn, dip, drt}

pub record InceptionEvent : Type 0 where
  pub version : String
  pub ilk : String
  pub said : String
  pub prefix : String
  pub sn : String
  pub keys_threshold : Threshold
  pub keys : List String
  pub next_threshold : Threshold
  pub next_keys : List String
  pub backer_threshold : String
  pub backers : List String
  pub config : List String
  pub anchors : List Value

pub record RotationEvent : Type 0 where
  pub version : String
  pub ilk : String
  pub said : String
  pub prefix : String
  pub sn : String
  pub prior_said : String
  pub keys_threshold : Threshold
  pub keys : List String
  pub next_threshold : Threshold
  pub next_keys : List String
  pub backer_threshold : String
  pub backers_remove : List String
  pub backers_add : List String
  pub config : List String
  pub anchors : List Value

pub record InteractionEvent : Type 0 where
  pub version : String
  pub ilk : String
  pub said : String
  pub prefix : String
  pub sn : String
  pub prior_said : String
  pub anchors : List Value

pub record DelegatedInceptionEvent : Type 0 where
  pub version : String
  pub ilk : String
  pub said : String
  pub prefix : String
  pub sn : String
  pub keys_threshold : Threshold
  pub keys : List String
  pub next_threshold : Threshold
  pub next_keys : List String
  pub backer_threshold : String
  pub backers : List String
  pub config : List String
  pub anchors : List Value
  pub delegator : String

pub record DelegatedRotationEvent : Type 0 where
  pub version : String
  pub ilk : String
  pub said : String
  pub prefix : String
  pub sn : String
  pub prior_said : String
  pub keys_threshold : Threshold
  pub keys : List String
  pub next_threshold : Threshold
  pub next_keys : List String
  pub backer_threshold : String
  pub backers_remove : List String
  pub backers_add : List String
  pub config : List String
  pub anchors : List Value
  pub delegator : String

pub record ReceiptEvent : Type 0 where
  pub version : String
  pub ilk : String
  pub said : String
  pub prefix : String
  pub sn : String

-- seal.rs: the seal by which a delegator points at an event.
pub record SealEvent : Type 0 where
  pub prefix : String
  pub sn : String
  pub digest : String

pub data KeyEvent : Type 0 where
  inception : InceptionEvent → KeyEvent
  rotation : RotationEvent → KeyEvent
  interaction : InteractionEvent → KeyEvent
  delegated_inception : DelegatedInceptionEvent → KeyEvent
  delegated_rotation : DelegatedRotationEvent → KeyEvent

unfoldable pub ilk : KeyEvent → Ilk
ilk (inception e) = icp
ilk (rotation e) = rot
ilk (interaction e) = ixn
ilk (delegated_inception e) = dip
ilk (delegated_rotation e) = drt

unfoldable pub sn_str : KeyEvent → String
sn_str (inception e) = e.sn
sn_str (rotation e) = e.sn
sn_str (interaction e) = e.sn
sn_str (delegated_inception e) = e.sn
sn_str (delegated_rotation e) = e.sn

unfoldable pub sn : KeyEvent → CoreResult ℕ
unfolding sn_str
sn e = ok_or (from_str_radix 16 u64_mod (sn_str e)) validation

unfoldable pub prefix : KeyEvent → String
prefix (inception e) = e.prefix
prefix (rotation e) = e.prefix
prefix (interaction e) = e.prefix
prefix (delegated_inception e) = e.prefix
prefix (delegated_rotation e) = e.prefix

unfoldable pub said : KeyEvent → String
said (inception e) = e.said
said (rotation e) = e.said
said (interaction e) = e.said
said (delegated_inception e) = e.said
said (delegated_rotation e) = e.said
