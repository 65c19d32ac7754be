-- ===== src/KeyState.antt =====
-- crates/affinidi-keri-core/src/key_state.rs: the key state of an identifier, and what each event
-- does to it.
pub mod Rotation
pub mod Backers
use affinidi_keri_rs.Prelude.{
  ℕ, String, Bool, true, false, not, Option, none, some, List, [], ◌∷◌, leb, ◌==◌, nat_eq,
  string_eq, u64_mod, succ_u64, length, retain, contains, push_new,
}
use affinidi_keri_rs.Prelude.Result.{◌>>=◌, ◌>>◌, ok, guard, ok_or, map_err}
use affinidi_keri_rs.Prelude.Text.{codes, from_str_radix}
use affinidi_keri_rs.Crypto.Extern.{Extern}
use affinidi_keri_rs.Crypto.Verfer
use affinidi_keri_rs.Crypto.Diger
use affinidi_keri_rs.Error.{CoreError, CoreResult, validation, invalid_prefix, out_of_order}
use affinidi_keri_rs.Threshold.{Threshold, simple}
use affinidi_keri_rs.Event.{
  InceptionEvent, DelegatedInceptionEvent, RotationEvent, DelegatedRotationEvent, InteractionEvent,
}

pub record KeyState : Type 0 where
  pub prefix : String
  pub sn : ℕ
  pub said : String
  pub threshold : Threshold
  pub keys : List String
  pub next_keys : List String
  pub next_threshold : Threshold
  pub backer_threshold : ℕ
  pub backers : List String
  pub config : List String
  pub last_event_digest : String
  pub delegated : Bool
  pub delegator : Option String

unfoldable pub new : String → KeyState
new prefix = record {
  prefix = prefix;
  sn = 0;
  said = "";
  threshold = simple 0;
  keys = [];
  next_keys = [];
  next_threshold = simple 0;
  backer_threshold = 0;
  backers = [];
  config = [];
  last_event_digest = "";
  delegated = false;
  delegator = none;
}

-- A hexadecimal sequence number.
unfoldable pub parse_sn : String → CoreResult ℕ
parse_sn s = ok_or (from_str_radix 16 u64_mod s) validation

unfoldable pub parse_backer_threshold : String → CoreResult ℕ
parse_backer_threshold s = ok_or (from_str_radix 10 u64_mod s) validation

unfoldable pub from_inception : InceptionEvent → CoreResult KeyState
from_inception event = do
  sn ← parse_sn event.sn
  guard (sn == 0) validation
  backer_threshold ← parse_backer_threshold event.backer_threshold
  guard (leb backer_threshold (length event.backers)) validation
  ok (record {
    prefix = event.prefix;
    sn = 0;
    said = event.said;
    threshold = event.keys_threshold;
    keys = event.keys;
    next_keys = event.next_keys;
    next_threshold = event.next_threshold;
    backer_threshold = backer_threshold;
    backers = event.backers;
    config = event.config;
    last_event_digest = event.said;
    delegated = false;
    delegator = none;
  })

unfoldable pub from_delegated_inception : DelegatedInceptionEvent → CoreResult KeyState
from_delegated_inception event = do
  sn ← parse_sn event.sn
  guard (sn == 0) validation
  guard (not (event.delegator == "")) validation
  backer_threshold ← parse_backer_threshold event.backer_threshold
  guard (leb backer_threshold (length event.backers)) validation
  ok (record {
    prefix = event.prefix;
    sn = 0;
    said = event.said;
    threshold = event.keys_threshold;
    keys = event.keys;
    next_keys = event.next_keys;
    next_threshold = event.next_threshold;
    backer_threshold = backer_threshold;
    backers = event.backers;
    config = event.config;
    last_event_digest = event.said;
    delegated = true;
    delegator = some event.delegator;
  })

-- The witnesses after a rotation: those removed go, then those added come at the end, once each.
unfoldable pub add_backers : List String → List String → List String
add_backers backers [] = backers
add_backers backers (b ∷ bs) = add_backers (push_new backers b) bs

unfoldable pub rotate_backers : List String → List String → List String → List String
rotate_backers backers remove add = add_backers (retain (λ b. not (contains remove b)) backers) add

-- The rotation that a delegated rotation stands for, without its delegator.
abbrev pub as_rotation : DelegatedRotationEvent → RotationEvent
as_rotation event = record {
  version = event.version;
  ilk = event.ilk;
  said = event.said;
  prefix = event.prefix;
  sn = event.sn;
  prior_said = event.prior_said;
  keys_threshold = event.keys_threshold;
  keys = event.keys;
  next_threshold = event.next_threshold;
  next_keys = event.next_keys;
  backer_threshold = event.backer_threshold;
  backers_remove = event.backers_remove;
  backers_add = event.backers_add;
  config = event.config;
  anchors = event.anchors;
}

module _ (x : Extern) where
  -- One key against the digest at its place.
  unfoldable pub verify_commitment : String → String → CoreResult (Unit {0})
  verify_commitment key_qb64 digest_qb64 = do
    verfer ← map_err (Verfer.from_qb64 x key_qb64) (λ e. validation)
    diger ← map_err (Diger.from_qb64 x digest_qb64) (λ e. validation)
    matches ← map_err (Diger.verify x diger (codes key_qb64)) (λ e. validation)
    guard matches validation

  -- The zip of the keys and the digests.
  unfoldable pub verify_commitments : List String → List String → CoreResult (Unit {0})
  unfolding verify_commitment
  verify_commitments [] _ = ok tt
  verify_commitments (k ∷ ks) [] = ok tt
  verify_commitments (k ∷ ks) (d ∷ ds) = do verify_commitment k d; verify_commitments ks ds

  unfoldable pub verify_next_key_commitment : List String → List String → CoreResult (Unit {0})
  unfolding verify_commitments
  verify_next_key_commitment keys next_keys = do
    guard (length keys == length next_keys) validation
    verify_commitments keys next_keys

  unfoldable pub apply_rotation : KeyState → RotationEvent → CoreResult KeyState
  apply_rotation s event = do
    sn ← parse_sn event.sn
    guard (sn == succ_u64 s.sn) (out_of_order (succ_u64 s.sn) sn)
    guard (event.prefix == s.prefix) invalid_prefix
    guard (event.prior_said == s.last_event_digest) validation
    verify_next_key_commitment event.keys s.next_keys
    backer_threshold ← parse_backer_threshold event.backer_threshold
    let new_backers = rotate_backers s.backers event.backers_remove event.backers_add
    guard (leb backer_threshold (length new_backers)) validation
    ok (record {
      prefix = s.prefix;
      sn = sn;
      said = event.said;
      threshold = event.keys_threshold;
      keys = event.keys;
      next_keys = event.next_keys;
      next_threshold = event.next_threshold;
      backer_threshold = backer_threshold;
      backers = new_backers;
      config = event.config;
      last_event_digest = event.said;
      delegated = s.delegated;
      delegator = s.delegator;
    })

  unfoldable pub apply_delegated_rotation : KeyState → DelegatedRotationEvent → CoreResult KeyState
  apply_delegated_rotation s event = do
    guard s.delegated validation
    known ← ok_or s.delegator validation
    guard (known == event.delegator) validation
    apply_rotation s (as_rotation event)

unfoldable pub apply_interaction : KeyState → InteractionEvent → CoreResult KeyState
apply_interaction s event = do
  sn ← parse_sn event.sn
  guard (sn == succ_u64 s.sn) (out_of_order (succ_u64 s.sn) sn)
  guard (event.prefix == s.prefix) invalid_prefix
  guard (event.prior_said == s.last_event_digest) validation
  ok (record s { sn = sn; last_event_digest = event.said })
