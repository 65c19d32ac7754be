-- ===== src/Hab/Sads.antt =====
-- crates/affinidi-keri/src/hab.rs: the state of a local identifier, and the objects of its events.
use affinidi_keri_rs.Prelude.{
  ℕ, String, Bool, not, List, [], ◌∷◌, map, nat_eq, string_eq, pair_eq, succ_u64, length, retain,
  contains, push_new,
}
use affinidi_keri_rs.Prelude.Text.{to_decimal, to_hex}
use affinidi_keri_rs.Json.{
  Value, Fields, bool, number, unsigned, string, array, object, no_items, no_fields, with_field,
  from_list,
}
use affinidi_keri_rs.Crypto.Extern.{Bytes}
use affinidi_keri_rs.Crypto.Signer.{Signer}
use affinidi_keri_rs.Crypto.Salter.{Salter}
use affinidi_keri_rs.Config.{InceptionConfig, RotationConfig}

pub record Hab : Type 0 where
  pub name : String
  pub prefix : String
  pub signers : List Signer
  pub next_signers : List Signer
  pub salter : Salter
  pub transferable : Bool
  pub code : String
  pub last_said : String
  pub sn : ℕ
  pub key_gen : ℕ
  pub signer_gen : ℕ
  pub next_gen : ℕ
  pub backer_threshold : ℕ
  pub backers : List String

pub record HabState : Type 0 where
  pub name : String
  pub prefix : String
  pub code : String
  pub transferable : Bool
  pub signer_gen : ℕ
  pub signer_count : ℕ
  pub next_gen : ℕ
  pub next_count : ℕ
  pub key_gen : ℕ
  pub last_said : String
  pub sn : ℕ
  pub backer_threshold : ℕ
  pub backers : List String

pub record SignedEvent : Type 0 where
  pub said : String
  pub raw : Bytes
  pub signatures : Bytes
  pub composed : Bytes

abbrev pub strings : List String → Value
strings texts = array (from_list (map string texts))

unfoldable pub add_each : List String → List String → List String
unfolding push_new
add_each backers [] = backers
add_each backers (b ∷ bs) = add_each (push_new backers b) bs

-- `a.retain(|b| !remove.contains(b))`, then a push of each new one.
unfoldable pub update_backers : List String → List String → List String → List String
unfolding retain contains add_each
update_backers backers removed added =
    add_each (retain (λ b. not (contains removed b)) backers) added

unfoldable pub icp_sad : InceptionConfig → List String → List String → Fields
unfolding to_decimal
icp_sad config keys digests = with_field "v" (string "KERI10JSON000000_") (
    with_field "t" (string "icp") (
      with_field "d" (string "") (
        with_field "i" (string "") (
          with_field "s" (string "0") (
            with_field "kt" (string (to_decimal config.threshold)) (
              with_field "k" (strings keys) (
                with_field "nt" (string (to_decimal config.next_threshold)) (
                  with_field "n" (strings digests) (
                    with_field "bt" (string (to_decimal config.backer_threshold)) (
                      with_field "b" (strings config.backers) (
                        with_field "c" (strings config.config_traits)
                          (with_field "a" (array no_items) no_fields))))))))))))

unfoldable pub rot_sad : Hab → RotationConfig → List String → List String → Fields
unfolding to_decimal to_hex
rot_sad h config keys digests = with_field "v" (string "KERI10JSON000000_") (
    with_field "t" (string "rot") (
      with_field "d" (string "") (
        with_field "i" (string h.prefix) (
          with_field "s" (string (to_hex (succ_u64 h.sn))) (
            with_field "p" (string h.last_said) (
              with_field "kt" (string (to_decimal config.threshold)) (
                with_field "k" (strings keys) (
                  with_field "nt" (string (to_decimal config.next_threshold)) (
                    with_field "n" (strings digests) (
                      with_field "bt" (string (to_decimal h.backer_threshold)) (
                        with_field "br" (strings config.backers_remove) (
                          with_field "ba" (strings config.backers_add) (
                            with_field "c" (array no_items)
                              (with_field "a" (array no_items) no_fields))))))))))))))

unfoldable pub ixn_sad : Hab → List Value → Fields
unfolding to_hex
ixn_sad h anchors = with_field "v" (string "KERI10JSON000000_") (
    with_field "t" (string "ixn") (
      with_field "d" (string "") (
        with_field "i" (string h.prefix) (
          with_field "s" (string (to_hex (succ_u64 h.sn))) (
            with_field "p" (string h.last_said)
              (with_field "a" (array (from_list anchors)) no_fields))))))

unfoldable pub rct_sad : String → ℕ → Fields
unfolding to_hex
rct_sad other_prefix other_sn = with_field "v" (string "KERI10JSON000000_") (
    with_field "t" (string "rct") (
      with_field "d" (string "") (
        with_field "i" (string other_prefix)
          (with_field "s" (string (to_hex other_sn)) no_fields))))

-- The record of an identifier that was just incepted, as the store keeps it.
unfoldable pub hab_data : String → String → InceptionConfig → Value
hab_data name prefix config = object (
    with_field "name" (string name) (
      with_field "prefix" (string prefix) (
        with_field "code" (string config.code) (
          with_field "transferable" (bool config.transferable) (
            with_field "signer_gen" (number (unsigned 0)) (
              with_field "signer_count" (number (unsigned config.count)) (
                with_field "next_gen" (number (unsigned 1)) (
                  with_field "next_count" (number (unsigned config.next_count)) (
                    with_field "key_gen" (number (unsigned 2)) (
                      with_field "last_said" (string prefix) (
                        with_field "sn" (number (unsigned 0)) (
                          with_field "backer_threshold" (number (unsigned config.backer_threshold))
                            (with_field "backers" (strings config.backers) no_fields)))))))))))))

unfoldable pub state : Hab → HabState
state h = record {
  name = h.name;
  prefix = h.prefix;
  code = h.code;
  transferable = h.transferable;
  signer_gen = h.signer_gen;
  signer_count = length h.signers;
  next_gen = h.next_gen;
  next_count = length h.next_signers;
  key_gen = h.key_gen;
  last_said = h.last_said;
  sn = h.sn;
  backer_threshold = h.backer_threshold;
  backers = h.backers;
}

-- The next state of a rotation, with its new next keys.
unfoldable pub rotated : Hab → RotationConfig → List Signer → SignedEvent → Hab
unfolding update_backers
rotated h config next event =
    let next_gen = succ_u64 h.key_gen in
    record h {
      signers = h.next_signers;
      next_signers = next;
      last_said = event.said;
      sn = succ_u64 h.sn;
      key_gen = succ_u64 next_gen;
      signer_gen = h.next_gen;
      next_gen = next_gen;
      backers = update_backers h.backers config.backers_remove config.backers_add;
    }

unfoldable pub interacted : Hab → SignedEvent → Hab
interacted h event = record h { last_said = event.said; sn = succ_u64 h.sn }

abbrev pub taken : Hab → Hab
taken h = record h { next_signers = [] }

unfoldable pub new_hab :
    String → InceptionConfig → Salter → List Signer → List Signer → SignedEvent → Hab
new_hab name config salter signers next_signers event = record {
  name = name;
  prefix = event.said;
  signers = signers;
  next_signers = next_signers;
  salter = salter;
  transferable = config.transferable;
  code = config.code;
  last_said = event.said;
  sn = 0;
  key_gen = 2;
  signer_gen = 0;
  next_gen = 1;
  backer_threshold = config.backer_threshold;
  backers = config.backers;
}
