-- ===== src/Tests/Kevers.antt =====
-- An identifier that is created, rotates and interacts.
use affinidi_keri_rs.Prelude.{
  ◌+◌, ◌%◌, String, ◌≡◌, refl, ◌↔◌, ◌⊎◌, true, false, none, List, [], ◌∷◌, arith, nat_eq, string_eq,
  pair_eq, u64_mod, length, retain, contains, push_new,
}
use affinidi_keri_rs.Prelude.Result.{ok, ◌>>=◌}
use affinidi_keri_rs.Threshold.{simple, is_satisfied}
use affinidi_keri_rs.Prelude.Text.{from_str_radix}
use affinidi_keri_rs.Json.{get_str, insert, lookup}
use affinidi_keri_rs.Said
use affinidi_keri_rs.Said.{
  compute_said, digest_said, fixed_size, is_self_addressing, serialize_sad, fill, dummy,
}
use affinidi_keri_rs.Crypto.Diger
use affinidi_keri_rs.Crypto.Verfer
use affinidi_keri_rs.KeyState.{
  parse_sn, parse_backer_threshold, rotate_backers, add_backers, verify_next_key_commitment,
}
use affinidi_keri_rs.Serder
use affinidi_keri_rs.Serder.{Serder}
use affinidi_keri_rs.KeyState
use affinidi_keri_rs.KeyState.{KeyState, apply_rotation, from_inception, from_delegated_inception}
use affinidi_keri_rs.KeyState.Rotation.{Rotates, apply_rotation-eq-ok_iff}
use affinidi_keri_rs.Kever.{
  Kever, new, verify_update, update, verify_update_owned, apply_verified_update, verify_sigs_static,
  incept, verfers_from_keys, keys_match, satisfied_indices, validate_prefix_derivation,
  reject_plain_rotation_when_delegated,
}
use affinidi_keri_rs.Kever.Updates.{
  Rotated, Interacted, update-eq-verify_update, verify_update_owned_iff, verify_update_sound,
}
use affinidi_keri_rs.Kever.History.{
  WellFormed, Message, plain, plain_step, done, next, Accepts, Accepts-keeps,
}
use affinidi_keri_rs.Kever.Inception.{Incepted, new_sound}
use affinidi_keri_rs.Tests.World.{crypto, rot, deps, message, verfer, sig}

abbrev pub born : KeyState
born = record {
  prefix = "SAID";
  sn = 0;
  said = "SAID";
  threshold = simple 1;
  keys = "K1" ∷ [];
  next_keys = "EK2" ∷ [];
  next_threshold = simple 1;
  backer_threshold = 1;
  backers = "W1" ∷ [];
  config = [];
  last_event_digest = "SAID";
  delegated = false;
  delegator = none;
}

abbrev rotated : KeyState
rotated = record {
  prefix = "SAID";
  sn = 1;
  said = "SAID";
  threshold = simple 1;
  keys = "K2" ∷ [];
  next_keys = [];
  next_threshold = simple 0;
  backer_threshold = 1;
  backers = "W1" ∷ "W2" ∷ [];
  config = [];
  last_event_digest = "SAID";
  delegated = false;
  delegator = none;
}

abbrev pub born_kever : Kever
born_kever = record { state = born; incepted = true }

abbrev rotated_kever : Kever
rotated_kever = record { state = rotated; incepted = true }

abbrev anchored : KeyState
anchored = record rotated { sn = 2 }

abbrev anchored_kever : Kever
anchored_kever = record { state = anchored; incepted = true }

pub said-verifies : (ilk sn : String) → Serder.verify_said deps (message ilk sn) "E" ≡ ok tt
unfolding Serder.verify_said get_str Said.verify_said compute_said digest_said fixed_size
    is_self_addressing serialize_sad fill insert lookup dummy Diger.from_data Diger.qb64 Diger.ct_eq
said-verifies ilk sn = refl

new-accepts : new deps (message "icp" "0") (sig 1 ∷ []) (verfer 1 ∷ []) ≡ ok born_kever
unfolding new Serder.ilk get_str insert lookup incept keys_match Verfer.qb64 verify_sigs_static
    satisfied_indices Verfer.verify push_new contains is_satisfied validate_prefix_derivation
    Diger.from_qb64 from_inception parse_sn parse_backer_threshold from_str_radix Diger.ct_eq
    Diger.qb64
new-accepts = rw (said-verifies "icp" "0", new) refl

-- The pre-rotated key takes over, signed by itself.
update-accepts_rot : update deps born_kever (message "rot" "1") (sig 2 ∷ []) ≡ ok rotated_kever
unfolding update Serder.ilk Serder.sn get_str lookup reject_plain_rotation_when_delegated
    verfers_from_keys Verfer.from_qb64 verify_sigs_static satisfied_indices Verfer.verify push_new
    contains is_satisfied apply_rotation parse_sn parse_backer_threshold from_str_radix
    verify_next_key_commitment rotate_backers add_backers retain Diger.ct_eq Diger.from_qb64
    Diger.verify
update-accepts_rot = rw (said-verifies "rot" "1", update) refl

verify_update-accepts_rot :
    verify_update deps born_kever (message "rot" "1") (sig 2 ∷ []) ≡ ok rotated
unfolding verify_update Serder.ilk Serder.sn get_str lookup reject_plain_rotation_when_delegated
    verfers_from_keys Verfer.from_qb64 verify_sigs_static satisfied_indices Verfer.verify push_new
    contains is_satisfied apply_rotation parse_sn parse_backer_threshold from_str_radix
    verify_next_key_commitment rotate_backers add_backers retain Diger.ct_eq Diger.from_qb64
    Diger.verify
verify_update-accepts_rot = rw (said-verifies "rot" "1", verify_update) refl

update-accepts_ixn : update deps rotated_kever (message "ixn" "2") (sig 2 ∷ []) ≡ ok anchored_kever
unfolding update Serder.ilk Serder.sn get_str lookup verfers_from_keys Verfer.from_qb64
    verify_sigs_static satisfied_indices Verfer.verify push_new contains is_satisfied
    KeyState.apply_interaction parse_sn from_str_radix Diger.ct_eq
update-accepts_ixn = rw (said-verifies "ixn" "2", update) refl

apply_rotation-accepts : apply_rotation crypto born rot ≡ ok rotated
unfolding apply_rotation parse_sn parse_backer_threshold from_str_radix verify_next_key_commitment
    rotate_backers add_backers retain Diger.ct_eq Diger.from_qb64 Diger.verify Verfer.from_qb64
    contains push_new
apply_rotation-accepts = refl

born-WellFormed : WellFormed born
born-WellFormed = record {
  sn_fits = omega arith;
  backers_enough = omega arith;
  delegator_known = ground arith;
}

abbrev log : List (Message deps)
log = plain (message "rot" "1") (sig 2 ∷ []) ∷ plain (message "ixn" "2") (sig 2 ∷ []) ∷ []

log-Accepts : Accepts deps born_kever log anchored_kever
log-Accepts =
    next born_kever (plain (message "rot" "1") (sig 2 ∷ [])) rotated_kever
      (plain (message "ixn" "2") (sig 2 ∷ []) ∷ []) anchored_kever
      (plain_step born_kever (message "rot" "1") (sig 2 ∷ []) rotated_kever update-accepts_rot)
      (next rotated_kever (plain (message "ixn" "2") (sig 2 ∷ [])) anchored_kever [] anchored_kever
        (plain_step rotated_kever (message "ixn" "2") (sig 2 ∷ []) anchored_kever
          update-accepts_ixn)
        (done anchored_kever))

new_sound_example :
    (Serder.ilk (message "icp" "0") ≡ ok "icp")
    × (Serder.verify_said deps (message "icp" "0") "E" ≡ ok tt)
    × Incepted deps [] (message "icp" "0").sad (sig 1 ∷ []) (verfer 1 ∷ []) born_kever
new_sound_example =
    new_sound deps (message "icp" "0") (sig 1 ∷ []) (verfer 1 ∷ []) born_kever new-accepts

verify_update_sound_example :
    (true ≡ true)
    × (Serder.verify_said deps (message "rot" "1") "E" ≡ ok tt)
    × (((Serder.ilk (message "rot" "1") ≡ ok "rot")
          × Rotated deps born [] (message "rot" "1").sad (sig 2 ∷ []) rotated)
        ⊎ ((Serder.ilk (message "rot" "1") ≡ ok "ixn")
            × Interacted deps born [] (message "rot" "1").sad (sig 2 ∷ []) rotated))
verify_update_sound_example =
    verify_update_sound deps born_kever (message "rot" "1") (sig 2 ∷ []) rotated
      verify_update-accepts_rot

Accepts-keeps_example :
    (anchored.prefix ≡ born.prefix)
    × (anchored.delegated ≡ born.delegated)
    × (anchored.delegator ≡ born.delegator)
    × (anchored.sn ≡ (0 + length log) % u64_mod)
    × WellFormed anchored
Accepts-keeps_example = Accepts-keeps deps born_kever log anchored_kever born-WellFormed log-Accepts

apply_rotation-eq-ok_iff_example :
    (apply_rotation crypto born rot ≡ ok rotated) ↔ Rotates crypto born rot rotated
apply_rotation-eq-ok_iff_example = apply_rotation-eq-ok_iff crypto born rot rotated

update-eq-verify_update_example : update deps born_kever (message "rot" "1") (sig 2 ∷ []) ≡ (
    verify_update deps born_kever (message "rot" "1") (sig 2 ∷ []) >>= λ s.
    ok (apply_verified_update born_kever s))
update-eq-verify_update_example =
    update-eq-verify_update deps born_kever (message "rot" "1") (sig 2 ∷ [])

verify_update_owned_iff_example :
    (verify_update_owned deps born_kever [] (message "rot" "1").sad (sig 2 ∷ []) ≡ ok rotated)
    ↔ (verify_update deps born_kever (message "rot" "1") (sig 2 ∷ []) ≡ ok rotated)
verify_update_owned_iff_example =
    verify_update_owned_iff deps born_kever (message "rot" "1") (sig 2 ∷ []) rotated refl
