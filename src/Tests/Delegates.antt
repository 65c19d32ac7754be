-- ===== src/Tests/Delegates.antt =====
-- A delegated identifier that is created and rotates, and the signatures and receipts of an event.
use affinidi_keri_rs.Prelude.{
  ℕ, ◌≤◌, String, ◌≡◌, refl, ◌↔◌, true, not, ◌&&◌, ◌||◌, some, List, [], ◌∷◌, nat_eq, string_eq,
  pair_eq, length, retain, contains, Nodup, push_new,
}
use affinidi_keri_rs.Prelude.Result.{ok}
use affinidi_keri_rs.Json.{get_str, lookup}
use affinidi_keri_rs.Prelude.Text.{from_str_radix, to_hex}
use affinidi_keri_rs.Crypto.Diger
use affinidi_keri_rs.Crypto.Verfer
use affinidi_keri_rs.Crypto.Verfer.{Verfer}
use affinidi_keri_rs.Threshold.{simple, is_satisfied}
use affinidi_keri_rs.Serder
use affinidi_keri_rs.Delegation.{verify_delegation, any_seals, seals}
use affinidi_keri_rs.Delegation.Anchor.{Authorised, verify_delegation-eq-ok_iff}
use affinidi_keri_rs.KeyState.{
  KeyState, apply_rotation, from_delegated_inception, parse_sn, parse_backer_threshold,
  rotate_backers, add_backers, verify_next_key_commitment, apply_delegated_rotation,
}
use affinidi_keri_rs.KeyState.Backers.{contains-rotate_backers, rotate_backers-Nodup}
use affinidi_keri_rs.Kever.{
  Kever, new_delegated, verify_update_delegated, verify_sigs_static, verify_witness_receipts_static,
  verfers_from_keys, keys_match, satisfied_indices, valid_witnesses,
}
use affinidi_keri_rs.Kever.Signatures.{Counts, verify_sigs_static_sound}
use affinidi_keri_rs.Kever.Witnesses.{Witnessed, verify_witness_receipts_static_sound}
use affinidi_keri_rs.Kever.Delegated.{
  Delegated, DelegatedRotated, new_delegated_sound, verify_update_delegated_sound,
}
use affinidi_keri_rs.Tests.World.{deps, proof, boss, message, verfer, sig}
use affinidi_keri_rs.Tests.Kevers.{said-verifies}

abbrev born : KeyState
born = record {
  prefix = "SAID";
  sn = 0;
  said = "SAID";
  threshold = simple 1;
  keys = "K1" ∷ [];
  next_keys = "EK2" ∷ [];
  next_threshold = simple 1;
  backer_threshold = 0;
  backers = [];
  config = [];
  last_event_digest = "SAID";
  delegated = true;
  delegator = some "BOSS";
}

abbrev born_kever : Kever
born_kever = record { state = born; incepted = true }

abbrev rotated : KeyState
rotated = record born { sn = 1; keys = "K2" ∷ []; next_keys = []; next_threshold = simple 0 }

new_delegated-accepts :
    new_delegated deps (message "dip" "0") (sig 1 ∷ []) (verfer 1 ∷ []) proof boss ≡ ok born_kever
unfolding new_delegated Serder.ilk get_str lookup keys_match Verfer.qb64 verify_sigs_static
    satisfied_indices Verfer.verify push_new contains is_satisfied from_delegated_inception parse_sn
    parse_backer_threshold from_str_radix Diger.ct_eq verify_delegation any_seals seals to_hex
new_delegated-accepts = rw (said-verifies "dip" "0", new_delegated) refl

verify_update_delegated-accepts :
    verify_update_delegated deps born_kever (message "drt" "1") (sig 2 ∷ []) proof boss ≡ ok rotated
unfolding verify_update_delegated Serder.ilk Serder.sn get_str lookup verfers_from_keys
    Verfer.from_qb64 verify_sigs_static satisfied_indices Verfer.verify push_new contains
    is_satisfied apply_delegated_rotation apply_rotation parse_sn parse_backer_threshold
    from_str_radix verify_next_key_commitment rotate_backers add_backers retain Diger.ct_eq
    Diger.from_qb64 Diger.verify verify_delegation any_seals seals to_hex
verify_update_delegated-accepts = rw (said-verifies "drt" "1", verify_update_delegated) refl

-- One key signs twice, and an index out of range is passed over.
verify_sigs_static-accepts :
    verify_sigs_static deps [] (sig 1 ∷ sig 1 ∷ []) (verfer 1 ∷ verfer 2 ∷ []) (simple 1) ≡ ok tt
unfolding verify_sigs_static satisfied_indices Verfer.verify push_new contains is_satisfied
    Diger.ct_eq
verify_sigs_static-accepts = refl

-- The same witness twice, and a stranger.
receipts-accept :
    verify_witness_receipts_static deps []
      (("K1", 1 ∷ []) ∷ ("W1", 3 ∷ []) ∷ ("W1", 3 ∷ []) ∷ [])
      ("W1" ∷ [])
      1
    ≡ ok tt
unfolding verify_witness_receipts_static valid_witnesses Verfer.from_qb64 Verfer.verify contains
    Diger.ct_eq
receipts-accept = refl

new_delegated_sound_example :
    (Serder.ilk (message "dip" "0") ≡ ok "dip")
    × (Serder.verify_said deps (message "dip" "0") "E" ≡ ok tt)
    × Delegated deps (message "dip" "0") (sig 1 ∷ []) proof boss (verfer 1 ∷ []) born_kever
new_delegated_sound_example =
    new_delegated_sound deps (message "dip" "0") (sig 1 ∷ []) proof boss (verfer 1 ∷ []) born_kever
      new_delegated-accepts

verify_update_delegated_sound_example :
    (true ≡ true)
    × (Serder.ilk (message "drt" "1") ≡ ok "drt")
    × (Serder.verify_said deps (message "drt" "1") "E" ≡ ok tt)
    × DelegatedRotated deps (message "drt" "1") (sig 2 ∷ []) proof boss born_kever rotated
verify_update_delegated_sound_example =
    verify_update_delegated_sound deps (message "drt" "1") (sig 2 ∷ []) proof boss born_kever
      rotated verify_update_delegated-accepts

verify_delegation-eq-ok_iff_example :
    (verify_delegation deps "SAID" 1 "SAID" "BOSS" proof boss ≡ ok tt)
    ↔ Authorised deps "SAID" 1 "SAID" "BOSS" proof boss
verify_delegation-eq-ok_iff_example =
    verify_delegation-eq-ok_iff deps "SAID" 1 "SAID" "BOSS" proof boss

verify_sigs_static_sound_example :
    (indices : List ℕ) × Counts deps [] (verfer 1 ∷ verfer 2 ∷ []) (sig 1 ∷ sig 1 ∷ []) indices
    × (is_satisfied (simple 1) indices 2 ≡ true)
verify_sigs_static_sound_example =
    verify_sigs_static_sound deps [] (verfer 1 ∷ verfer 2 ∷ []) (sig 1 ∷ sig 1 ∷ []) (simple 1)
      verify_sigs_static-accepts

verify_witness_receipts_static_sound_example :
    (valid : List String) × Nodup valid
    × (1 ≤ length valid)
    × ((w : String)
        → contains valid w ≡ true
        → Witnessed deps [] ("W1" ∷ []) w (("K1", 1 ∷ []) ∷ ("W1", 3 ∷ []) ∷ ("W1", 3 ∷ []) ∷ []))
verify_witness_receipts_static_sound_example =
    verify_witness_receipts_static_sound deps [] ("W1" ∷ [])
      (("K1", 1 ∷ []) ∷ ("W1", 3 ∷ []) ∷ ("W1", 3 ∷ []) ∷ []) 1 receipts-accept

abbrev two_backers : List String
two_backers = "W1" ∷ "W2" ∷ []

abbrev add : List String
add = "W3" ∷ "W3" ∷ []

abbrev removed : List String
removed = "W1" ∷ []

two_backers-Nodup : Nodup two_backers
unfolding contains
two_backers-Nodup = (refl, (refl, tt))

contains-rotate_backers_example :
    contains (rotate_backers two_backers removed add) "W2"
    ≡ (contains add "W2" || (not (contains removed "W2") && contains two_backers "W2"))
contains-rotate_backers_example = contains-rotate_backers two_backers removed add "W2"

rotate_backers-Nodup_example : Nodup (rotate_backers two_backers removed add)
rotate_backers-Nodup_example = rotate_backers-Nodup two_backers removed add two_backers-Nodup
