-- ===== src/Tests/Escrows.antt =====
-- An escrow that takes, releases, promotes and prunes.
use affinidi_keri_rs.Prelude.{
  ℕ, ◌+◌, ◌↔◌, ◌≤◌, ◌<◌, String, ◌≡◌, refl, ap, ◌≢◌, none, some, List, [], ◌∷◌, ◌++◌, map, arith,
  if◌then◌else◌, ◌==◌, nat_eq, string_eq, pair_eq, succ_u64, length, contains, Nodup, push_new,
}
use affinidi_keri_rs.Prelude.Map.{find, Unique, absent, sum_values}
use affinidi_keri_rs.Escrow
use affinidi_keri_rs.Escrow.{
  Escrow, EscrowedEvent, PartiallyWitnessedEntry, max_escrow_entries, max_entries_per_key,
  entries_of, total_count, escrow_out_of_order, escrow_partially_witnessed, add_witness_receipt,
  process_escrow, check_and_promote_witnessed, unique_witnesses, prune, is_fresh,
  out_of_order_count, partially_signed_count, partially_witnessed_count, event_count, push_entry,
}
use affinidi_keri_rs.Escrow.Bounds.{Bounded, Reachable, start, step, Reachable-Bounded}
use affinidi_keri_rs.Escrow.Bounds
use affinidi_keri_rs.Escrow.Release.{
  process_escrow-escrow_out_of_order, check_and_promote_witnessed_sound, prune_exact, Pruned,
}
use affinidi_keri_rs.Tests.World.{message}

abbrev waiting : Escrow
waiting = escrow_out_of_order 100 Escrow.new "SAID" 2 (message "ixn" "2") []

abbrev entry : PartiallyWitnessedEntry
entry = record {
  serder = message "rot" "1";
  signatures = [];
  receipts = ("W1", 1 ∷ []) ∷ ("W1", 1 ∷ []) ∷ ("W2", 2 ∷ []) ∷ [];
  backer_threshold = 2;
  escrowed_at = 100;
}

abbrev witnessed : Escrow
witnessed = record {
  out_of_order = [];
  partially_signed = [];
  partially_witnessed = (("SAID", 1), entry) ∷ [];
}

abbrev event : ℕ → EscrowedEvent
event at = record { serder = message "ixn" "2"; signatures = []; escrowed_at = at }

abbrev aged : Escrow
aged = record {
  out_of_order = (("SAID", 2), event 10 ∷ event 90 ∷ []) ∷ (("SAID", 3), event 20 ∷ []) ∷ [];
  partially_signed = (("SAID", 2), event 49 ∷ event 50 ∷ event 51 ∷ []) ∷ [];
  partially_witnessed = (("SAID", 2), entry) ∷ [];
}

waiting-Reachable : Reachable waiting
waiting-Reachable =
    step Escrow.new waiting start
      (Bounds.out_of_order_step 100 Escrow.new "SAID" 2 (message "ixn" "2") [])

Reachable-Bounded_example : Bounded waiting
Reachable-Bounded_example = Reachable-Bounded waiting waiting-Reachable

room : total_count Escrow.new < max_escrow_entries
unfolding total_count out_of_order_count partially_signed_count partially_witnessed_count
    event_count Escrow.new sum_values
room = omega arith

place : length (entries_of Escrow.new.out_of_order ("SAID", succ_u64 1)) < max_entries_per_key
unfolding entries_of Escrow.new find
place = omega arith

process_escrow-escrow_out_of_order_example :
    ((process_escrow waiting "SAID" 1).0
      ≡ entries_of Escrow.new.out_of_order ("SAID", 2)
        ++ record { serder = message "ixn" "2"; signatures = []; escrowed_at = 100 } ∷ [])
    × ((process_escrow (process_escrow waiting "SAID" 1).1 "SAID" 1).0 ≡ [])
process_escrow-escrow_out_of_order_example =
    process_escrow-escrow_out_of_order 100 Escrow.new "SAID" 1 (message "ixn" "2") [] room place

abbrev at : ℕ → String × ℕ
at sn = ("SAID", sn)

three_two : ◌≡◌ {A = ℕ} 3 2 → ⊥
three_two n = omega arith

other_key : at 3 ≢ at (succ_u64 1)
other_key e = absurd (three_two (ap (λ k. k.1) e))

promotes : (check_and_promote_witnessed witnessed "SAID" 1).0 ≡ some entry
unfolding check_and_promote_witnessed find unique_witnesses push_new contains
promotes = refl

check_and_promote_witnessed_sound_example :
    (find witnessed.partially_witnessed ("SAID", 1) ≡ some entry)
    × ((witnesses : List String) × Nodup witnesses
        × (2 ≤ length witnesses)
        × ((w : String) → contains witnesses w ≡ contains (map (λ r. r.0) entry.receipts) w))
    × ((key : String × ℕ)
        → find (check_and_promote_witnessed witnessed "SAID" 1).1.partially_witnessed key
          ≡ (if key == ("SAID", 1) then none else find witnessed.partially_witnessed key))
check_and_promote_witnessed_sound_example =
    check_and_promote_witnessed_sound witnessed "SAID" 1 entry promotes

aged-Unique : Unique aged.out_of_order
unfolding absent find
aged-Unique = (refl, (refl, tt))

prune_exact_example :
    Pruned 100 50
      (entries_of aged.out_of_order ("SAID", 2))
      (entries_of (prune 100 aged 50).out_of_order ("SAID", 2))
    × Pruned 100 50
        (entries_of aged.partially_signed ("SAID", 2))
        (entries_of (prune 100 aged 50).partially_signed ("SAID", 2))
    × ((found : PartiallyWitnessedEntry)
        → (find (prune 100 aged 50).partially_witnessed ("SAID", 2) ≡ some found) ↔ (
            (find aged.partially_witnessed ("SAID", 2) ≡ some found)
            × (100 ≤ found.escrowed_at + 50)))
unfolding absent find
prune_exact_example = prune_exact 100 aged 50 ("SAID", 2) aged-Unique (refl, tt) (refl, tt)
