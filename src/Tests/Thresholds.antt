-- ===== src/Tests/Thresholds.antt =====
-- Weighted thresholds, message types, counter codes and seal source couples.
use affinidi_keri_rs.Prelude.{
  ℕ, ◌*◌, ◌/◌, ◌≤◌, ◌<◌, String, ◌≡◌, refl, ◌≢◌, ◌↔◌, true, false, some, List, [], ◌∷◌, arith,
  nat_eq, string_eq, pair_eq, u64_mod, All, contains,
}
use affinidi_keri_rs.Prelude.Result.{ok}
use affinidi_keri_rs.Threshold.{Weight, weighted, is_satisfied, is_signed}
use affinidi_keri_rs.Threshold.{from_json_value, to_json_value}
use affinidi_keri_rs.Threshold.RoundTrip.{IsThreshold, from_json_value-to_json_value}
use affinidi_keri_rs.Threshold.Exact.{MeetsAll, is_satisfied_sound, is_satisfied_exact}
use affinidi_keri_rs.Threshold.Within.{Fits, full_num, full_den}
use affinidi_keri_rs.Threshold.Overflow.{whole, more_signatures_lose}
use affinidi_keri_rs.CounterTable.{v2, controller_idx_sigs, code_in, classify, classify-code_in}
use affinidi_keri_rs.Delegation.{from_seal_source_couple, from_be_bytes, low_bytes}
use affinidi_keri_rs.Delegation.Source.{from_seal_source_couple_exact}
use affinidi_keri_rs.Tests.World.{crypto}

abbrev half : Weight
half = record { num = 1; den = 2 }

abbrev third : Weight
third = record { num = 1; den = 3 }

-- Two clauses: the second takes the keys from position 2 on.
abbrev clauses : List (List Weight)
clauses = (half ∷ half ∷ []) ∷ (third ∷ third ∷ third ∷ []) ∷ []

abbrev all_sign : List ℕ
all_sign = 4 ∷ 0 ∷ 1 ∷ 2 ∷ 3 ∷ []

clauses-measured : All (All (λ w. (w.den * (6 / w.den) ≡ 6) × (0 < w.den))) clauses
clauses-measured = (
  ((refl, omega arith), ((refl, omega arith), tt)),
  (((refl, omega arith), ((refl, omega arith), ((refl, omega arith), tt))), tt),
)

clauses-Fits : All Fits clauses
unfolding full_num full_den
clauses-Fits = ((omega arith, omega arith), ((omega arith, omega arith), tt))

clauses-satisfied : is_satisfied (weighted clauses) all_sign 5 ≡ true
unfolding is_satisfied is_signed contains
clauses-satisfied = refl

is_satisfied_sound_example : (clauses ≢ []) × MeetsAll 6 all_sign 5 clauses 0
is_satisfied_sound_example =
    is_satisfied_sound 6 all_sign 5 clauses clauses-measured clauses-satisfied

is_satisfied_exact_example :
    (is_satisfied (weighted clauses) all_sign 5 ≡ true)
    ↔ ((clauses ≢ []) × MeetsAll 6 all_sign 5 clauses 0)
is_satisfied_exact_example =
    is_satisfied_exact 6 all_sign 5 clauses (omega arith) clauses-measured clauses-Fits

abbrev tiny : Weight
tiny = record { num = 1; den = 4294967295 }

abbrev four_sign : List ℕ
four_sign = 0 ∷ 1 ∷ 2 ∷ 3 ∷ []

four-signed : (j : ℕ) → j < 4 → is_signed four_sign 4 j ≡ true
unfolding is_signed contains
four-signed j h = ground arith

tiny-large : u64_mod ≤ full_den (tiny ∷ tiny ∷ tiny ∷ []) 1
unfolding full_den
tiny-large = omega arith

more_signatures_lose_example :
    (is_satisfied (weighted ((whole ∷ tiny ∷ tiny ∷ tiny ∷ []) ∷ [])) (0 ∷ []) 4 ≡ true)
    × (is_satisfied (weighted ((whole ∷ tiny ∷ tiny ∷ tiny ∷ []) ∷ [])) four_sign 4 ≡ false)
more_signatures_lose_example =
    more_signatures_lose (tiny ∷ tiny ∷ tiny ∷ []) four_sign 4 (omega arith) tiny-large four-signed

code_in-v2 : code_in controller_idx_sigs v2 ≡ some "-B"
unfolding code_in
code_in-v2 = refl

classify-code_in_example : classify "-B" v2 ≡ some controller_idx_sigs
classify-code_in_example = classify-code_in controller_idx_sigs v2 "-B" code_in-v2

abbrev couple_said : String
couple_said = "SAID"

-- A nine-byte sequence number whose top byte is 0.
couple-reads :
    from_seal_source_couple
      (record crypto {
        matter_from_qb64 =
            λ s. some (record { code = "0A"; raw = 0 ∷ 0 ∷ 0 ∷ 0 ∷ 0 ∷ 0 ∷ 0 ∷ 1 ∷ 2 ∷ [] });
      })
      "SN"
      "SAID"
    ≡ ok (record { sn = 258; said = "SAID" })
unfolding from_seal_source_couple from_be_bytes low_bytes
couple-reads = refl

from_seal_source_couple_exact_example :
    (258 ≡ from_be_bytes 0 (0 ∷ 0 ∷ 0 ∷ 0 ∷ 0 ∷ 0 ∷ 0 ∷ 1 ∷ 2 ∷ []))
    × (258 < u64_mod)
    × (couple_said ≡ couple_said)
from_seal_source_couple_exact_example =
    from_seal_source_couple_exact
      (record crypto {
        matter_from_qb64 =
            λ s. some (record { code = "0A"; raw = 0 ∷ 0 ∷ 0 ∷ 0 ∷ 0 ∷ 0 ∷ 0 ∷ 1 ∷ 2 ∷ [] });
      })
      "SN" "SAID" (record { code = "0A"; raw = 0 ∷ 0 ∷ 0 ∷ 0 ∷ 0 ∷ 0 ∷ 0 ∷ 1 ∷ 2 ∷ [] })
      (record { sn = 258; said = "SAID" }) refl (ground arith) couple-reads

clauses-IsThreshold : IsThreshold (weighted clauses)
clauses-IsThreshold = (
  refl,
  (
    (
      refl,
      ((omega arith, omega arith, omega arith), ((omega arith, omega arith, omega arith), tt)),
    ),
    (
      (
        refl,
        (
          (omega arith, omega arith, omega arith),
          ((omega arith, omega arith, omega arith), ((omega arith, omega arith, omega arith), tt)),
        ),
      ),
      tt,
    ),
  ),
)

from_json_value-to_json_value_example :
    from_json_value (to_json_value (weighted clauses)) ≡ ok (weighted clauses)
from_json_value-to_json_value_example =
    from_json_value-to_json_value (weighted clauses) clauses-IsThreshold
