-- ===== src/Tests/Saids.antt =====
-- An identifier that is computed and verified.
use affinidi_keri_rs.Prelude.{
  String, ◌≡◌, refl, ◌↔◌, Bool, true, false, arith, eq_iff, ◌==◌, nat_eq, string_eq, pair_eq,
}
use affinidi_keri_rs.Prelude.Result.{ok}
use affinidi_keri_rs.Json.{Value, Fields, object, string, no_fields, with_field, lookup, insert}
use affinidi_keri_rs.Crypto.Diger
use affinidi_keri_rs.Version.{json}
use affinidi_keri_rs.Deps.{Deps}
use affinidi_keri_rs.Said.{
  compute_said, verify_said, digest_said, fixed_size, is_self_addressing, serialize_sad, fill,
  dummy,
}
use affinidi_keri_rs.Said.Verification.{compute_said-verify_said}
use affinidi_keri_rs.Tests.World.{deps}

abbrev same_string : Value → Value → Bool
same_string (string s) (string t) = s == t
same_string _ _ = false

abbrev comparing : Deps
comparing = record deps { value_eq = same_string }

same_string_iff :
    (t : String) (v : Value) → (comparing.value_eq (string t) v ≡ true) ↔ (string t ≡ v)
same_string_iff t (string s) = ground (arith, eq_iff t s)
same_string_iff t v = ground arith

-- Neither field has its value yet.
abbrev blank : Fields
blank = with_field "d" (string "") (with_field "i" (string "") no_fields)

abbrev filled : Value
filled = object (with_field "d" (string "SAID") (with_field "i" (string "SAID") no_fields))

compute_said-computes : compute_said comparing (object blank) "d" "E" json ≡ ok ("SAID", filled)
unfolding compute_said digest_said fixed_size is_self_addressing serialize_sad fill dummy lookup
    insert Diger.from_data Diger.qb64 Diger.ct_eq
compute_said-computes = refl

blank-self_addressing : is_self_addressing comparing "d" blank ≡ false → ⊥
unfolding is_self_addressing lookup
blank-self_addressing h = ground arith

compute_said-verify_said_example : verify_said comparing filled "d" "E" json ≡ ok tt
compute_said-verify_said_example =
    compute_said-verify_said comparing same_string_iff blank "d" "E" "SAID" json filled
      (λ h. absurd (blank-self_addressing h)) compute_said-computes
