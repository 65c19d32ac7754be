-- ===== src/Json/Insertion.antt =====
-- `get` and `insert` on the fields of an object.
use affinidi_keri_rs.Prelude.{
  String, ◌≡◌, refl, Bool, true, false, Option, none, some, arith, eq_iff, ◌==◌, string_eq, nat_eq,
  if◌then◌else◌, ◌≢◌,
}
use affinidi_keri_rs.Json.{Value, Fields, no_fields, with_field, lookup, insert}

abbrev pub is_some : Option Value → Bool
is_some none = false
is_some (some v) = true

pub lookup-insert :
    (k j : String) (v : Value) (fs : Fields)
    → lookup k (insert j v fs) ≡ (if j == k then some v else lookup k fs)
unfolding lookup insert
lookup-insert k j v no_fields = refl
lookup-insert k j v (with_field i w fs) =
    ground (arith, lookup-insert k j v fs, eq_iff i j, eq_iff i k, eq_iff j k)

-- The second of two insertions under a key is the one that counts.
pub insert-insert :
    (k : String) (v w : Value) (fs : Fields) → insert k v (insert k w fs) ≡ insert k v fs
unfolding insert
insert-insert k v w no_fields = ground (arith, eq_iff k k)
insert-insert k v w (with_field i x fs) = ground (arith, insert-insert k v w fs)

-- Insertions under different keys commute, when one of the keys keeps its place.
pub insert_comm :
    (k j : String) (v w : Value) (fs : Fields)
    → k ≢ j
    → is_some (lookup k fs) ≡ true
    → insert k v (insert j w fs) ≡ insert j w (insert k v fs)
unfolding lookup insert
insert_comm k j v w no_fields d h = absurd (ground arith)
insert_comm k j v w (with_field i x fs) d h =
    ground (arith, insert_comm k j v w fs d, eq_iff i k, eq_iff i j)
