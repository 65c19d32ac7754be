-- ===== src/Threshold.antt =====
-- crates/affinidi-keri-core/src/threshold.rs: signing thresholds.
pub mod Exact
pub mod Within
pub mod RoundTrip
pub mod Overflow
use affinidi_keri_rs.Prelude.{
  ℕ, ◌+◌, String, Bool, true, false, not, ◌&&◌, Option, none, some, List, [], ◌∷◌, map, ltb, leb,
  if◌then◌else◌, ◌==◌, nat_eq, string_eq, u64_mod, u32_mod, checked_mul, checked_add, length,
  is_empty, contains,
}
use affinidi_keri_rs.Prelude.Result.{◌>>=◌, ◌>>◌, ok, err, guard, ok_or}
use affinidi_keri_rs.Prelude.Text.{from_str_radix, to_decimal, split_once}
use affinidi_keri_rs.Error.{CoreResult, validation}
use affinidi_keri_rs.Json
use affinidi_keri_rs.Json.{
  Value, string, number, array, from_list, to_list, as_str, as_array, as_u64,
}
use Prim.Native.String.{◌++◌ as append}

-- Two `u32`s.
pub record Weight : Type 0 where
  pub num : ℕ
  pub den : ℕ

pub data Threshold : Type 0 where
  simple : ℕ → Threshold
  weighted : List (List Weight) → Threshold

unfoldable pub new_weight : ℕ → ℕ → CoreResult Weight
new_weight num den = do guard (not (den == 0)) validation; ok (record { num = num; den = den })

unfoldable pub parse_u32 : String → CoreResult ℕ
parse_u32 s = ok_or (from_str_radix 10 u32_mod s) validation

unfoldable pub parse_fraction : String → Option (String × String) → CoreResult Weight
unfolding new_weight parse_u32
parse_fraction s none = do num ← parse_u32 s; new_weight num 1
parse_fraction s (some (num_s, den_s)) = do
  num ← parse_u32 num_s
  den ← parse_u32 den_s
  new_weight num den

unfoldable pub parse_weight : String → CoreResult Weight
unfolding parse_fraction
parse_weight s = parse_fraction s (split_once b'/' s)

unfoldable pub to_fraction_string : Weight → String
to_fraction_string w =
    if w.den == 1
    then to_decimal w.num
    else append (to_decimal w.num) (append "/" (to_decimal w.den))

-- A numeric threshold must be at least 1.
unfoldable pub positive : ℕ → CoreResult Threshold
positive n = do guard (not (n == 0)) validation; ok (simple n)

unfoldable pub parse_weights : List Value → CoreResult (List Weight)
unfolding parse_weight
parse_weights [] = ok []
parse_weights (w ∷ ws) = do
  s ← ok_or (as_str w) validation
  weight ← parse_weight s
  weights ← parse_weights ws
  ok (weight ∷ weights)

unfoldable pub parse_clauses : List Value → CoreResult (List (List Weight))
unfolding parse_weights
parse_clauses [] = ok []
parse_clauses (clause ∷ clauses) = do
  arr ← ok_or (as_array clause) validation
  guard (not (is_empty arr)) validation
  weights ← parse_weights arr
  rest ← parse_clauses clauses
  ok (weights ∷ rest)

unfoldable pub from_json_value : Value → CoreResult Threshold
unfolding positive parse_clauses
from_json_value (string s) = do n ← ok_or (from_str_radix 10 u64_mod s) validation; positive n
from_json_value (number n) = do n ← ok_or (as_u64 n) validation; positive n
from_json_value (array clauses) = do
  guard (not (is_empty (to_list clauses))) validation
  parsed ← parse_clauses (to_list clauses)
  ok (weighted parsed)
from_json_value _ = err validation

unfoldable pub to_json_value : Threshold → Value
unfolding to_fraction_string
to_json_value (simple n) = string (to_decimal n)
to_json_value (weighted clauses) = array (
    from_list
      (map (λ clause. array (from_list (map (λ w. string (to_fraction_string w)) clause))) clauses))

-- The running sum of a clause, and the position of the next key.
pub record Sum : Type 0 where
  pub num : ℕ
  pub den : ℕ
  pub key_idx : ℕ

-- a/b + c/d in checked `u64` arithmetic.
unfoldable pub add_weight : Weight → Sum → Option Sum
add_weight w s = elim (checked_mul s.num w.den) [
  | none ↦ none
  | some a ↦ elim (checked_mul w.num s.den) [
    | none ↦ none
    | some b ↦ elim (checked_add a b) [
      | none ↦ none
      | some new_num ↦ elim (checked_mul s.den w.den) [
        | none ↦ none
        | some new_den ↦ some (record s { num = new_num; den = new_den })
      ]
    ]
  ]
]

module _ (indices : List ℕ) (total_keys : ℕ) where
  unfoldable pub is_signed : ℕ → Bool
  is_signed key_idx = ltb key_idx total_keys && contains indices key_idx

  unfoldable pub count_weight : Weight → Sum → Option Sum
  unfolding is_signed add_weight
  count_weight w s = if is_signed s.key_idx then add_weight w s else some s

  -- One clause; `none` where the addition overflows.
  unfoldable pub sum_clause : List Weight → Sum → Option Sum
  unfolding count_weight
  sum_clause [] s = some s
  sum_clause (w ∷ ws) s = elim (count_weight w s) [
    | none ↦ none
    | some s' ↦ sum_clause ws (record s' { key_idx = s'.key_idx + 1 })
  ]

  -- Every clause from the key position on; a clause that overflows or falls short ends the loop.
  unfoldable pub all_satisfied : List (List Weight) → ℕ → Bool
  unfolding sum_clause
  all_satisfied [] key_idx = true
  all_satisfied (clause ∷ clauses) key_idx =
      elim (sum_clause clause (record { num = 0; den = 1; key_idx = key_idx })) [
        | none ↦ false
        | some s ↦
            (let rest = all_satisfied clauses s.key_idx in if ltb s.num s.den then false else rest)
      ]

unfoldable pub is_satisfied : Threshold → List ℕ → ℕ → Bool
unfolding all_satisfied
is_satisfied (simple k) indices total_keys = ltb 0 k && leb k (length indices)
is_satisfied (weighted clauses) indices total_keys =
    not (is_empty clauses) && all_satisfied indices total_keys clauses 0
