-- ===== src/Threshold/RoundTrip.antt =====
-- Printing a threshold as JSON and parsing it back.
use affinidi_keri_rs.Prelude.{
  ℕ, zero, suc, ◌/◌, ◌%◌, ◌<◌, String, ◌≡◌, refl, ap, ◌∙◌, inl, inr, false, none, some, List, [],
  ◌∷◌, map, arith, ltb, nat_beq, ltb→lt, nat_beq_iff, Bool-cases, Option-cases, ◌==◌, nat_eq,
  string_eq, pair_eq, u64_mod, u32_mod, is_empty, All,
}
use affinidi_keri_rs.Prelude.Result.{ok}
use Prim.Native.Char.{code}
use Prim.Native.String.{◌++◌ as append}
use text.Mathlib.TextLemmas.{cons-append, nil-append}
use affinidi_keri_rs.Prelude.Text.{to_digit, digit_char, format_digits, to_decimal, split_once}
use affinidi_keri_rs.Prelude.Format.{below_16, from_str_radix-to_decimal, from_str_radix_decimal}
use affinidi_keri_rs.Json.{Value, string, array, from_list, to_list}
use affinidi_keri_rs.Threshold.{
  Weight, Threshold, simple, weighted, new_weight, parse_u32, parse_fraction, parse_weight,
  to_fraction_string, positive, parse_weights, parse_clauses, from_json_value, to_json_value,
}

slash_none : to_digit 10 b'/' ≡ none
unfolding to_digit
slash_none = refl

digit-not_slash : (d : ℕ) → d < 10 → nat_beq (code (digit_char d)) b'/' ≡ false
digit-not_slash d h = elim (Bool-cases (nat_beq (code (digit_char d)) b'/')) [
  | inr e ↦ e
  | inl e ↦
      (let c : code (digit_char d) ≡ b'/' = (nat_beq_iff _ _).0 e in
        let digit = below_16 10 d (omega arith) h in
        absurd (ground (arith, digit, slash_none, ap (to_digit 10) c)))
]

append_digits :
    (k n : ℕ) (acc s : String)
    → append (format_digits 10 k n acc) s ≡ format_digits 10 k n (append acc s)
unfolding format_digits
append_digits zero n acc s = refl
append_digits (suc k) n acc s = elim (Bool-cases (ltb n 10)) [
  | inl e ↦ rw e (cons-append (digit_char n) acc s)
  | inr e ↦ rw e (
      append_digits k (n / 10) (String.◌∷◌ (digit_char (n % 10)) acc) s
      ∙ ap (format_digits 10 k (n / 10)) (cons-append (digit_char (n % 10)) acc s))
]

-- A digit in front is passed over.
split_once-digit :
    (d : ℕ) (s : String)
    → d < 10
    → split_once b'/' (String.◌∷◌ (digit_char d) s) ≡ (elim (split_once b'/' s) [
      | none ↦ none
      | some p ↦ some (String.◌∷◌ (digit_char d) p.0, p.1)
    ])
unfolding split_once
split_once-digit d s h = elim (Option-cases (split_once b'/' s)) [
  | inl e ↦ rw (e, digit-not_slash d h) refl
  | inr (p, e) ↦ rw (e, digit-not_slash d h) refl
]

split_once-digits_none :
    (k n : ℕ) (acc : String)
    → split_once b'/' acc ≡ none
    → split_once b'/' (format_digits 10 k n acc) ≡ none
unfolding format_digits
split_once-digits_none zero n acc h = h
split_once-digits_none (suc k) n acc h = elim (Bool-cases (ltb n 10)) [
  | inl e ↦ rw (e, split_once-digit n acc (ltb→lt n 10 e), h) refl
  | inr e ↦ rw e (
      split_once-digits_none k (n / 10) (String.◌∷◌ (digit_char (n % 10)) acc)
        (rw (split_once-digit (n % 10) acc (omega arith), h) refl))
]

split_once-digits_some :
    (k n : ℕ) (acc a b : String)
    → split_once b'/' acc ≡ some (a, b)
    → split_once b'/' (format_digits 10 k n acc) ≡ some (format_digits 10 k n a, b)
unfolding format_digits
split_once-digits_some zero n acc a b h = h
split_once-digits_some (suc k) n acc a b h = elim (Bool-cases (ltb n 10)) [
  | inl e ↦ rw (e, split_once-digit n acc (ltb→lt n 10 e), h) refl
  | inr e ↦ rw e (
      split_once-digits_some k (n / 10) (String.◌∷◌ (digit_char (n % 10)) acc)
        (String.◌∷◌ (digit_char (n % 10)) a) b
        (rw (split_once-digit (n % 10) acc (omega arith), h) refl))
]

split_once-to_decimal : (n : ℕ) → split_once b'/' (to_decimal n) ≡ none
unfolding to_decimal
split_once-to_decimal n = split_once-digits_none 20 n "" (unfold split_once in refl)

split_once-slash :
    (s : String) → split_once b'/' s ≡ none → split_once b'/' (String.◌∷◌ "/" s) ≡ some ("", s)
unfolding split_once
split_once-slash s h = ground (arith, h)

-- A slash between two numbers is where they are split.
split_once-fraction :
    (n m : ℕ)
    → split_once b'/' (append (to_decimal n) (append "/" (to_decimal m)))
      ≡ some (to_decimal n, to_decimal m)
unfolding to_decimal
split_once-fraction n m =
    let slash : append "/" (to_decimal m) ≡ String.◌∷◌ "/" (to_decimal m) =
      cons-append "/" "" (to_decimal m) ∙ ap (String.◌∷◌ "/") (nil-append (to_decimal m)) in
    let found : split_once b'/' (String.◌∷◌ "/" (to_decimal m)) ≡ some ("", to_decimal m) =
      split_once-slash (to_decimal m) (split_once-to_decimal m) in
    rw slash (
      rw
        (
          append_digits 20 n "" (String.◌∷◌ "/" (to_decimal m)),
          nil-append (String.◌∷◌ "/" (to_decimal m)),
        )
        (split_once-digits_some 20 n (String.◌∷◌ "/" (to_decimal m)) "" (to_decimal m) found))

-- Two `u32`s, the second not 0.
abbrev pub IsWeight : Weight → Type 0
IsWeight w = (w.num < u32_mod) × (w.den < u32_mod) × (0 < w.den)

parse_weight-to_fraction_string :
    (w : Weight) → IsWeight w → parse_weight (to_fraction_string w) ≡ ok w
unfolding parse_weight parse_fraction to_fraction_string parse_u32 new_weight
parse_weight-to_fraction_string w (n, d, pos) =
    let num = from_str_radix_decimal u32_mod w.num n (omega arith) in
    let den = from_str_radix_decimal u32_mod w.den d (omega arith) in
    elim (Bool-cases (w.den == 1)) [
      | inl e ↦ rw (e, split_once-to_decimal w.num, num) (ground arith)
      | inr e ↦ rw (e, split_once-fraction w.num w.den, num, den) (ground arith)
    ]

to_list-from_list : (vs : List Value) → to_list (from_list vs) ≡ vs
to_list-from_list [] = refl
to_list-from_list (v ∷ vs) = ap (λ t. v ∷ t) (to_list-from_list vs)

parse_weights-printed :
    (ws : List Weight)
    → All IsWeight ws
    → parse_weights (map (λ w. string (to_fraction_string w)) ws) ≡ ok ws
unfolding parse_weights
parse_weights-printed [] h = refl
parse_weights-printed (w ∷ ws) h =
    rw (parse_weight-to_fraction_string w h.0, parse_weights-printed ws h.1) refl

-- A clause with a weight, all of them weights.
abbrev pub IsClause : List Weight → Type 0
IsClause c = (is_empty c ≡ false) × All IsWeight c

is_empty-map :
    (c : List Weight) → is_empty (map (λ w. string (to_fraction_string w)) c) ≡ is_empty c
is_empty-map [] = refl
is_empty-map (w ∷ c) = refl

abbrev printed : List Weight → Value
printed clause = array (from_list (map (λ w. string (to_fraction_string w)) clause))

parse_clauses-printed :
    (cs : List (List Weight)) → All IsClause cs → parse_clauses (map printed cs) ≡ ok cs
unfolding parse_clauses
parse_clauses-printed [] h = refl
parse_clauses-printed (c ∷ cs) h =
    rw
      (
        to_list-from_list (map (λ w. string (to_fraction_string w)) c),
        is_empty-map c,
        h.0.0,
        parse_weights-printed c h.0.1,
        parse_clauses-printed cs h.1,
      )
      refl

array_parses :
    (vs : List Value) (cs : List (List Weight))
    → is_empty vs ≡ false
    → parse_clauses vs ≡ ok cs
    → from_json_value (array (from_list vs)) ≡ ok (weighted cs)
unfolding from_json_value
array_parses vs cs e p = rw (to_list-from_list vs, e, p) refl

-- The thresholds that parsing accepts.
abbrev pub IsThreshold : Threshold → Type 0
IsThreshold (simple n) = (0 < n) × (n < u64_mod)
IsThreshold (weighted cs) = (is_empty cs ≡ false) × All IsClause cs

-- A threshold that could have been parsed is read back from its JSON form as it was: a positive
-- `usize`, or clauses with weights of `u32`s whose denominators are not 0.
pub from_json_value-to_json_value :
    (t : Threshold) → IsThreshold t → from_json_value (to_json_value t) ≡ ok t
unfolding from_json_value to_json_value positive
from_json_value-to_json_value (simple n) (pos, h) =
    rw (from_str_radix-to_decimal n h) (ground arith)
from_json_value-to_json_value (weighted (c ∷ cs)) (some_clause, h) =
    array_parses (map printed (c ∷ cs)) (c ∷ cs) refl (parse_clauses-printed (c ∷ cs) h)
from_json_value-to_json_value (weighted []) (some_clause, h) = absurd (ground arith)
