-- ===== src/Prelude/Text.antt =====
-- Text as the program walks it: the code points of a string, unsigned parsing as in Rust's
-- `from_str_radix` and `parse`, and formatting as in `{}` and `{:x}`.
use Prim.Native.Nat.{ℕ, zero, suc, ◌+◌, ◌-◌, ◌*◌, ◌/◌, ◌%◌}
use Prim.Native.Char.{Char, code}
use Prim.Native.String.{String}
use mathlib.Core.Bool.{◌&&◌}
use mathlib.Core.List.{List, [], ◌∷◌}
use mathlib.Core.Option.{Option, none, some}
use affinidi_keri_rs.Prelude.Tests.{ltb, leb, nat_beq, if◌then◌else◌}

-- `String` has its own `[]` and `∷`.
abbrev pub codes : String → List ℕ
codes String.[] = []
codes (String.◌∷◌ c s) = code c ∷ codes s

-- `char::to_digit`: the value of a digit in a base up to 36.
unfoldable pub to_digit : ℕ → ℕ → Option ℕ
to_digit radix c =
    let below = λ (d : ℕ). if ltb d radix then some d else none in
    if leb b'0' c && leb c b'9'
    then below (c - b'0')
    else if leb b'a' c && leb c b'z'
    then below (c - b'a' + 10)
    else if leb b'A' c && leb c b'Z'
    then below (c - b'A' + 10)
    else none

-- The digits after an optional sign, most significant first. A value of `bound` or more is an
-- overflow.
unfoldable pub parse_digits : ℕ → ℕ → ℕ → List ℕ → Option ℕ
parse_digits radix bound acc [] = some acc
parse_digits radix bound acc (c ∷ cs) = elim (to_digit radix c) [
  | none ↦ none
  | some d ↦
      (let n = acc * radix + d in
        let rest = parse_digits radix bound n cs in if ltb n bound then rest else none)
]

unfoldable pub unsigned : ℕ → ℕ → List ℕ → Option ℕ
unfolding parse_digits to_digit
unsigned radix bound [] = none
unsigned radix bound (c ∷ []) = parse_digits radix bound 0 (c ∷ [])
unsigned radix bound (c ∷ d ∷ cs) =
    if nat_beq c b'+'
    then parse_digits radix bound 0 (d ∷ cs)
    else parse_digits radix bound 0 (c ∷ d ∷ cs)

-- `T::from_str_radix` of an unsigned `T` with the values below `bound`: a leading `+` is accepted,
-- no digit is an error.
unfoldable pub from_str_radix : ℕ → ℕ → String → Option ℕ
unfolding unsigned
from_str_radix radix bound s = unsigned radix bound (codes s)

-- The character of a digit below 16, as `{:x}` writes it.
unfoldable pub digit_char : ℕ → Char
digit_char zero = "0"
digit_char (suc zero) = "1"
digit_char (suc (suc zero)) = "2"
digit_char (suc (suc (suc zero))) = "3"
digit_char (suc (suc (suc (suc zero)))) = "4"
digit_char (suc (suc (suc (suc (suc zero))))) = "5"
digit_char (suc (suc (suc (suc (suc (suc zero)))))) = "6"
digit_char (suc (suc (suc (suc (suc (suc (suc zero))))))) = "7"
digit_char (suc (suc (suc (suc (suc (suc (suc (suc zero)))))))) = "8"
digit_char (suc (suc (suc (suc (suc (suc (suc (suc (suc zero))))))))) = "9"
digit_char (suc (suc (suc (suc (suc (suc (suc (suc (suc (suc zero)))))))))) = "a"
digit_char (suc (suc (suc (suc (suc (suc (suc (suc (suc (suc (suc zero))))))))))) = "b"
digit_char (suc (suc (suc (suc (suc (suc (suc (suc (suc (suc (suc (suc zero)))))))))))) = "c"
digit_char (suc (suc (suc (suc (suc (suc (suc (suc (suc (suc (suc (suc (suc zero))))))))))))) = "d"
digit_char
      (suc (suc (suc (suc (suc (suc (suc (suc (suc (suc (suc (suc (suc (suc zero)))))))))))))) =
    "e"
digit_char _ = "f"

-- The digits of `n` in front of `acc`; each round writes the lowest one.
unfoldable pub format_digits : ℕ → ℕ → ℕ → String → String
format_digits radix zero n acc = acc
format_digits radix (suc k) n acc =
    let rest = format_digits radix k (n / radix) (String.◌∷◌ (digit_char (n % radix)) acc) in
    if ltb n radix then String.◌∷◌ (digit_char n) acc else rest

-- `format!("{n:x}")` of a `u64`: sixteen digits are enough.
unfoldable pub to_hex : ℕ → String
unfolding format_digits digit_char
to_hex n = format_digits 16 16 n ""

-- The last `k` hexadecimal digits of `n`, zeros in front, before a text.
unfoldable pub hex_padded : ℕ → ℕ → String → String
hex_padded zero n acc = acc
hex_padded (suc k) n acc = hex_padded k (n / 16) (String.◌∷◌ (digit_char (n % 16)) acc)

-- `n.to_string()` of a `u64`: twenty digits are enough.
unfoldable pub to_decimal : ℕ → String
unfolding format_digits digit_char
to_decimal n = format_digits 10 20 n ""

-- `s.split_once(c)`.
unfoldable pub split_once : ℕ → String → Option (String × String)
split_once sep String.[] = none
split_once sep (String.◌∷◌ c s) = elim (split_once sep s) [
  | none ↦ if nat_beq (code c) sep then some ("", s) else none
  | some (a, b) ↦ if nat_beq (code c) sep then some ("", s) else some (String.◌∷◌ c a, b)
]
