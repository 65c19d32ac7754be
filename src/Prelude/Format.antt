-- ===== src/Prelude/Format.antt =====
-- Parsing reads back what formatting wrote, in any base up to 16.
use Prim.Native.Nat.{ℕ, zero, suc, ◌+◌, ◌*◌, ◌/◌, ◌%◌, ◌≤◌, ◌<◌, ◌^◌}
use Prim.Native.Char.{code}
use Prim.Native.String.{String}
use mathlib.Core.Path.{◌≡◌, refl, ap, sym, ◌∙◌}
use mathlib.Core.Logic.{inl, inr, ◌≢◌}
use mathlib.Core.List.{List, [], ◌∷◌}
use mathlib.Core.Option.{some}
use native.Mathlib.Omega.{arith}
use native.Mathlib.Nat.{pow-suc, pow-zero, div-le_self, div-add-mod', div-lt_iff_lt-mul}
use affinidi_keri_rs.Prelude.Tests.{ltb, Bool-cases, ltb→lt, lt→ltb, u64_mod}
use affinidi_keri_rs.Prelude.Text.{
  codes, to_digit, digit_char, parse_digits, format_digits, from_str_radix, to_hex, to_decimal,
  unsigned, hex_padded,
}

pow_one : (r : ℕ) → r ^ suc zero ≡ r
pow_one r = pow-suc r zero ∙ rw (pow-zero r) (omega arith)

module _ (radix : ℕ) where
  pub below_16 : (d : ℕ) → d < 16 → d < radix → to_digit radix (code (digit_char d)) ≡ some d
  unfolding to_digit digit_char
  below_16 zero h r = ground arith
  below_16 (suc zero) h r = ground arith
  below_16 (suc (suc zero)) h r = ground arith
  below_16 (suc (suc (suc zero))) h r = ground arith
  below_16 (suc (suc (suc (suc zero)))) h r = ground arith
  below_16 (suc (suc (suc (suc (suc zero))))) h r = ground arith
  below_16 (suc (suc (suc (suc (suc (suc zero)))))) h r = ground arith
  below_16 (suc (suc (suc (suc (suc (suc (suc zero))))))) h r = ground arith
  below_16 (suc (suc (suc (suc (suc (suc (suc (suc zero)))))))) h r = ground arith
  below_16 (suc (suc (suc (suc (suc (suc (suc (suc (suc zero))))))))) h r = ground arith
  below_16 (suc (suc (suc (suc (suc (suc (suc (suc (suc (suc zero)))))))))) h r = ground arith
  below_16 (suc (suc (suc (suc (suc (suc (suc (suc (suc (suc (suc zero))))))))))) h r = ground arith
  below_16 (suc (suc (suc (suc (suc (suc (suc (suc (suc (suc (suc (suc zero)))))))))))) h r =
      ground arith
  below_16 (suc (suc (suc (suc (suc (suc (suc (suc (suc (suc (suc (suc (suc zero))))))))))))) h r =
      ground arith
  below_16 (suc (suc (suc (suc (suc (suc (suc (suc (suc (suc (suc (suc (suc (suc zero))))))))))))))
        h r =
      ground arith
  below_16
        (suc (suc (suc (suc (suc (suc (suc (suc (suc (suc (suc (suc (suc (suc (suc n)))))))))))))))
        h r =
      let e : n ≡ 0 = omega arith in rw e (ground arith)

  module _ (bound : ℕ) where
    pub parse_digits-cons :
        (acc d : ℕ) (s : String)
        → d < 16
        → d < radix
        → acc * radix + d < bound
        → parse_digits radix bound acc (codes (String.◌∷◌ (digit_char d) s))
          ≡ parse_digits radix bound (acc * radix + d) (codes s)
    unfolding parse_digits
    parse_digits-cons acc d s h r b = ground (arith, below_16 d h r)

    one_digit :
        (n : ℕ) (s : String)
        → 1 < radix
        → radix ≤ 16
        → n < bound
        → n < radix
        → parse_digits radix bound 0 (codes (String.◌∷◌ (digit_char n) s))
          ≡ parse_digits radix bound n (codes s)
    one_digit n s h r b p =
        let e : 0 * radix + n ≡ n = omega arith in
        parse_digits-cons 0 n s (omega arith) p (omega arith)
        ∙ ap (λ m. parse_digits radix bound m (codes s)) e

    next_digit :
        (n : ℕ) (s : String)
        → 1 < radix
        → radix ≤ 16
        → n < bound
        → parse_digits radix bound (n / radix) (codes (String.◌∷◌ (digit_char (n % radix)) s))
          ≡ parse_digits radix bound n (codes s)
    next_digit n s h r b =
        let e = div-add-mod' n radix in
        parse_digits-cons (n / radix) (n % radix) s (omega arith) (omega arith) (rw e b)
        ∙ ap (λ m. parse_digits radix bound m (codes s)) e

    pub parse_digits-format_digits :
        (k n : ℕ) (acc : String)
        → 1 < radix
        → radix ≤ 16
        → n < bound
        → n < radix ^ suc k
        → parse_digits radix bound 0 (codes (format_digits radix (suc k) n acc))
          ≡ parse_digits radix bound n (codes acc)
    unfolding format_digits
    parse_digits-format_digits zero n acc h r b p =
        let below : n < radix = rw (pow_one radix) at p in
        rw (lt→ltb n radix below) (one_digit n acc h r b below)
    parse_digits-format_digits (suc j) n acc h r b p = elim (Bool-cases (ltb n radix)) [
      | inl t ↦ rw t (one_digit n acc h r b (ltb→lt n radix t))
      | inr f ↦ rw f (
          parse_digits-format_digits j (n / radix) (String.◌∷◌ (digit_char (n % radix)) acc) h r
            (omega (arith, div-le_self n radix))
            ((div-lt_iff_lt-mul (omega arith)).1 (rw (pow-suc radix (suc j)) at p))
          ∙ next_digit n acc h r b)
    ]

-- The sign test of `from_str_radix` does not get in the way of a digit.
pub unsigned_digits :
    (radix bound n : ℕ) (l : List ℕ)
    → l ≢ []
    → radix ≤ 36
    → parse_digits radix bound 0 l ≡ some n
    → unsigned radix bound l ≡ some n
unfolding unsigned
unsigned_digits radix bound n [] h r p = absurd (h refl)
unsigned_digits radix bound n (c ∷ []) h r p = p
unsigned_digits radix bound n (c ∷ d ∷ l) h r p = ground arith

format_digits-ne-nil : (radix k n : ℕ) (s : String) → codes (format_digits radix (suc k) n s) ≢ []
unfolding format_digits
format_digits-ne-nil radix zero n s = ground arith
format_digits-ne-nil radix (suc k) n s =
    ground (arith, format_digits-ne-nil radix k (n / radix) (String.◌∷◌ (digit_char (n % radix)) s))

-- A `u64` written in hexadecimal is read back by `from_str_radix(_, 16)`.
pub from_str_radix-to_hex : (n : ℕ) → n < u64_mod → from_str_radix 16 u64_mod (to_hex n) ≡ some n
unfolding from_str_radix to_hex
from_str_radix-to_hex n h =
    unsigned_digits 16 u64_mod n _ (format_digits-ne-nil 16 15 n "") (omega arith)
      (parse_digits-format_digits 16 u64_mod 15 n "" (omega arith) (omega arith) h (omega arith))

-- A `u64` written in decimal is read back by `parse`.
pub from_str_radix-to_decimal :
    (n : ℕ) → n < u64_mod → from_str_radix 10 u64_mod (to_decimal n) ≡ some n
unfolding from_str_radix to_decimal
from_str_radix-to_decimal n h =
    unsigned_digits 10 u64_mod n _ (format_digits-ne-nil 10 19 n "") (omega arith)
      (parse_digits-format_digits 10 u64_mod 19 n "" (omega arith) (omega arith) h (omega arith))

-- A number below the bound of its type written in decimal is read back.
pub from_str_radix_decimal :
    (bound n : ℕ) → n < bound → bound ≤ u64_mod → from_str_radix 10 bound (to_decimal n) ≡ some n
unfolding from_str_radix to_decimal
from_str_radix_decimal bound n h b =
    unsigned_digits 10 bound n _ (format_digits-ne-nil 10 19 n "") (omega arith)
      (parse_digits-format_digits 10 bound 19 n "" (omega arith) (omega arith) h (omega arith))

-- The digits are read back, whatever zeros are in front.
pub parse_digits-hex_padded :
    (bound k n : ℕ) (acc : String)
    → n < bound
    → n < 16 ^ k
    → parse_digits 16 bound 0 (codes (hex_padded k n acc)) ≡ parse_digits 16 bound n (codes acc)
unfolding hex_padded
parse_digits-hex_padded bound zero n acc h p =
    let e : n ≡ 0 = (let one = pow-zero 16 in omega arith) in
    ap (λ m. parse_digits 16 bound m (codes acc)) (sym e)
parse_digits-hex_padded bound (suc k) n acc h p =
    let e = div-add-mod' n 16 in
    parse_digits-hex_padded bound k (n / 16) (String.◌∷◌ (digit_char (n % 16)) acc) (omega arith)
      ((div-lt_iff_lt-mul (omega arith)).1 (rw (pow-suc 16 k) at p))
    ∙ parse_digits-cons 16 bound (n / 16) (n % 16) acc (omega arith) (omega arith) (rw e h)
    ∙ ap (λ m. parse_digits 16 bound m (codes acc)) e
