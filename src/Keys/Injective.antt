-- ===== src/Keys/Injective.antt =====
-- `sn_key`: when two keys are equal.
use affinidi_keri_rs.Prelude.{
  ℕ, zero, suc, ◌+◌, ◌/◌, ◌%◌, ◌<◌, String, ◌≡◌, refl, sym, ap, ◌∙◌, some, arith, nat_eq, string_eq,
  pair_eq, u64_mod,
}
use Prim.Native.String.{◌++◌ as append, count}
use text.Mathlib.TextLemmas.{length-append as count-append, length-cons as count-cons, append_inj}
use affinidi_keri_rs.Prelude.Text.{codes, digit_char, parse_digits, hex_padded}
use affinidi_keri_rs.Prelude.Format.{parse_digits-hex_padded}
use affinidi_keri_rs.Keys.{sn_key}

count-hex_padded :
    (k n m : ℕ) (a b : String)
    → count a ≡ count b
    → count (hex_padded k n a) ≡ count (hex_padded k m b)
unfolding hex_padded
count-hex_padded zero n m a b h = h
count-hex_padded (suc k) n m a b h =
    count-hex_padded k (n / 16) (m / 16) (String.◌∷◌ (digit_char (n % 16)) a)
      (String.◌∷◌ (digit_char (m % 16)) b)
      (count-cons (digit_char (n % 16)) a ∙ ap suc h ∙ sym (count-cons (digit_char (m % 16)) b))

parsed : (n : ℕ) → parse_digits 16 u64_mod n (codes "") ≡ some n
unfolding parse_digits
parsed n = refl

hex_padded_injective :
    (n m : ℕ) → n < u64_mod → m < u64_mod → hex_padded 32 n "" ≡ hex_padded 32 m "" → n ≡ m
hex_padded_injective n m hn hm e =
    let a = parse_digits-hex_padded u64_mod 32 n "" hn (omega arith) in
    let b = parse_digits-hex_padded u64_mod 32 m "" hm (omega arith) in
    ground (arith, parsed n, parsed m, a, b, ap (λ t. parse_digits 16 u64_mod 0 (codes t)) e)

-- Two keys of a prefix and a sequence number are equal only for the same prefix and the same number,
-- whatever characters the prefixes have; the width of the number is fixed.
pub sn_key_injective :
    (p q : String) (n m : ℕ)
    → n < u64_mod
    → m < u64_mod
    → sn_key p n ≡ sn_key q m
    → (p ≡ q) × (n ≡ m)
unfolding sn_key
sn_key_injective p q n m hn hm e =
    let x = append "." (hex_padded 32 n "") in
    let y = append "." (hex_padded 32 m "") in
    let same_width : count x ≡ count y =
      count-append "." (hex_padded 32 n "")
      ∙ ap (λ c. count "." + c) (count-hex_padded 32 n m "" "" refl)
      ∙ sym (count-append "." (hex_padded 32 m "")) in
    let total = sym (count-append p x) ∙ ap count e ∙ count-append q y in
    let (prefixes, rest) = append_inj e (omega arith) in
    let (dots, digits) = append_inj rest refl in (prefixes, hex_padded_injective n m hn hm digits)
