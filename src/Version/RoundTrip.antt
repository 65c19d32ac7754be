-- ===== src/Version/RoundTrip.antt =====
-- A version string that was written is read back.
use affinidi_keri_rs.Prelude.{
  ℕ, zero, suc, ◌+◌, ◌/◌, ◌%◌, ◌<◌, String, ◌≡◌, refl, subst, ◌≢◌, true, some, [], arith, lt→ltb,
  nat_eq, string_eq, pair_eq, u64_mod,
}
use affinidi_keri_rs.Prelude.Result.{ok}
use Prim.Native.Char.{code}
use Prim.Native.String.{◌++◌ as append}
use text.Mathlib.TextLemmas.{nil-append, cons-append}
use affinidi_keri_rs.Prelude.Text.{
  codes, digit_char, to_hex, hex_padded, format_digits, from_str_radix, parse_digits,
}
use affinidi_keri_rs.Prelude.Format.{parse_digits-hex_padded, unsigned_digits}
use affinidi_keri_rs.Prelude.Ascii.{ascii_start, split_at}
use affinidi_keri_rs.Version.{
  SerializationKind, json, cbor, msg_pack, tag, from_tag, Version, hex_digit, parse_str, hex_06,
  to_version_string,
}

-- A text of `n` ASCII characters.
abbrev pub IsAscii : ℕ → String → Type 0
IsAscii zero String.[] = Unit
IsAscii zero (String.◌∷◌ c s) = ⊥
IsAscii (suc n) String.[] = ⊥
IsAscii (suc n) (String.◌∷◌ c s) = (code c < 128) × IsAscii n s

split_at-append : (n : ℕ) (s t : String) → IsAscii n s → split_at n (append s t) ≡ some (s, t)
unfolding split_at
split_at-append zero String.[] t h = rw (nil-append t)
split_at-append zero (String.◌∷◌ c s) t h = absurd h
split_at-append (suc n) String.[] t h = absurd h
split_at-append (suc n) (String.◌∷◌ c s) t h = rw (cons-append c s t, split_at-append n s t h.1)

-- Texts one after the other, of a total length.
ascii_start-append :
    (total n m : ℕ) (s t : String)
    → total ≡ n + m
    → IsAscii n s
    → ascii_start m t ≡ true
    → ascii_start total (append s t) ≡ true
unfolding ascii_start
ascii_start-append total zero m String.[] t e h k =
    let f : total ≡ m = omega arith in rw (nil-append t, f) k
ascii_start-append total zero m (String.◌∷◌ c s) t e h k = absurd h
ascii_start-append total (suc n) m String.[] t e h k = absurd h
ascii_start-append zero (suc n) m (String.◌∷◌ c s) t e h k = absurd (omega arith)
ascii_start-append (suc total) (suc n) m (String.◌∷◌ c s) t e h k =
    rw (cons-append c s t, lt→ltb (code c) 128 h.0)
      (ascii_start-append total n m s t (omega arith) h.1 k)

pub digit_char-ascii : (d : ℕ) → code (digit_char d) < 128
unfolding digit_char
digit_char-ascii zero = omega arith
digit_char-ascii (suc zero) = omega arith
digit_char-ascii (suc (suc zero)) = omega arith
digit_char-ascii (suc (suc (suc zero))) = omega arith
digit_char-ascii (suc (suc (suc (suc zero)))) = omega arith
digit_char-ascii (suc (suc (suc (suc (suc zero))))) = omega arith
digit_char-ascii (suc (suc (suc (suc (suc (suc zero)))))) = omega arith
digit_char-ascii (suc (suc (suc (suc (suc (suc (suc zero))))))) = omega arith
digit_char-ascii (suc (suc (suc (suc (suc (suc (suc (suc zero)))))))) = omega arith
digit_char-ascii (suc (suc (suc (suc (suc (suc (suc (suc (suc zero))))))))) = omega arith
digit_char-ascii (suc (suc (suc (suc (suc (suc (suc (suc (suc (suc zero)))))))))) = omega arith
digit_char-ascii (suc (suc (suc (suc (suc (suc (suc (suc (suc (suc (suc zero))))))))))) =
    omega arith
digit_char-ascii (suc (suc (suc (suc (suc (suc (suc (suc (suc (suc (suc (suc zero)))))))))))) =
    omega arith
digit_char-ascii
      (suc (suc (suc (suc (suc (suc (suc (suc (suc (suc (suc (suc (suc zero))))))))))))) =
    omega arith
digit_char-ascii
      (suc (suc (suc (suc (suc (suc (suc (suc (suc (suc (suc (suc (suc (suc zero)))))))))))))) =
    omega arith
digit_char-ascii
      (suc (suc (suc (suc (suc (suc (suc (suc (suc (suc (suc (suc (suc (suc (suc n))))))))))))))) =
    omega arith

hex_digit-digit_char : (d : ℕ) → d < 16 → hex_digit (code (digit_char d)) ≡ some d
unfolding hex_digit digit_char
hex_digit-digit_char zero h = refl
hex_digit-digit_char (suc zero) h = refl
hex_digit-digit_char (suc (suc zero)) h = refl
hex_digit-digit_char (suc (suc (suc zero))) h = refl
hex_digit-digit_char (suc (suc (suc (suc zero)))) h = refl
hex_digit-digit_char (suc (suc (suc (suc (suc zero))))) h = refl
hex_digit-digit_char (suc (suc (suc (suc (suc (suc zero)))))) h = refl
hex_digit-digit_char (suc (suc (suc (suc (suc (suc (suc zero))))))) h = refl
hex_digit-digit_char (suc (suc (suc (suc (suc (suc (suc (suc zero)))))))) h = refl
hex_digit-digit_char (suc (suc (suc (suc (suc (suc (suc (suc (suc zero))))))))) h = refl
hex_digit-digit_char (suc (suc (suc (suc (suc (suc (suc (suc (suc (suc zero)))))))))) h = refl
hex_digit-digit_char (suc (suc (suc (suc (suc (suc (suc (suc (suc (suc (suc zero))))))))))) h = refl
hex_digit-digit_char (suc (suc (suc (suc (suc (suc (suc (suc (suc (suc (suc (suc zero))))))))))))
      h =
    refl
hex_digit-digit_char
      (suc (suc (suc (suc (suc (suc (suc (suc (suc (suc (suc (suc (suc zero))))))))))))) h =
    refl
hex_digit-digit_char
      (suc (suc (suc (suc (suc (suc (suc (suc (suc (suc (suc (suc (suc (suc zero)))))))))))))) h =
    refl
hex_digit-digit_char
      (suc (suc (suc (suc (suc (suc (suc (suc (suc (suc (suc (suc (suc (suc (suc n)))))))))))))))
      h =
    let e : n ≡ 0 = omega arith in rw e

-- The version digits, which are one character each.
pub to_hex_digit : (n : ℕ) → n < 16 → to_hex n ≡ String.◌∷◌ (digit_char n) ""
unfolding to_hex format_digits
to_hex_digit n h = rw (lt→ltb n 16 h)

pub IsAscii-hex_padded :
    (k m total n : ℕ) (acc : String)
    → total ≡ k + m
    → IsAscii m acc
    → IsAscii total (hex_padded k n acc)
unfolding hex_padded
IsAscii-hex_padded zero m total n acc e h =
    let f : m ≡ total = omega arith in subst (λ t. IsAscii t acc) f h
IsAscii-hex_padded (suc k) m total n acc e h =
    IsAscii-hex_padded k (suc m) total (n / 16) (String.◌∷◌ (digit_char (n % 16)) acc) (omega arith)
      (digit_char-ascii (n % 16), h)

pub IsAscii-tag : (kind : SerializationKind) → IsAscii 4 (tag kind)
unfolding tag
IsAscii-tag json = omega arith
IsAscii-tag cbor = omega arith
IsAscii-tag msg_pack = omega arith

from_tag-tag : (kind : SerializationKind) → from_tag (tag kind) ≡ ok kind
unfolding tag from_tag
from_tag-tag json = refl
from_tag-tag cbor = refl
from_tag-tag msg_pack = refl

hex_padded-ne-nil : (k n : ℕ) (acc : String) → codes acc ≢ [] → codes (hex_padded k n acc) ≢ []
unfolding hex_padded
hex_padded-ne-nil zero n acc h = h
hex_padded-ne-nil (suc k) n acc h =
    hex_padded-ne-nil k (n / 16) (String.◌∷◌ (digit_char (n % 16)) acc) (ground arith)

-- The six digits of the size.
size-read : (n : ℕ) → n < 16777216 → from_str_radix 16 u64_mod (hex_padded 6 n "") ≡ some n
unfolding from_str_radix parse_digits hex_padded
size-read n h =
    unsigned_digits 16 u64_mod n _
      (hex_padded-ne-nil 5 (n / 16) (String.◌∷◌ (digit_char (n % 16)) "") (ground arith))
      (omega arith) (parse_digits-hex_padded u64_mod 6 n "" (omega arith) (omega arith))

one_underscore : ascii_start 1 "_" ≡ true
unfolding ascii_start
one_underscore = refl

-- A version of a four-character protocol, one-digit numbers and a message below 16 MiB is read back
-- from its version string.
pub parse_str-to_version_string :
    (v : Version)
    → IsAscii 4 v.protocol
    → v.major < 16
    → v.minor < 16
    → v.size < 16777216
    → parse_str (to_version_string v) ≡ ok v
unfolding parse_str to_version_string hex_06
parse_str-to_version_string v p m n z =
    let at_16 : String = "_" in
    let size_str = hex_padded 6 v.size "" in
    let at_10 = append size_str at_16 in
    let at_6 = append (tag v.kind) at_10 in
    let minor_ch : String = String.◌∷◌ (digit_char v.minor) "" in
    let major_ch : String = String.◌∷◌ (digit_char v.major) "" in
    let at_5 = append minor_ch at_6 in
    let at_4 = append major_ch at_5 in
    let hs : IsAscii 6 size_str = IsAscii-hex_padded 6 0 6 v.size "" (omega arith) tt in
    let hmin : IsAscii 1 minor_ch = (digit_char-ascii v.minor, tt) in
    let hmaj : IsAscii 1 major_ch = (digit_char-ascii v.major, tt) in
    let a_16 : ascii_start 1 at_16 ≡ true = one_underscore in
    let a_10 = ascii_start-append 7 6 1 size_str at_16 (omega arith) hs a_16 in
    let a_6 =
      ascii_start-append 11 4 7 (tag v.kind) at_10 (omega arith) (IsAscii-tag v.kind) a_10 in
    let a_5 = ascii_start-append 12 1 11 minor_ch at_6 (omega arith) hmin a_6 in
    let a_4 = ascii_start-append 13 1 12 major_ch at_5 (omega arith) hmaj a_5 in
    let a = ascii_start-append 17 4 13 v.protocol at_4 (omega arith) p a_4 in
    rw
      (
        to_hex_digit v.major m,
        to_hex_digit v.minor n,
        lt→ltb v.size 16777216 z,
        a,
        split_at-append 4 v.protocol at_4 p,
        split_at-append 1 major_ch at_5 hmaj,
        split_at-append 1 minor_ch at_6 hmin,
      )
      (rw (
        hex_digit-digit_char v.major m,
        hex_digit-digit_char v.minor n,
        split_at-append 4 (tag v.kind) at_10 (IsAscii-tag v.kind),
        from_tag-tag v.kind,
        split_at-append 6 size_str at_16 hs,
        size-read v.size z,
      ))
