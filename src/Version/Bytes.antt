-- ===== src/Version/Bytes.antt =====
-- A version string in front of other bytes.
use affinidi_keri_rs.Prelude.{
  ℕ, zero, suc, ◌+◌, ◌<◌, String, ◌≡◌, refl, subst, ◌∙◌, true, List, ◌++◌, arith, leb, lt→ltb,
  nat_eq, string_eq, pair_eq, length, take, take-append, take-length, length-append, All,
}
use affinidi_keri_rs.Prelude.Result.{ok}
use Prim.Native.String.{◌++◌ as append}
use text.Mathlib.TextLemmas.{nil-append, cons-append}
use affinidi_keri_rs.Prelude.Text.{codes}
use affinidi_keri_rs.Prelude.Ascii.{from_ascii-codes}
use affinidi_keri_rs.Version.{Version, tag, parse, hex_06, to_version_string}
use affinidi_keri_rs.Version.RoundTrip.{
  IsAscii, IsAscii-tag, IsAscii-hex_padded, digit_char-ascii, to_hex_digit,
  parse_str-to_version_string,
}

IsAscii-append :
    (total n m : ℕ) (s t : String)
    → total ≡ n + m
    → IsAscii n s
    → IsAscii m t
    → IsAscii total (append s t)
IsAscii-append total zero m String.[] t e h k =
    let f : m ≡ total = omega arith in rw (nil-append t) (subst (λ n. IsAscii n t) f k)
IsAscii-append total zero m (String.◌∷◌ c s) t e h k = absurd h
IsAscii-append total (suc n) m String.[] t e h k = absurd h
IsAscii-append zero (suc n) m (String.◌∷◌ c s) t e h k = absurd (omega arith)
IsAscii-append (suc total) (suc n) m (String.◌∷◌ c s) t e h k =
    rw (cons-append c s t) (h.0, IsAscii-append total n m s t (omega arith) h.1 k)

pub IsAscii-length : (n : ℕ) (s : String) → IsAscii n s → length (codes s) ≡ n
IsAscii-length zero String.[] h = refl
IsAscii-length zero (String.◌∷◌ c s) h = absurd h
IsAscii-length (suc n) String.[] h = absurd h
IsAscii-length (suc n) (String.◌∷◌ c s) h = omega (arith, IsAscii-length n s h.1)

IsAscii-All : (n : ℕ) (s : String) → IsAscii n s → All (λ b. b < 128) (codes s)
IsAscii-All zero String.[] h = tt
IsAscii-All zero (String.◌∷◌ c s) h = absurd h
IsAscii-All (suc n) String.[] h = absurd h
IsAscii-All (suc n) (String.◌∷◌ c s) h = (h.0, IsAscii-All n s h.1)

-- What the parts of a version are to be for its string to have its 17 characters.
pub record IsShort (v : Version) : Type 0 where
  pub protocol : IsAscii 4 v.protocol
  pub major : v.major < 16
  pub minor : v.minor < 16
  pub size : v.size < 16777216

pub IsAscii-to_version_string : (v : Version) → IsShort v → IsAscii 17 (to_version_string v)
unfolding to_version_string hex_06
IsAscii-to_version_string v h =
    rw (to_hex_digit v.major h.major, to_hex_digit v.minor h.minor, lt→ltb v.size 16777216 h.size)
      (IsAscii-append 17 4 13 v.protocol _ (omega arith) h.protocol (
        IsAscii-append 13 1 12 _ _ (omega arith) (digit_char-ascii v.major, tt)
          (IsAscii-append 12 1 11 _ _ (omega arith) (digit_char-ascii v.minor, tt)
            (IsAscii-append 11 4 7 (tag v.kind) _ (omega arith) (IsAscii-tag v.kind) (
              IsAscii-append 7 6 1 _ "_" (omega arith)
                (IsAscii-hex_padded 6 0 6 v.size "" (omega arith) tt) (omega arith, tt))))))

pub parse-to_version_string :
    (v : Version) (after : List ℕ) → IsShort v → parse (codes (to_version_string v) ++ after) ≡ ok v
unfolding parse
parse-to_version_string v after h =
    let vs = to_version_string v in
    let ascii = IsAscii-to_version_string v h in
    let size = IsAscii-length 17 vs ascii in
    let enough : leb 17 (length (codes vs ++ after)) ≡ true =
      ground (arith, length-append (codes vs) after) in
    let front : take 17 (codes vs ++ after) ≡ codes vs =
      take-append 17 (codes vs) after (omega arith)
      ∙ subst (λ n. take n (codes vs) ≡ codes vs) size (take-length (codes vs)) in
    rw
      (
        enough,
        front,
        from_ascii-codes vs (IsAscii-All 17 vs ascii),
        parse_str-to_version_string v h.protocol h.major h.minor h.size,
      )
      refl
