-- ===== src/Prelude/Ascii.antt =====
-- Bytes as text: `str::from_utf8` of bytes that are all ASCII, `is_ascii`, and slices of text.
use Prim.Native.Nat.{ℕ, zero, suc, ◌<◌, ◌≤◌, compare, Ordering}
use Prim.Native.Char.{Char, char, code, IsScalar}
use Prim.Native.String.{String}
use mathlib.Core.Path.{◌≡◌, refl, ap, subst, ◌∙◌}
use mathlib.Core.Bool.{Bool, true, false, ◌&&◌}
use mathlib.Core.List.{List, [], ◌∷◌, ◌++◌}
use mathlib.Core.Option.{Option, none, some}
use mathlib.Core.Logic.{inl, inr}
use native.Mathlib.Decide.{dec_lt}
use native.Mathlib.Omega.{arith}
use affinidi_keri_rs.Prelude.Text.{codes}
use text.Mathlib.TextEquality.{IsScalar-prop}
use affinidi_keri_rs.Prelude.Lists.{All}
use affinidi_keri_rs.Prelude.Tests.{ltb, Option-cases}

lt-compare : (n m : ℕ) → n < m → compare n m ≡ Ordering.lt
lt-compare n m h = ground arith

pub ascii-IsScalar : (n : ℕ) → n < 128 → IsScalar n
ascii-IsScalar n h = rw (lt-compare n 55296 (omega arith)) tt

abbrev cons_ascii : (b : ℕ) → Dec (b < 128) → String → Option String
cons_ascii b (yes p) s = some (String.◌∷◌ (char b (ascii-IsScalar b p)) s)
cons_ascii b (no p) s = none

-- `from_utf8` of bytes that pass `is_ascii`; `none` for others.
unfoldable pub from_ascii : List ℕ → Option String
unfolding dec_lt
from_ascii [] = some ""
from_ascii (b ∷ bs) = elim (from_ascii bs) [ none ↦ none | some s ↦ cons_ascii b (dec_lt b 128) s ]

-- The first `n` characters are there, and each is ASCII.
unfoldable pub ascii_start : ℕ → String → Bool
ascii_start zero s = true
ascii_start (suc n) String.[] = false
ascii_start (suc n) (String.◌∷◌ c s) = ltb (code c) 128 && ascii_start n s

-- `(&s[..n], &s[n..])`, where the first `n` characters are ASCII.
unfoldable pub split_at : ℕ → String → Option (String × String)
split_at zero s = some ("", s)
split_at (suc n) String.[] = none
split_at (suc n) (String.◌∷◌ c s) = elim (split_at n s) [
  | none ↦ none
  | some (a, b) ↦ some (String.◌∷◌ c a, b)
]

codes-cons_ascii :
    (b : ℕ) (d : Dec (b < 128)) (s t : String) → cons_ascii b d s ≡ some t → codes t ≡ b ∷ codes s
codes-cons_ascii b (yes p) s t h =
    let e : String.◌∷◌ (char b (ascii-IsScalar b p)) s ≡ t = cc in
    subst (λ u. codes u ≡ b ∷ codes s) e refl
codes-cons_ascii b (no p) s t h = cc

-- The text has the bytes that it was made of.
pub codes-from_ascii : (bs : List ℕ) (s : String) → from_ascii bs ≡ some s → codes s ≡ bs
unfolding from_ascii
codes-from_ascii [] s h = let e : "" ≡ s = cc in subst (λ t. codes t ≡ []) e refl
codes-from_ascii (b ∷ bs) s h = elim (Option-cases (from_ascii bs)) [
  | inl n ↦ (let g = rw (n, from_ascii) at h in cc)
  | inr (t, e) ↦
      (codes-cons_ascii b (dec_lt b 128) t s (rw (e, from_ascii) at h)
        ∙ ap (λ l. b ∷ l) (codes-from_ascii bs t e))
]

not_ascii : (b : ℕ) (d : Dec (b < 128)) (s : String) → 128 ≤ b → cons_ascii b d s ≡ none
not_ascii b (yes p) s h = absurd (omega arith)
not_ascii b (no p) s h = refl

-- A byte that is not ASCII is refused, wherever it stands.
pub from_ascii_refuses :
    (before : List ℕ) (b : ℕ) (after : List ℕ) → 128 ≤ b → from_ascii (before ++ b ∷ after) ≡ none
unfolding from_ascii
from_ascii_refuses [] b after h = elim (Option-cases (from_ascii after)) [
  | inl n ↦ rw (n)
  | inr (t, e) ↦ rw (e) (not_ascii b (dec_lt b 128) t h)
]
from_ascii_refuses (a ∷ before) b after h = rw (from_ascii_refuses before b after h)

cons_ascii_any :
    (b : ℕ) (d : Dec (b < 128)) (s t u : String)
    → cons_ascii b d s ≡ some t
    → (v : String) × (cons_ascii b d u ≡ some v)
cons_ascii_any b (yes p) s t u h = (String.◌∷◌ (char b (ascii-IsScalar b p)) u, refl)
cons_ascii_any b (no p) s t u h = cc

-- ASCII followed by ASCII.
pub from_ascii-append :
    (xs ys : List ℕ) (s t : String)
    → from_ascii xs ≡ some s
    → from_ascii ys ≡ some t
    → (u : String) × (from_ascii (xs ++ ys) ≡ some u)
unfolding from_ascii
from_ascii-append [] ys s t h k = (t, k)
from_ascii-append (b ∷ bs) ys s t h k = elim (Option-cases (from_ascii bs)) [
  | inl n ↦ (let g = rw (n, from_ascii) at h in cc)
  | inr (r, e) ↦
      (let (u, f) = from_ascii-append bs ys r t e k in
        rw (f) (cons_ascii_any b (dec_lt b 128) r s u (rw (e, from_ascii) at h)))
]

char-code : (c : Char) (p : IsScalar (code c)) → char (code c) p ≡ c
char-code (char n q) p = ap (λ r. char n r) (IsScalar-prop n p q)

cons_ascii_holds :
    (c : Char) (d : Dec (code c < 128)) (s : String)
    → code c < 128
    → cons_ascii (code c) d s ≡ some (String.◌∷◌ c s)
cons_ascii_holds c (yes p) s h =
    ap (λ e. some (String.◌∷◌ e s)) (char-code c (ascii-IsScalar (code c) p))
cons_ascii_holds c (no p) s h = absurd (p h)

-- An ASCII text is made of its bytes.
pub from_ascii-codes : (s : String) → All (λ b. b < 128) (codes s) → from_ascii (codes s) ≡ some s
unfolding from_ascii
from_ascii-codes String.[] h = refl
from_ascii-codes (String.◌∷◌ c s) h =
    rw (from_ascii-codes s h.1) (cons_ascii_holds c (dec_lt (code c) 128) s h.0)
