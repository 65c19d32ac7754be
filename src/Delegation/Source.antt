-- ===== src/Delegation/Source.antt =====
-- The sequence number of a seal source couple.
use affinidi_keri_rs.Prelude.{
  ℕ, zero, suc, ◌+◌, ◌-◌, ◌*◌, ◌^◌, ◌≤◌, ◌<◌, String, ◌≡◌, ap, subst, inl, inr, some, [], ◌∷◌,
  arith, Option-cases, nat_eq, string_eq, u64_mod, length, All,
}
use affinidi_keri_rs.Prelude.Result.{ok}
use native.Mathlib.Nat.{pow-zero, pow-suc, pow-le-pow_right}
use affinidi_keri_rs.Crypto.Extern.{Bytes, Matter, Extern}
use affinidi_keri_rs.Delegation.{DelegationProof, from_be_bytes, low_bytes, from_seal_source_couple}

-- The low bytes have the value of the whole, when the bytes above them are 0.
from_be_bytes-low_bytes :
    (high : ℕ) (bs low : Bytes)
    → low_bytes high bs ≡ some low
    → from_be_bytes 0 bs ≡ from_be_bytes 0 low
unfolding from_be_bytes low_bytes
from_be_bytes-low_bytes zero bs low h = ground arith
from_be_bytes-low_bytes (suc high) [] low h = ground arith
from_be_bytes-low_bytes (suc high) (b ∷ bs) low h =
    ground (arith, from_be_bytes-low_bytes high bs low)

length-low_bytes :
    (high : ℕ) (bs low : Bytes) → low_bytes high bs ≡ some low → length low ≡ length bs - high
unfolding low_bytes
length-low_bytes zero bs low h = ground arith
length-low_bytes (suc high) [] low h = ground arith
length-low_bytes (suc high) (b ∷ bs) low h = ground (arith, length-low_bytes high bs low)

abbrev pub IsByte : ℕ → Type 0
IsByte b = b < 256

from_be_bytes-lt :
    (acc m : ℕ) (bs : Bytes) → acc < m → All IsByte bs → from_be_bytes acc bs < m * 256 ^ length bs
unfolding from_be_bytes
from_be_bytes-lt acc m [] h a = omega (arith, pow-zero 256)
from_be_bytes-lt acc m (b ∷ bs) h a =
    let more = from_be_bytes-lt (acc * 256 + b) (m * 256) bs (omega arith) a.1 in
    omega (arith, more, ap (λ (k : ℕ). m * k) (pow-suc 256 (length bs)))

pow_256-le : (n : ℕ) → n ≤ 8 → 256 ^ n ≤ u64_mod
pow_256-le n h = pow-le-pow_right (omega arith) h

low_bytes-All :
    (high : ℕ) (bs low : Bytes) → low_bytes high bs ≡ some low → All IsByte bs → All IsByte low
unfolding low_bytes
low_bytes-All zero bs low h a = let e : bs ≡ low = ground arith in subst (All IsByte) e a
low_bytes-All (suc high) [] low h a = let e : [] ≡ low = ground arith in subst (All IsByte) e a
low_bytes-All (suc high) (b ∷ bs) low h a = low_bytes-All high bs low (ground arith) a.1

-- A proof read from a seal source couple has the exact big-endian value of the sequence number's
-- bytes, never a truncation of it, and that value fits in a `u64`; its SAID is the couple's.
pub from_seal_source_couple_exact :
    (x : Extern) (sn_qb64 said_qb64 : String) (m : Matter) (p : DelegationProof)
    → x.matter_from_qb64 sn_qb64 ≡ some m
    → All IsByte m.raw
    → from_seal_source_couple x sn_qb64 said_qb64 ≡ ok p
    → (p.sn ≡ from_be_bytes 0 m.raw) × (p.sn < u64_mod) × (p.said ≡ said_qb64)
unfolding from_seal_source_couple
from_seal_source_couple_exact x sn_qb64 said_qb64 m p e bytes h =
    elim (Option-cases (low_bytes (length m.raw - 8) m.raw)) [
      | inl n ↦ absurd (ground arith)
      | inr (low, l) ↦
          (let value = from_be_bytes-low_bytes (length m.raw - 8) m.raw low l in
            let short = length-low_bytes (length m.raw - 8) m.raw low l in
            let fits =
              from_be_bytes-lt 0 1 low (omega arith)
                (low_bytes-All (length m.raw - 8) m.raw low l bytes) in
            let bound = pow_256-le (length low) (omega arith) in
            let read : p.sn ≡ from_be_bytes 0 low = ground arith in
            (omega arith, omega arith, ground arith))
    ]
