-- ===== src/Threshold/Within.antt =====
-- The checked additions of `Threshold::is_satisfied` on a clause whose whole fraction is within a
-- `u64`.
use affinidi_keri_rs.Prelude.{
  ℕ, ◌+◌, ◌*◌, ◌≤◌, ◌<◌, ◌≡◌, refl, inl, inr, some, List, [], ◌∷◌, arith, Bool-cases, nat_eq,
  string_eq, u64_mod, All,
}
use affinidi_keri_rs.Threshold.{Weight, Sum, add_weight, is_signed, count_weight, sum_clause}

abbrev pub IsPositive : Weight → Type 0
IsPositive w = 0 < w.den

-- The fraction of a clause with every weight counted, in unbounded arithmetic: what each
-- intermediate value of the checked additions stays within.
unfoldable pub full_num : List Weight → ℕ → ℕ → ℕ
full_num [] n d = n
full_num (w ∷ ws) n d = full_num ws (n * w.den + w.num * d) (d * w.den)

unfoldable pub full_den : List Weight → ℕ → ℕ
full_den [] d = d
full_den (w ∷ ws) d = full_den ws (d * w.den)

-- No clause can overflow, whoever signs.
abbrev pub Fits : List Weight → Type 0
Fits c = (full_num c 0 1 < u64_mod) × (full_den c 1 < u64_mod)

le-full_num : (ws : List Weight) (n d : ℕ) → All IsPositive ws → n ≤ full_num ws n d
unfolding full_num
le-full_num [] n d h = omega arith
le-full_num (w ∷ ws) n d h =
    let more = le-full_num ws (n * w.den + w.num * d) (d * w.den) h.1 in
    let grows : n ≤ n * w.den = grind arith in omega arith

le-full_den : (ws : List Weight) (d : ℕ) → All IsPositive ws → d ≤ full_den ws d
unfolding full_den
le-full_den [] d h = omega arith
le-full_den (w ∷ ws) d h =
    let more = le-full_den ws (d * w.den) h.1 in
    let grows : d ≤ d * w.den = grind arith in omega arith

-- A sum within the full fraction.
record IsWithin (s : Sum) (n d : ℕ) : Type 0 where
  num : s.num ≤ n
  den : s.den ≤ d

add_weight_total :
    (w : Weight) (s : Sum) (n d : ℕ)
    → IsWithin s n d
    → n * w.den + w.num * d < u64_mod
    → d * w.den < u64_mod
    → (t : Sum) × (add_weight w s ≡ some t) × IsWithin t (n * w.den + w.num * d) (d * w.den)
unfolding add_weight
add_weight_total w s n d h b c =
    let t : Sum = record s { num = s.num * w.den + w.num * s.den; den = s.den * w.den } in
    let x : s.num * w.den ≤ n * w.den = grind arith in
    let y : w.num * s.den ≤ w.num * d = grind arith in
    let z : s.den * w.den ≤ d * w.den = grind arith in
    (t, ground arith, record { num = omega arith; den = z })

module _ (indices : List ℕ) (total_keys : ℕ) where
  count_weight_total :
      (w : Weight) (s : Sum) (n d : ℕ)
      → IsPositive w
      → IsWithin s n d
      → n * w.den + w.num * d < u64_mod
      → d * w.den < u64_mod
      → (t : Sum) × (count_weight indices total_keys w s ≡ some t)
        × IsWithin t (n * w.den + w.num * d) (d * w.den)
  unfolding count_weight
  count_weight_total w s n d p h b c = elim (Bool-cases (is_signed indices total_keys s.key_idx)) [
    | inl e ↦ rw e (add_weight_total w s n d h b c)
    | inr e ↦
        (let x : n ≤ n * w.den = grind arith in
          let y : d ≤ d * w.den = grind arith in
          rw e (s, refl, record { num = omega arith; den = omega arith }))
  ]

  sum_clause_total :
      (ws : List Weight) (s : Sum) (n d : ℕ)
      → All IsPositive ws
      → IsWithin s n d
      → full_num ws n d < u64_mod
      → full_den ws d < u64_mod
      → (t : Sum) × (sum_clause indices total_keys ws s ≡ some t)
  unfolding sum_clause full_num full_den
  sum_clause_total [] s n d p h b c = (s, refl)
  sum_clause_total (w ∷ ws) s n d p h b c =
      let (u, e, k) =
        count_weight_total w s n d p.0 h
          (omega (arith, le-full_num ws (n * w.den + w.num * d) (d * w.den) p.1))
          (omega (arith, le-full_den ws (d * w.den) p.1)) in
      rw (e, sum_clause)
        (sum_clause_total ws (record u { key_idx = u.key_idx + 1 }) (n * w.den + w.num * d)
          (d * w.den) p.1 (record { num = k.num; den = k.den }) b c)

  -- From the sum that each clause starts with.
  pub sum_clause_of_Fits :
      (c : List Weight) (key_idx : ℕ)
      → All IsPositive c
      → Fits c
      → (t : Sum) × (sum_clause indices total_keys c
            (record { num = 0; den = 1; key_idx = key_idx })
          ≡ some t)
  sum_clause_of_Fits c key_idx p f =
      sum_clause_total c (record { num = 0; den = 1; key_idx = key_idx }) 0 1 p
        (record { num = omega arith; den = omega arith }) f.0 f.1
