-- ===== src/Threshold/Overflow.antt =====
-- `Threshold::is_satisfied` where the fraction of a clause leaves a `u64`.
use affinidi_keri_rs.Prelude.{
  ℕ, suc, ◌+◌, ◌≤◌, ◌<◌, ◌≡◌, refl, ◌∙◌, inl, inr, true, false, none, some, List, [], ◌∷◌, arith,
  Option-cases, nat_eq, string_eq, u64_mod, length, contains,
}
use affinidi_keri_rs.Threshold.{
  Weight, weighted, Sum, add_weight, is_signed, count_weight, sum_clause, all_satisfied,
  is_satisfied,
}
use affinidi_keri_rs.Threshold.Exact.{add_weight-eq-some}
use affinidi_keri_rs.Threshold.Within.{full_den}

add_weight-den-lt : (w : Weight) (s t : Sum) → add_weight w s ≡ some t → t.den < u64_mod
unfolding add_weight
add_weight-den-lt w s t h = ground arith

module _ (indices : List ℕ) (total_keys : ℕ) where
  count_weight-signed :
      (w : Weight) (s : Sum)
      → is_signed indices total_keys s.key_idx ≡ true
      → count_weight indices total_keys w s ≡ add_weight w s
  unfolding count_weight
  count_weight-signed w s h = rw h

  -- When every key signs and the product of the denominators leaves a `u64`, the sum is refused.
  sum_clause-overflow :
      (ws : List Weight) (s : Sum)
      → ((j : ℕ)
          → s.key_idx ≤ j
          → j < s.key_idx + length ws
          → is_signed indices total_keys j ≡ true)
      → s.den < u64_mod
      → u64_mod ≤ full_den ws s.den
      → sum_clause indices total_keys ws s ≡ none
  unfolding sum_clause full_den
  sum_clause-overflow [] s signed small large = absurd (omega arith)
  sum_clause-overflow (w ∷ ws) s signed small large = elim (Option-cases (add_weight w s)) [
    | inl n ↦
        rw (sum_clause, count_weight-signed w s (signed s.key_idx (omega arith) (omega arith)), n)
          refl
    | inr (t, e) ↦
        (let (_, d, k) = add_weight-eq-some w s t e in
          rw (sum_clause, count_weight-signed w s (signed s.key_idx (omega arith) (omega arith)), e)
            (sum_clause-overflow ws (record t { key_idx = t.key_idx + 1 })
              (λ j lo hi. signed j (omega arith) (omega arith)) (add_weight-den-lt w s t e)
              (rw d large)))
  ]

  -- Keys that do not sign leave the sum alone.
  sum_clause-unsigned :
      (ws : List Weight) (s : Sum)
      → ((j : ℕ) → s.key_idx ≤ j → is_signed indices total_keys j ≡ false)
      → sum_clause indices total_keys ws s ≡ some (record s { key_idx = s.key_idx + length ws })
  unfolding sum_clause count_weight
  sum_clause-unsigned [] s h = ground arith
  sum_clause-unsigned (w ∷ ws) s h =
      rw (h s.key_idx (omega arith), sum_clause)
        (sum_clause-unsigned ws (record s { key_idx = s.key_idx + 1 }) (λ j lo. h j (omega arith))
          ∙ ground arith)

  clause-overflow :
      (clause : List Weight) (clauses : List (List Weight)) (i : ℕ)
      → sum_clause indices total_keys clause (record { num = 0; den = 1; key_idx = i }) ≡ none
      → all_satisfied indices total_keys (clause ∷ clauses) i ≡ false
  unfolding all_satisfied
  clause-overflow clause clauses i h = rw (h, all_satisfied) refl

  last_clause :
      (clause : List Weight) (i : ℕ) (s : Sum)
      → sum_clause indices total_keys clause (record { num = 0; den = 1; key_idx = i }) ≡ some s
      → s.den ≤ s.num
      → all_satisfied indices total_keys (clause ∷ []) i ≡ true
  unfolding all_satisfied
  last_clause clause i s h le = rw (h, all_satisfied) (ground arith)

  is_satisfied-cons :
      (clause : List Weight) (clauses : List (List Weight))
      → is_satisfied (weighted (clause ∷ clauses)) indices total_keys
        ≡ all_satisfied indices total_keys (clause ∷ clauses) 0
  unfolding is_satisfied
  is_satisfied-cons clause clauses = refl

abbrev pub whole : Weight
whole = record { num = 1; den = 1 }

first_signs :
    (rest : List Weight) (total_keys : ℕ)
    → 0 < total_keys
    → (s : Sum) × (sum_clause
          (0 ∷ [])
          total_keys
          (whole ∷ rest)
          (record { num = 0; den = 1; key_idx = 0 })
        ≡ some s)
      × (s.den ≤ s.num)
unfolding is_signed contains sum_clause
first_signs rest total_keys pos =
    (record { num = 1; den = 1; key_idx = 1 + length rest }, eq, omega arith)
  where
    hit : is_signed (0 ∷ []) total_keys 0 ≡ true
    hit = ground arith

    miss : (j : ℕ) → 1 ≤ j → is_signed (0 ∷ []) total_keys j ≡ false
    miss j lo = ground arith

    eq :
        sum_clause (0 ∷ []) total_keys (whole ∷ rest) (record { num = 0; den = 1; key_idx = 0 })
        ≡ some (record { num = 1; den = 1; key_idx = 1 + length rest })
    eq = rw (hit, sum_clause) (sum_clause-unsigned (0 ∷ []) total_keys rest _ miss)

-- The first key alone holds the whole, yet with every key signing the threshold is not met, when
-- the product of the other denominators leaves a `u64`.
pub more_signatures_lose :
    (rest : List Weight) (indices : List ℕ) (total_keys : ℕ)
    → 0 < total_keys
    → u64_mod ≤ full_den rest 1
    → ((j : ℕ) → j < suc (length rest) → is_signed indices total_keys j ≡ true)
    → let clauses = (whole ∷ rest) ∷ [] in
      (is_satisfied (weighted clauses) (0 ∷ []) total_keys ≡ true)
      × (is_satisfied (weighted clauses) indices total_keys ≡ false)
more_signatures_lose rest indices total_keys pos large signed =
    let (s, e, le) = first_signs rest total_keys pos in
    (
      is_satisfied-cons (0 ∷ []) total_keys (whole ∷ rest) []
          ∙ last_clause (0 ∷ []) total_keys (whole ∷ rest) 0 s e le,
      is_satisfied-cons indices total_keys (whole ∷ rest) []
          ∙ clause-overflow indices total_keys (whole ∷ rest) [] 0 (
              sum_clause-overflow indices total_keys (whole ∷ rest)
                (record { num = 0; den = 1; key_idx = 0 }) (λ j lo hi. signed j (omega arith))
                (omega arith) (unfold full_den in large)),
    )
