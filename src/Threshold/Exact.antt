-- ===== src/Threshold/Exact.antt =====
-- `Threshold::is_satisfied` against exact fractions: over a common denominator `q` a weight `num/den`
-- is `num * (q / den)` parts, and a clause is met when the signed weights make up `q` parts.
use affinidi_keri_rs.Prelude.{
  ℕ, ◌+◌, ◌*◌, ◌/◌, ◌≤◌, ◌<◌, ◌≡◌, refl, ap, subst, ◌≢◌, ◌↔◌, inl, inr, true, some, List, [], ◌∷◌,
  arith, if◌then◌else◌, Bool-cases, Option-cases, nat_eq, string_eq, length, All, All-map,
}
use affinidi_keri_rs.Threshold.Within.{IsPositive, Fits, sum_clause_of_Fits}
use affinidi_keri_rs.Threshold.{
  Weight, Sum, add_weight, is_signed, count_weight, sum_clause, all_satisfied, is_satisfied,
  weighted,
}

-- `q` is a multiple of the denominator.
abbrev pub Measures : ℕ → Weight → Type 0
Measures q w = w.den * (q / w.den) ≡ q

-- What the checked addition of a weight returns, when it returns.
pub add_weight-eq-some :
    (w : Weight) (s t : Sum)
    → add_weight w s ≡ some t
    → (t.num ≡ s.num * w.den + w.num * s.den) × (t.den ≡ s.den * w.den) × (t.key_idx ≡ s.key_idx)
unfolding add_weight
add_weight-eq-some w s t h = ground arith

module _ (q : ℕ) (indices : List ℕ) (total_keys : ℕ) where
  -- The parts that the key at a position adds: none if it did not sign.
  unfoldable pub counted : Weight → ℕ → ℕ
  unfolding is_signed
  counted w key_idx = if is_signed indices total_keys key_idx then w.num * (q / w.den) else 0

  -- The parts that the signed keys of a clause add up to; the first key has the given position.
  unfoldable pub parts : List Weight → ℕ → ℕ
  unfolding counted
  parts [] key_idx = 0
  parts (w ∷ ws) key_idx = counted w key_idx + parts ws (key_idx + 1)

  -- Each clause reaches the whole.
  abbrev pub MeetsAll : List (List Weight) → ℕ → Type 0
  MeetsAll [] key_idx = Unit
  MeetsAll (c ∷ cs) key_idx = (q ≤ parts c key_idx) × MeetsAll cs (key_idx + length c)

  add_weight_exact :
      (w : Weight) (s t : Sum) (p : ℕ)
      → Measures q w
      → s.num * q ≡ s.den * p
      → add_weight w s ≡ some t
      → t.num * q ≡ t.den * (p + w.num * (q / w.den))
  add_weight_exact w s t p m e h =
      let (n, d, _) = add_weight-eq-some w s t h in
      omega (
        arith,
        ap (λ (k : ℕ). k * q) n,
        ap (λ (k : ℕ). k * (p + w.num * (q / w.den))) d,
        ap (λ (k : ℕ). k * w.den) e,
        ap (λ (k : ℕ). k * (w.num * s.den)) m,
      )

  record IsExact (s : Sum) (p : ℕ) : Type 0 where
    value : s.num * q ≡ s.den * p
    den_pos : 0 < s.den

  add_weight-IsExact :
      (w : Weight) (s t : Sum) (p : ℕ)
      → Measures q w
      → IsPositive w
      → IsExact s p
      → add_weight w s ≡ some t
      → IsExact t (p + w.num * (q / w.den)) × (t.key_idx ≡ s.key_idx)
  add_weight-IsExact w s t p m pos e h =
      let (n, d, k) = add_weight-eq-some w s t h in
      (record { value = add_weight_exact w s t p m e.value h; den_pos = grind arith }, k)

  count_weight-IsExact :
      (w : Weight) (s t : Sum) (p : ℕ)
      → Measures q w
      → IsPositive w
      → IsExact s p
      → count_weight indices total_keys w s ≡ some t
      → IsExact t (p + counted w s.key_idx) × (t.key_idx ≡ s.key_idx)
  unfolding count_weight counted
  count_weight-IsExact w s t p m pos e h =
      elim (Bool-cases (is_signed indices total_keys s.key_idx)) [
        | inl b ↦ rw b (add_weight-IsExact w s t p m pos e (rw (b, count_weight) at h))
        | inr b ↦ ground arith
      ]

  IsExact-eq : {s : Sum} {p p' : ℕ} → p ≡ p' → IsExact s p → IsExact s p'
  IsExact-eq {s} h e = subst (IsExact s) h e

  sum_clause-IsExact :
      (ws : List Weight) (s t : Sum) (p : ℕ)
      → All (λ w. Measures q w × IsPositive w) ws
      → IsExact s p
      → sum_clause indices total_keys ws s ≡ some t
      → IsExact t (p + parts ws s.key_idx) × (t.key_idx ≡ s.key_idx + length ws)
  unfolding sum_clause parts
  sum_clause-IsExact [] s t p m e h = ground arith
  sum_clause-IsExact (w ∷ ws) s t p m e h =
      elim (Option-cases (count_weight indices total_keys w s)) [
        | inl n ↦ absurd (ground arith)
        | inr (u, c) ↦
            (let (eu, ku) = count_weight-IsExact w s u p m.0.0 m.0.1 e c in
              let (et, kt) =
                sum_clause-IsExact ws (record u { key_idx = u.key_idx + 1 }) t
                  (p + counted w s.key_idx) m.1 (record { value = eu.value; den_pos = eu.den_pos })
                  (rw (c, sum_clause) at h) in
              (IsExact-eq (omega (arith, ap (λ k. parts ws (k + 1)) ku)) et, omega arith))
      ]

  reaches : (s : Sum) (p : ℕ) → IsExact s p → s.den ≤ s.num → q ≤ p
  reaches s p e h = grind arith

  reached : (s : Sum) (p : ℕ) → 0 < q → IsExact s p → q ≤ p → s.den ≤ s.num
  reached s p z e h = grind arith

  abbrev pub AllMeasure : List (List Weight) → Type 0
  AllMeasure = All (λ c. All (λ w. Measures q w × IsPositive w) c)

  start-IsExact : (key_idx : ℕ) → IsExact (record { num = 0; den = 1; key_idx = key_idx }) 0
  start-IsExact key_idx = record { value = omega arith; den_pos = omega arith }

  MeetsAll-of_all_satisfied :
      (cs : List (List Weight)) (key_idx : ℕ)
      → AllMeasure cs
      → all_satisfied indices total_keys cs key_idx ≡ true
      → MeetsAll cs key_idx
  unfolding all_satisfied
  MeetsAll-of_all_satisfied [] key_idx m h = tt
  MeetsAll-of_all_satisfied (c ∷ cs) key_idx m h =
      elim (Option-cases
        (sum_clause indices total_keys c (record { num = 0; den = 1; key_idx = key_idx }))) [
          | inl n ↦ absurd (ground arith)
          | inr (t, e) ↦
              (let (x, k) = sum_clause-IsExact c _ t 0 m.0 (start-IsExact key_idx) e in
                let g = rw (e, all_satisfied) at h in
                let met : t.den ≤ t.num = ground arith in
                (
                  omega (arith, reaches t _ x met),
                  rw k at (MeetsAll-of_all_satisfied cs t.key_idx m.1 (ground arith)),
                ))
        ]

module _ (q : ℕ) (indices : List ℕ) (total_keys : ℕ) (q_pos : 0 < q) where
  all_satisfied-of_MeetsAll :
      (cs : List (List Weight)) (key_idx : ℕ)
      → AllMeasure q indices total_keys cs
      → All Fits cs
      → MeetsAll q indices total_keys cs key_idx
      → all_satisfied indices total_keys cs key_idx ≡ true
  unfolding all_satisfied
  all_satisfied-of_MeetsAll [] key_idx m f h = refl
  all_satisfied-of_MeetsAll (c ∷ cs) key_idx m f h =
      let (t, e) =
        sum_clause_of_Fits indices total_keys c key_idx (All-map (λ w x. x.1) c m.0) f.0 in
      let (x, k) =
        sum_clause-IsExact q indices total_keys c _ t 0 m.0
          (start-IsExact q indices total_keys key_idx) e in
      let rest = all_satisfied-of_MeetsAll cs t.key_idx m.1 f.1 (rw k h.1) in
      let met = reached q indices total_keys t _ q_pos x (omega (arith, h.0)) in
      rw (e, all_satisfied) (ground arith)

-- Soundness, with no bound on the weights: a weighted threshold that is satisfied has a clause, and
-- by position each clause is signed for at least the whole, in parts of any common denominator `q`.
-- An overflow never grants a threshold.
pub is_satisfied_sound :
    (q : ℕ) (indices : List ℕ) (total_keys : ℕ) (clauses : List (List Weight))
    → AllMeasure q indices total_keys clauses
    → is_satisfied (weighted clauses) indices total_keys ≡ true
    → (clauses ≢ []) × MeetsAll q indices total_keys clauses 0
unfolding is_satisfied
is_satisfied_sound q indices total_keys [] m h = absurd (ground arith)
is_satisfied_sound q indices total_keys (c ∷ cs) m h =
    (ground arith, MeetsAll-of_all_satisfied q indices total_keys (c ∷ cs) 0 m h)

-- Exactness, where the fraction of no clause leaves a `u64`: the threshold is satisfied exactly when
-- there is a clause and the signed weights of each one add up to the whole.
pub is_satisfied_exact :
    (q : ℕ) (indices : List ℕ) (total_keys : ℕ) (clauses : List (List Weight))
    → 0 < q
    → AllMeasure q indices total_keys clauses
    → All Fits clauses
    → (is_satisfied (weighted clauses) indices total_keys ≡ true)
      ↔ ((clauses ≢ []) × MeetsAll q indices total_keys clauses 0)
unfolding is_satisfied
is_satisfied_exact q indices total_keys [] q_pos m f =
    (is_satisfied_sound q indices total_keys [] m, λ h. absurd (h.0 refl))
is_satisfied_exact q indices total_keys (c ∷ cs) q_pos m f = (
  is_satisfied_sound q indices total_keys (c ∷ cs) m,
  λ h. all_satisfied-of_MeetsAll q indices total_keys q_pos (c ∷ cs) 0 m f h.1,
)
