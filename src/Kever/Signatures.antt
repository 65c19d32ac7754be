-- ===== src/Kever/Signatures.antt =====
-- `verify_sigs_static`: which keys are counted as having signed.
use affinidi_keri_rs.Prelude.{
  ℕ, ◌≡◌, refl, subst, inl, inr, Bool, true, false, ◌&&◌, ◌||◌, none, some, List, [], ◌∷◌, arith,
  if◌then◌else◌, Option-cases, ◌==◌, nat_eq, string_eq, length, get_elem?, contains, Nodup,
  push_new, contains-push_new, push_new-Nodup,
}
use affinidi_keri_rs.Prelude.Result.{ok, err, Result-cases}
use affinidi_keri_rs.Crypto.Extern.{Bytes}
use affinidi_keri_rs.Crypto.Verfer
use affinidi_keri_rs.Crypto.Verfer.{Verfer}
use affinidi_keri_rs.Crypto.Siger
use affinidi_keri_rs.Crypto.Siger.{Siger}
use affinidi_keri_rs.Threshold.{Threshold, is_satisfied}
use affinidi_keri_rs.Deps.{Deps}
use affinidi_keri_rs.Kever.{satisfied_indices, verify_sigs_static}

module _ (d : Deps) (message : Bytes) (verfers : List Verfer) where
  -- The signature is one of the message by the key that its index names.
  unfoldable pub is_valid : Siger → Bool
  is_valid sig = elim (get_elem? verfers (Siger.index sig)) [
    | none ↦ false
    | some verfer ↦ elim (Verfer.verify d.crypto verfer message (Siger.raw sig)) [
      | err e ↦ false
      | ok valid ↦ valid
    ]
  ]

  -- Some signature of the list is a valid one by the key at this position.
  unfoldable pub has_signed : List Siger → ℕ → Bool
  unfolding is_valid
  has_signed [] key = false
  has_signed (sig ∷ sigs) key = (key == Siger.index sig && is_valid sig) || has_signed sigs key

  -- One round of the loop, when the loop returns.
  satisfied_indices-cons :
      (sig : Siger) (sigs : List Siger) (acc r : List ℕ)
      → satisfied_indices d message verfers (sig ∷ sigs) acc ≡ ok r
      → satisfied_indices d message verfers sigs
          (if is_valid sig then push_new acc (Siger.index sig) else acc)
        ≡ ok r
  unfolding satisfied_indices is_valid
  satisfied_indices-cons sig sigs acc r h =
      elim (Option-cases (get_elem? verfers (Siger.index sig))) [
        | inl e ↦
            (let v : is_valid sig ≡ false = ground arith in rw v (rw (e, satisfied_indices) at h))
        | inr (v, e) ↦ elim (Result-cases (Verfer.verify d.crypto v message (Siger.raw sig))) [
          | inr (x, q) ↦ absurd (ground arith)
          | inl (b, q) ↦
              (let valid : is_valid sig ≡ b = ground arith in
                rw valid (rw (e, satisfied_indices, q) at h))
        ]
      ]

  -- The accumulator with the key of a valid signature.
  contains-counted :
      (b : Bool) (acc : List ℕ) (i key : ℕ)
      → contains (if b then push_new acc i else acc) key ≡ ((key == i && b) || contains acc key)
  contains-counted true acc i key = ground (arith, contains-push_new acc i key)
  contains-counted false acc i key = ground arith

  counted-Nodup :
      (b : Bool) (acc : List ℕ) (i : ℕ) → Nodup acc → Nodup (if b then push_new acc i else acc)
  counted-Nodup true acc i n = push_new-Nodup acc i n
  counted-Nodup false acc i n = n

  satisfied_indices-has_signed :
      (sigs : List Siger) (acc r : List ℕ)
      → Nodup acc
      → satisfied_indices d message verfers sigs acc ≡ ok r
      → Nodup r × ((key : ℕ) → contains r key ≡ (has_signed sigs key || contains acc key))
  unfolding has_signed
  satisfied_indices-has_signed [] acc r n h =
      let e : acc ≡ r = unfold satisfied_indices in ground arith in
      subst (λ l. Nodup l × ((key : ℕ) → contains l key ≡ contains acc key)) e (n, λ key. refl)
  satisfied_indices-has_signed (sig ∷ sigs) acc r n h =
      let (nodup, only) =
        satisfied_indices-has_signed sigs
          (if is_valid sig then push_new acc (Siger.index sig) else acc) r
          (counted-Nodup (is_valid sig) acc (Siger.index sig) n)
          (satisfied_indices-cons sig sigs acc r h) in
      (
        nodup,
        λ key. ground (arith, only key, contains-counted (is_valid sig) acc (Siger.index sig) key),
      )

  -- What the loop counts over a whole list: no key twice, and a key exactly when some signature of
  -- the list is a valid one by it.
  pub record Counts (sigs : List Siger) (indices : List ℕ) : Type 0 where
    pub nodup : Nodup indices
    pub exactly : (key : ℕ) → contains indices key ≡ has_signed sigs key

  satisfied_indices-Counts :
      (sigs : List Siger) (r : List ℕ)
      → satisfied_indices d message verfers sigs [] ≡ ok r
      → Counts sigs r
  satisfied_indices-Counts sigs r h =
      let (nodup, only) = satisfied_indices-has_signed sigs [] r tt h in
      record { nodup = nodup; exactly = λ key. unfold contains in ground (arith, only key) }

  -- Accepted signatures meet the threshold by distinct keys, each of which made a valid signature
  -- of the message; a repeated, invalid or out-of-range signature adds nothing.
  pub verify_sigs_static_sound :
      (sigs : List Siger) (threshold : Threshold)
      → verify_sigs_static d message sigs verfers threshold ≡ ok tt
      → (indices : List ℕ) × Counts sigs indices
        × (is_satisfied threshold indices (length verfers) ≡ true)
  unfolding verify_sigs_static
  verify_sigs_static_sound sigs threshold h =
      elim (Result-cases (satisfied_indices d message verfers sigs [])) [
        | inr (e, p) ↦ absurd (ground arith)
        | inl (r, p) ↦ (r, satisfied_indices-Counts sigs r p, ground arith)
      ]
