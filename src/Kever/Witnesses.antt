-- ===== src/Kever/Witnesses.antt =====
-- `verify_witness_receipts_static`: which receipts count towards the backer threshold.
use affinidi_keri_rs.Prelude.{
  ℕ, zero, suc, ◌≤◌, String, ◌≡◌, refl, sym, subst, ◌⊎◌, inl, inr, true, false, not, ◌&&◌, some,
  List, [], ◌∷◌, ◌++◌, arith, eq_iff, Bool-cases, nat_eq, string_eq, length, get_elem?, contains,
  Nodup, contains-append, append-Nodup,
}
use affinidi_keri_rs.Prelude.Result.{ok, Result-cases}
use affinidi_keri_rs.Crypto.Extern.{Bytes}
use affinidi_keri_rs.Crypto.Verfer
use affinidi_keri_rs.Crypto.Verfer.{Verfer}
use affinidi_keri_rs.Deps.{Deps}
use affinidi_keri_rs.Kever.{valid_witnesses, verify_witness_receipts_static}

module _ (d : Deps) (message : Bytes) (backers : List String) where
  -- The couple is a designated witness's valid signature of the message.
  pub record Witnessed (prefix : String) (couples : List (String × Bytes)) : Type 0 where
    pub designated : contains backers prefix ≡ true
    pub place : ℕ
    pub sig : Bytes
    pub at : get_elem? couples place ≡ some (prefix, sig)
    pub verfer : Verfer
    pub key_parses : Verfer.from_qb64 d.crypto prefix ≡ ok verfer
    pub verifies : Verfer.verify d.crypto verfer message sig ≡ ok true

  later :
      (prefix : String) (c : String × Bytes) (couples : List (String × Bytes))
      → Witnessed prefix couples
      → Witnessed prefix (c ∷ couples)
  later prefix c couples w = record {
    designated = w.designated;
    place = suc w.place;
    sig = w.sig;
    at = w.at;
    verfer = w.verfer;
    key_parses = w.key_parses;
    verifies = w.verifies;
  }

  contains-snoc :
      (valid : List String) (p w : String)
      → contains (valid ++ p ∷ []) w ≡ true
      → (contains valid w ≡ true) ⊎ (w ≡ p)
  unfolding contains
  contains-snoc valid p w h = ground (arith, contains-append valid (p ∷ []) w, eq_iff w p)

  -- One round of the loop, when the loop returns: the couple is passed over, or it is a good
  -- signature of a designated witness that was not counted yet, or a bad one.
  valid_witnesses-cons :
      (p : String) (sig : Bytes) (couples : List (String × Bytes)) (valid r : List String)
      → valid_witnesses d message backers ((p, sig) ∷ couples) valid ≡ ok r
      → (valid_witnesses d message backers couples valid ≡ ok r)
        ⊎ ((contains valid p ≡ false)
            × Witnessed p ((p, sig) ∷ couples)
            × (valid_witnesses d message backers couples (valid ++ p ∷ []) ≡ ok r))
  unfolding valid_witnesses
  valid_witnesses-cons p sig couples valid r h =
      elim (Bool-cases (contains backers p && not (contains valid p))) [
        | inr e ↦ inl (rw (e, valid_witnesses) at h)
        | inl e ↦ elim (Result-cases (Verfer.from_qb64 d.crypto p)) [
          | inr (x, q) ↦ absurd (ground arith)
          | inl (verfer, q) ↦ elim (Result-cases (Verfer.verify d.crypto verfer message sig)) [
            | inr (x, v) ↦ absurd (ground arith)
            | inl (false, v) ↦ inl (rw (e, valid_witnesses, q, v) at h)
            | inl (true, v) ↦ inr (
              ground arith,
              record {
                designated = ground arith;
                place = 0;
                sig = sig;
                at = refl;
                verfer = verfer;
                key_parses = q;
                verifies = v;
              },
              rw (e, valid_witnesses, q, v) at h,
            )
          ]
        ]
      ]

  valid_witnesses-Witnessed :
      (couples : List (String × Bytes)) (valid r : List String)
      → Nodup valid
      → valid_witnesses d message backers couples valid ≡ ok r
      → Nodup r
        × ((w : String) → contains r w ≡ true → (contains valid w ≡ true) ⊎ Witnessed w couples)
  valid_witnesses-Witnessed [] valid r n h =
      let e : valid ≡ r = unfold valid_witnesses in ground arith in
      (subst Nodup e n, λ w m. inl (rw e m))
  valid_witnesses-Witnessed ((p, sig) ∷ couples) valid r n h =
      elim (valid_witnesses-cons p sig couples valid r h) [
        | inl rest ↦
            (let (nodup, only) = valid_witnesses-Witnessed couples valid r n rest in
              (
                nodup,
                λ w m. elim (only w m) [
                  | inl old ↦ inl old
                  | inr new ↦ inr (later w (p, sig) couples new)
                ],
              ))
        | inr (fresh, good, rest) ↦
            (let (nodup, only) =
                valid_witnesses-Witnessed couples (valid ++ p ∷ []) r (append-Nodup valid p fresh n)
                  rest in
              (
                nodup,
                λ w m. elim (only w m) [
                  | inl old ↦ elim (contains-snoc valid p w old) [
                    | inl before ↦ inl before
                    | inr same ↦ inr (subst (λ v. Witnessed v ((p, sig) ∷ couples)) (sym same) good)
                  ]
                  | inr new ↦ inr (later w (p, sig) couples new)
                ],
              ))
      ]

  -- Receipts that are accepted meet the threshold by that many different designated witnesses, each
  -- with a valid signature of the message among the couples.
  pub verify_witness_receipts_static_sound :
      (couples : List (String × Bytes)) (backer_threshold : ℕ)
      → verify_witness_receipts_static d message couples backers backer_threshold ≡ ok tt
      → (valid : List String) × Nodup valid
        × (backer_threshold ≤ length valid)
        × ((w : String) → contains valid w ≡ true → Witnessed w couples)
  unfolding verify_witness_receipts_static
  verify_witness_receipts_static_sound couples zero h =
      ([], tt, omega arith, λ w m. absurd (unfold contains in ground arith))
  verify_witness_receipts_static_sound couples (suc n) h =
      elim (Result-cases (valid_witnesses d message backers couples [])) [
        | inr (x, p) ↦ absurd (ground arith)
        | inl (valid, p) ↦
            (let (nodup, only) = valid_witnesses-Witnessed couples [] valid tt p in
              (
                valid,
                nodup,
                ground arith,
                λ w m. elim (only w m) [
                  | inl old ↦ absurd (unfold contains in ground arith)
                  | inr new ↦ new
                ],
              ))
      ]
