-- ===== src/KeyState/Rotation.antt =====
-- What an accepted rotation has checked, and what the next key state is.
use affinidi_keri_rs.Prelude.{
  suc, ◌≤◌, String, ◌≡◌, refl, ap, ◌↔◌, inl, inr, true, List, [], ◌∷◌, arith, eq_iff, nat_beq_iff,
  Bool-cases, ◌==◌, nat_eq, string_eq, succ_u64, length,
}
use affinidi_keri_rs.Prelude.Result.{ok, Result-cases}
use affinidi_keri_rs.Prelude.Text.{codes}
use affinidi_keri_rs.Crypto.Extern.{Extern}
use affinidi_keri_rs.Crypto.Verfer
use affinidi_keri_rs.Crypto.Diger
use affinidi_keri_rs.Crypto.Diger.{Diger}
use affinidi_keri_rs.Crypto.Verfer.{Verfer}
use affinidi_keri_rs.Event.{RotationEvent}
use affinidi_keri_rs.KeyState.{
  KeyState, parse_sn, parse_backer_threshold, rotate_backers, verify_commitment, verify_commitments,
  verify_next_key_commitment, apply_rotation,
}

-- A key is well formed, and its text has the digest that was committed to.
pub record Opens (x : Extern) (key_qb64 digest_qb64 : String) : Type 0 where
  pub verfer : Verfer
  pub key_parses : Verfer.from_qb64 x key_qb64 ≡ ok verfer
  pub diger : Diger
  pub digest_parses : Diger.from_qb64 x digest_qb64 ≡ ok diger
  pub matches : Diger.verify x diger (codes key_qb64) ≡ ok true

-- The keys open the digests, place by place, and none is left over.
abbrev pub OpensAll : Extern → List String → List String → Type 0
OpensAll x [] [] = Unit
OpensAll x (k ∷ ks) (d ∷ ds) = Opens x k d × OpensAll x ks ds
OpensAll x _ _ = ⊥

module _ (x : Extern) where
  verify_commitment-Opens : (k d : String) → verify_commitment x k d ≡ ok tt → Opens x k d
  unfolding verify_commitment
  verify_commitment-Opens k d h = elim (Result-cases (Verfer.from_qb64 x k)) [
    | inr (e, p) ↦ absurd (ground arith)
    | inl (v, p) ↦ elim (Result-cases (Diger.from_qb64 x d)) [
      | inr (e, q) ↦ absurd (ground arith)
      | inl (g, q) ↦ record {
        verfer = v;
        key_parses = p;
        diger = g;
        digest_parses = q;
        matches = ground arith;
      }
    ]
  ]

  verify_commitments-OpensAll :
      (ks ds : List String)
      → length ks ≡ length ds
      → verify_commitments x ks ds ≡ ok tt
      → OpensAll x ks ds
  unfolding verify_commitments
  verify_commitments-OpensAll [] [] l h = tt
  verify_commitments-OpensAll [] (d ∷ ds) l h = absurd (omega arith)
  verify_commitments-OpensAll (k ∷ ks) [] l h = absurd (omega arith)
  verify_commitments-OpensAll (k ∷ ks) (d ∷ ds) l h =
      elim (Result-cases (verify_commitment x k d)) [
        | inr (e, p) ↦ absurd (ground arith)
        | inl (u, p) ↦ (
          verify_commitment-Opens k d p,
          verify_commitments-OpensAll ks ds (omega arith) (rw (p, verify_commitments) at h),
        )
      ]

  verify_next_key_commitment-OpensAll :
      (ks ds : List String) → verify_next_key_commitment x ks ds ≡ ok tt → OpensAll x ks ds
  unfolding verify_next_key_commitment
  verify_next_key_commitment-OpensAll ks ds h = elim (Bool-cases (length ks == length ds)) [
    | inl p ↦ verify_commitments-OpensAll ks ds ((nat_beq_iff _ _).0 p) (ground arith)
    | inr p ↦ absurd (ground arith)
  ]

  -- What an accepted rotation has checked, and the state that it leads to.
  pub record Rotates (s : KeyState) (event : RotationEvent) (s' : KeyState) : Type 0 where
    pub sn_parses : parse_sn event.sn ≡ ok s'.sn
    pub sn_next : s'.sn ≡ succ_u64 s.sn
    pub same_prefix : event.prefix ≡ s.prefix
    pub chained : event.prior_said ≡ s.last_event_digest
    pub committed : OpensAll x event.keys s.next_keys
    pub prefix_kept : s'.prefix ≡ s.prefix
    pub said : s'.said ≡ event.said
    pub digest : s'.last_event_digest ≡ event.said
    pub keys : s'.keys ≡ event.keys
    pub threshold : s'.threshold ≡ event.keys_threshold
    pub next_keys : s'.next_keys ≡ event.next_keys
    pub backers : s'.backers ≡ rotate_backers s.backers event.backers_remove event.backers_add
    pub next_threshold : s'.next_threshold ≡ event.next_threshold
    pub config : s'.config ≡ event.config
    pub backer_threshold_parses :
        parse_backer_threshold event.backer_threshold ≡ ok s'.backer_threshold
    pub backers_enough : s'.backer_threshold ≤ length s'.backers
    pub delegated : s'.delegated ≡ s.delegated
    pub delegator : s'.delegator ≡ s.delegator

  verify_commitment-of_Opens : (k d : String) → Opens x k d → verify_commitment x k d ≡ ok tt
  unfolding verify_commitment
  verify_commitment-of_Opens k d o = rw (o.key_parses, o.digest_parses, o.matches) refl

  verify_commitments-of_OpensAll :
      (ks ds : List String)
      → OpensAll x ks ds
      → (length ks ≡ length ds) × (verify_commitments x ks ds ≡ ok tt)
  unfolding verify_commitments
  verify_commitments-of_OpensAll [] [] o = (refl, refl)
  verify_commitments-of_OpensAll [] (d ∷ ds) o = absurd o
  verify_commitments-of_OpensAll (k ∷ ks) [] o = absurd o
  verify_commitments-of_OpensAll (k ∷ ks) (d ∷ ds) o =
      let (l, e) = verify_commitments-of_OpensAll ks ds o.1 in
      (ap suc l, rw (verify_commitment-of_Opens k d o.0, verify_commitments) e)

  verify_next_key_commitment-of_OpensAll :
      (ks ds : List String) → OpensAll x ks ds → verify_next_key_commitment x ks ds ≡ ok tt
  unfolding verify_next_key_commitment
  verify_next_key_commitment-of_OpensAll ks ds o =
      let (l, e) = verify_commitments-of_OpensAll ks ds o in rw ((nat_beq_iff _ _).1 l, e) refl

  pub apply_rotation-Rotates :
      (s : KeyState) (event : RotationEvent) (s' : KeyState)
      → apply_rotation x s event ≡ ok s'
      → Rotates s event s'
  unfolding apply_rotation
  apply_rotation-Rotates s event s' h = ground (
    arith,
    verify_next_key_commitment-OpensAll event.keys s.next_keys,
    eq_iff event.prefix s.prefix,
    eq_iff event.prior_said s.last_event_digest,
  )

  apply_rotation-of_Rotates :
      (s : KeyState) (event : RotationEvent) (s' : KeyState)
      → Rotates s event s'
      → apply_rotation x s event ≡ ok s'
  unfolding apply_rotation
  apply_rotation-of_Rotates s event s' r = ground (
    arith,
    verify_next_key_commitment-of_OpensAll event.keys s.next_keys r.committed,
    eq_iff event.prefix s.prefix,
    eq_iff event.prior_said s.last_event_digest,
  )

  -- A rotation is accepted exactly when it is next in sequence, names the identifier, chains to the
  -- last event, opens each digest that the prior establishment event committed to and leaves enough
  -- witnesses; the next state is then fixed, field by field.
  pub apply_rotation-eq-ok_iff :
      (s : KeyState) (event : RotationEvent) (s' : KeyState)
      → (apply_rotation x s event ≡ ok s') ↔ Rotates s event s'
  apply_rotation-eq-ok_iff s event s' =
      (apply_rotation-Rotates s event s', apply_rotation-of_Rotates s event s')
