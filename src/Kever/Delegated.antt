-- ===== src/Kever/Delegated.antt =====
-- `new_delegated` and `verify_update_delegated`: what the delegator has shown.
use affinidi_keri_rs.Prelude.{
  ℕ, ◌≡◌, sym, ap, subst, ◌∙◌, inl, inr, true, some, List, arith, eq_iff, Option-cases, nat_eq,
  string_eq, succ_u64,
}
use affinidi_keri_rs.Prelude.Result.{ok, Result-cases}
use affinidi_keri_rs.Crypto.Siger.{Siger}
use affinidi_keri_rs.Crypto.Verfer.{Verfer}
use affinidi_keri_rs.Deps.{Deps}
use affinidi_keri_rs.Event.{DelegatedInceptionEvent, DelegatedRotationEvent}
use affinidi_keri_rs.KeyState
use affinidi_keri_rs.KeyState.{KeyState, as_rotation, from_delegated_inception}
use affinidi_keri_rs.KeyState.Rotation.{Rotates, apply_rotation-Rotates}
use affinidi_keri_rs.Serder
use affinidi_keri_rs.Serder.{Serder}
use affinidi_keri_rs.Delegation.{DelegationProof, DelegatorAnchors}
use affinidi_keri_rs.Delegation.Anchor.{Authorised, verify_delegation-eq-ok_iff}
use affinidi_keri_rs.Kever.{
  Kever, new_delegated, verify_update_delegated, verify_sigs_static, verfers_from_keys,
}
use affinidi_keri_rs.Kever.Updates.{Signed}
use affinidi_keri_rs.Kever.Inception.{KeysAre, keys_match-KeysAre}
use affinidi_keri_rs.Kever.History.{WellFormed}

module _ (d : Deps) (serder : Serder) (sigs : List Siger) (proof : DelegationProof)
    (source : DelegatorAnchors) where
  from_delegated_inception-WellFormed :
      (dip : DelegatedInceptionEvent) (s : KeyState)
      → from_delegated_inception dip ≡ ok s
      → WellFormed s
  unfolding from_delegated_inception
  from_delegated_inception-WellFormed dip s h =
      let delegated : s.delegated ≡ true = ground arith in
      let delegator : s.delegator ≡ some dip.delegator = ground arith in
      record {
        sn_fits = ground arith;
        backers_enough = ground arith;
        delegator_known = (λ _. (dip.delegator, delegator), λ _. delegated);
      }

  -- A delegated identifier, with the delegator's word for its inception.
  pub record Delegated (verfers : List Verfer) (k : Kever) : Type 0 where
    pub dip : DelegatedInceptionEvent
    pub parses : d.to_delegated_inception serder.sad ≡ some dip
    pub keys : KeysAre d dip.keys verfers
    pub signed : verify_sigs_static d serder.raw sigs verfers dip.keys_threshold ≡ ok tt
    pub self_addressing : dip.prefix ≡ dip.said
    pub authorised : Authorised d dip.prefix 0 dip.said dip.delegator proof source
    pub state : from_delegated_inception dip ≡ ok k.state
    pub well_formed : WellFormed k.state

  -- An accepted delegated inception has a prefix that is its own digest, is signed by its keys to
  -- their threshold, and is anchored by the delegator that it names, at the place of the proof.
  pub new_delegated_sound :
      (verfers : List Verfer) (k : Kever)
      → new_delegated d serder sigs verfers proof source ≡ ok k
      → (Serder.ilk serder ≡ ok "dip")
        × (Serder.verify_said d serder "E" ≡ ok tt)
        × Delegated verfers k
  unfolding new_delegated
  new_delegated_sound verfers k h = elim (Result-cases (Serder.ilk serder)) [
    | inr (x, p) ↦ absurd (ground arith)
    | inl (ilk, p) ↦ elim (Option-cases (d.to_delegated_inception serder.sad)) [
      | inl e ↦ absurd (ground arith)
      | inr (dip, e) ↦ elim (Result-cases (from_delegated_inception dip)) [
        | inr (x, q) ↦ absurd (ground arith)
        | inl (s, q) ↦
            (let same : s ≡ k.state = ground arith in
              (
                p ∙ ap ok (ground (arith, eq_iff ilk "dip")),
                ground arith,
                record {
                  dip = dip;
                  parses = e;
                  keys = keys_match-KeysAre d dip.keys verfers (ground arith) (ground arith);
                  signed = ground arith;
                  self_addressing = ground (arith, eq_iff dip.prefix dip.said);
                  authorised =
                      (verify_delegation-eq-ok_iff d dip.prefix 0 dip.said dip.delegator proof
                          source).0
                        (ground arith);
                  state = q ∙ ap ok same;
                  well_formed = subst WellFormed same (from_delegated_inception-WellFormed dip s q);
                },
              ))
      ]
    ]
  ]

  -- A delegated rotation, with the delegator's word for it.
  pub record DelegatedRotated (k : Kever) (s' : KeyState) : Type 0 where
    pub drt : DelegatedRotationEvent
    pub parses : d.to_delegated_rotation serder.sad ≡ some drt
    pub was_delegated : k.state.delegated ≡ true
    pub same_delegator : k.state.delegator ≡ some drt.delegator
    pub signed : Signed d drt.keys drt.keys_threshold serder.raw sigs
    pub authorised : Authorised d drt.prefix s'.sn drt.said drt.delegator proof source
    pub rotates : Rotates d.crypto k.state (as_rotation drt) s'

  delegated_rotates :
      (k : Kever) (s' : KeyState) (sn : ℕ) (drt : DelegatedRotationEvent)
      → d.to_delegated_rotation serder.sad ≡ some drt
      → Signed d drt.keys drt.keys_threshold serder.raw sigs
      → Authorised d drt.prefix sn drt.said drt.delegator proof source
      → sn ≡ succ_u64 k.state.sn
      → KeyState.apply_delegated_rotation d.crypto k.state drt ≡ ok s'
      → DelegatedRotated k s'
  unfolding KeyState.apply_delegated_rotation
  delegated_rotates k s' sn drt e signed a n h = elim (Option-cases k.state.delegator) [
    | inl none_known ↦ absurd (ground arith)
    | inr (known, p) ↦
        (let r = apply_rotation-Rotates d.crypto k.state (as_rotation drt) s' (ground arith) in
          record {
            drt = drt;
            parses = e;
            was_delegated = ground arith;
            same_delegator = p ∙ ap some (ground (arith, eq_iff known drt.delegator));
            signed = signed;
            authorised =
                subst (λ n. Authorised d drt.prefix n drt.said drt.delegator proof source)
                  (n ∙ sym r.sn_next) a;
            rotates = r;
          })
  ]

  -- An accepted delegated rotation is of a delegated identifier, names the delegator on record,
  -- opens the prior commitments, and is anchored by that delegator under its own sequence number.
  pub verify_update_delegated_sound :
      (k : Kever) (s' : KeyState)
      → verify_update_delegated d k serder sigs proof source ≡ ok s'
      → (k.incepted ≡ true)
        × (Serder.ilk serder ≡ ok "drt")
        × (Serder.verify_said d serder "E" ≡ ok tt)
        × DelegatedRotated k s'
  unfolding verify_update_delegated
  verify_update_delegated_sound k s' h = elim (Result-cases (Serder.ilk serder)) [
    | inr (x, p) ↦ absurd (ground arith)
    | inl (ilk, p) ↦ elim (Result-cases (Serder.sn serder)) [
      | inr (x, q) ↦ absurd (ground arith)
      | inl (sn, q) ↦ elim (Option-cases (d.to_delegated_rotation serder.sad)) [
        | inl e ↦ absurd (ground arith)
        | inr (drt, e) ↦ elim (Result-cases (verfers_from_keys d drt.keys)) [
          | inr (x, v) ↦ absurd (ground arith)
          | inl (verfers, v) ↦ (
            ground arith,
            p ∙ ap ok (ground (arith, eq_iff ilk "drt")),
            ground arith,
            delegated_rotates k s' sn drt e
                (record { verfers = verfers; keys_parse = v; met = ground arith })
                ((verify_delegation-eq-ok_iff d drt.prefix sn drt.said drt.delegator proof source).0
                  (ground arith))
                (ground arith) (ground arith),
          )
        ]
      ]
    ]
  ]
