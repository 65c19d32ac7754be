-- ===== src/Delegation/Anchor.antt =====
-- What a verified delegation rests on.
use affinidi_keri_rs.Prelude.{
  ℕ, zero, suc, String, ◌≡◌, refl, ◌≢◌, ◌↔◌, inl, inr, true, none, some, List, [], ◌∷◌, arith,
  eq_iff, Bool-cases, Option-cases, nat_eq, string_eq, get_elem?,
}
use affinidi_keri_rs.Prelude.Result.{ok, Result-cases}
use affinidi_keri_rs.Prelude.Text.{to_hex}
use affinidi_keri_rs.Json.{Value}
use affinidi_keri_rs.Event.{SealEvent}
use affinidi_keri_rs.Deps.{Deps}
use affinidi_keri_rs.Delegation.{
  DelegationProof, DelegatorAnchors, seals, any_seals, verify_delegation,
}

-- The seal is among the anchors, at some place, and points at the event.
pub record Anchored (d : Deps) (delegatee : String) (sn : ℕ) (said : String) (anchors : List Value)
    : Type 0 where
  pub place : ℕ
  pub anchor : Value
  pub at : get_elem? anchors place ≡ some anchor
  pub seal : SealEvent
  pub reads : d.to_seal_event anchor ≡ some seal
  pub prefix : seal.prefix ≡ delegatee
  pub digest : seal.digest ≡ said
  pub hex_sn : seal.sn ≡ to_hex sn

-- The delegator is another identifier, and its event at the place that the proof names anchors a
-- seal of exactly this event.
pub record Authorised (d : Deps) (delegatee : String) (sn : ℕ) (said delegator : String)
    (proof : DelegationProof) (source : DelegatorAnchors) : Type 0 where
  pub named : delegator ≢ ""
  pub other : delegator ≢ delegatee
  pub anchors : List Value
  pub found : source.anchors_at delegator proof.sn proof.said ≡ ok (some anchors)
  pub anchored : Anchored d delegatee sn said anchors

module _ (d : Deps) (delegatee : String) (sn : ℕ) (said : String) where
  abbrev Names : SealEvent → Type 0
  Names seal = (seal.prefix ≡ delegatee) × (seal.digest ≡ said) × (seal.sn ≡ to_hex sn)

  seals-Names :
      (a : Value)
      → seals d delegatee sn said a ≡ true
      → (seal : SealEvent) × (d.to_seal_event a ≡ some seal) × Names seal
  unfolding seals
  seals-Names a h = elim (Option-cases (d.to_seal_event a)) [
    | inl e ↦ absurd (ground arith)
    | inr (seal, e) ↦ (
      seal,
      e,
      ground (
        arith,
        eq_iff seal.prefix delegatee,
        eq_iff seal.digest said,
        eq_iff seal.sn (to_hex sn),
      ),
    )
  ]

  seals-of_Names :
      (a : Value) (seal : SealEvent)
      → d.to_seal_event a ≡ some seal
      → Names seal
      → seals d delegatee sn said a ≡ true
  unfolding seals
  seals-of_Names a seal e h =
      ground
        (arith, eq_iff seal.prefix delegatee, eq_iff seal.digest said, eq_iff seal.sn (to_hex sn))

  any_seals-Anchored :
      (anchors : List Value)
      → any_seals d delegatee sn said anchors ≡ true
      → Anchored d delegatee sn said anchors
  unfolding any_seals
  any_seals-Anchored [] h = absurd (ground arith)
  any_seals-Anchored (a ∷ as') h = elim (Bool-cases (seals d delegatee sn said a)) [
    | inl e ↦
        (let (seal, r, n) = seals-Names a e in
          record {
            place = 0;
            anchor = a;
            at = refl;
            seal = seal;
            reads = r;
            prefix = n.0;
            digest = n.1;
            hex_sn = n.2;
          })
    | inr e ↦
        (let later = any_seals-Anchored as' (ground arith) in
          record {
            place = suc later.place;
            anchor = later.anchor;
            at = later.at;
            seal = later.seal;
            reads = later.reads;
            prefix = later.prefix;
            digest = later.digest;
            hex_sn = later.hex_sn;
          })
  ]

  any_seals_at :
      (anchors : List Value) (place : ℕ) (a : Value)
      → get_elem? anchors place ≡ some a
      → seals d delegatee sn said a ≡ true
      → any_seals d delegatee sn said anchors ≡ true
  unfolding any_seals
  any_seals_at [] place a e h = absurd (ground arith)
  any_seals_at (b ∷ bs) zero a e h = ground arith
  any_seals_at (b ∷ bs) (suc place) a e h = ground (arith, any_seals_at bs place a e h)

  any_seals-of_Anchored :
      (anchors : List Value)
      → Anchored d delegatee sn said anchors
      → any_seals d delegatee sn said anchors ≡ true
  any_seals-of_Anchored anchors h =
      any_seals_at anchors h.place h.anchor h.at
        (seals-of_Names h.anchor h.seal h.reads (h.prefix, h.digest, h.hex_sn))

  module _ (delegator : String) (proof : DelegationProof) (source : DelegatorAnchors) where
    anchors_found :
        verify_delegation d delegatee sn said delegator proof source ≡ ok tt
        → (anchors : List Value) × (source.anchors_at delegator proof.sn proof.said
            ≡ ok (some anchors))
          × (any_seals d delegatee sn said anchors ≡ true)
    unfolding verify_delegation
    anchors_found h = elim (Result-cases (source.anchors_at delegator proof.sn proof.said)) [
      | inr (e, p) ↦ absurd (ground arith)
      | inl (none, p) ↦ absurd (ground arith)
      | inl (some anchors, p) ↦ (anchors, p, ground arith)
    ]

    verify_delegation-Authorised :
        verify_delegation d delegatee sn said delegator proof source ≡ ok tt
        → Authorised d delegatee sn said delegator proof source
    unfolding verify_delegation
    verify_delegation-Authorised h =
        let (anchors, found, any) = anchors_found h in
        record {
          named = ground (arith, eq_iff delegator "");
          other = ground (arith, eq_iff delegator delegatee);
          anchors = anchors;
          found = found;
          anchored = any_seals-Anchored anchors any;
        }

    verify_delegation-of_Authorised :
        Authorised d delegatee sn said delegator proof source
        → verify_delegation d delegatee sn said delegator proof source ≡ ok tt
    unfolding verify_delegation
    verify_delegation-of_Authorised h = ground (
      arith,
      h.named,
      h.other,
      eq_iff delegator "",
      eq_iff delegator delegatee,
      h.found,
      any_seals-of_Anchored h.anchors h.anchored,
    )

    -- A delegated event is authorised exactly when its delegator is named and is another
    -- identifier, and the delegator's event at the place that the proof names anchors, somewhere, a
    -- seal with the prefix, the digest and the hexadecimal sequence number of this event.
    pub verify_delegation-eq-ok_iff :
        (verify_delegation d delegatee sn said delegator proof source ≡ ok tt)
        ↔ Authorised d delegatee sn said delegator proof source
    verify_delegation-eq-ok_iff = (verify_delegation-Authorised, verify_delegation-of_Authorised)
