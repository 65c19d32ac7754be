-- ===== src/Kever/Updates.antt =====
-- `update`, `verify_update` and `verify_update_owned`: how they agree, and what they accept.
use affinidi_keri_rs.Prelude.{
  String, ◌≡◌, ◌↔◌, ◌⊎◌, inl, inr, true, false, some, List, arith, eq_iff, Option-cases, nat_eq,
  string_eq, succ_u64,
}
use affinidi_keri_rs.Prelude.Result.{ok, ◌>>=◌, Result-cases}
use affinidi_keri_rs.Json.{Value}
use affinidi_keri_rs.Crypto.Extern.{Bytes}
use affinidi_keri_rs.Crypto.Siger.{Siger}
use affinidi_keri_rs.Crypto.Verfer.{Verfer}
use affinidi_keri_rs.Threshold.{Threshold}
use affinidi_keri_rs.Version.{json}
use affinidi_keri_rs.Deps.{Deps}
use affinidi_keri_rs.Serder
use affinidi_keri_rs.Serder.{Serder}
use affinidi_keri_rs.KeyState
use affinidi_keri_rs.KeyState.{KeyState}
use affinidi_keri_rs.KeyState.Rotation.{Rotates, apply_rotation-Rotates}
use affinidi_keri_rs.Event.{RotationEvent, InteractionEvent}
use affinidi_keri_rs.Kever.{
  Kever, reject_plain_rotation_when_delegated, verify_update, update, verify_update_owned,
  apply_verified_update, verfers_from_keys, verify_sigs_static,
}

-- The identity of a key state, and the step in sequence, that every event keeps.
pub record Continues (s s' : KeyState) : Type 0 where
  pub prefix_kept : s'.prefix ≡ s.prefix
  pub sn_next : s'.sn ≡ succ_u64 s.sn
  pub delegated_kept : s'.delegated ≡ s.delegated
  pub delegator_kept : s'.delegator ≡ s.delegator

-- What an interaction changes: the sequence number and the last digest only.
pub record Interacts (s : KeyState) (event : InteractionEvent) (s' : KeyState) : Type 0 where
  pub continues : Continues s s'
  pub same_prefix : event.prefix ≡ s.prefix
  pub chained : event.prior_said ≡ s.last_event_digest
  pub digest : s'.last_event_digest ≡ event.said
  pub said_kept : s'.said ≡ s.said
  pub keys_kept : s'.keys ≡ s.keys
  pub threshold_kept : s'.threshold ≡ s.threshold
  pub next_keys_kept : s'.next_keys ≡ s.next_keys
  pub next_threshold_kept : s'.next_threshold ≡ s.next_threshold
  pub backers_kept : s'.backers ≡ s.backers
  pub backer_threshold_kept : s'.backer_threshold ≡ s.backer_threshold

apply_interaction-Interacts :
    (s : KeyState) (event : InteractionEvent) (s' : KeyState)
    → KeyState.apply_interaction s event ≡ ok s'
    → Interacts s event s'
unfolding KeyState.apply_interaction
apply_interaction-Interacts s event s' h =
    ground (arith, eq_iff event.prefix s.prefix, eq_iff event.prior_said s.last_event_digest)

module _ (d : Deps) where
  -- The arms of `update` and those of `verify_update`, written separately in the code, do the same:
  -- verifying and then applying is updating, on every outcome, with the same error where there is
  -- one.
  pub update-eq-verify_update :
      (k : Kever) (serder : Serder) (sigs : List Siger)
      → update d k serder sigs
        ≡ (verify_update d k serder sigs >>= λ s. ok (apply_verified_update k s))
  unfolding update verify_update apply_verified_update
  update-eq-verify_update k serder sigs = ground arith

  -- On the parts of a JSON message the owned form accepts what the borrowed form accepts, with the
  -- same next state. (They differ in the error for an unreadable sequence number.)
  pub verify_update_owned_iff :
      (k : Kever) (serder : Serder) (sigs : List Siger) (s : KeyState)
      → serder.kind ≡ json
      → (verify_update_owned d k serder.raw serder.sad sigs ≡ ok s)
        ↔ (verify_update d k serder sigs ≡ ok s)
  unfolding verify_update verify_update_owned Serder.ilk Serder.sn Serder.verify_said
  verify_update_owned_iff k serder sigs s h = ground arith

  -- The signatures meet the threshold of the keys, all of which parse.
  pub record Signed (keys : List String) (threshold : Threshold) (raw : Bytes) (sigs : List Siger)
      : Type 0 where
    pub verfers : List Verfer
    pub keys_parse : verfers_from_keys d keys ≡ ok verfers
    pub met : verify_sigs_static d raw sigs verfers threshold ≡ ok tt

  -- A rotation of an identifier that is not delegated, signed by the keys that it installs.
  pub record Rotated (s : KeyState) (raw : Bytes) (sad : Value) (sigs : List Siger) (s' : KeyState)
      : Type 0 where
    pub event : RotationEvent
    pub parses : d.to_rotation sad ≡ some event
    pub not_delegated : s.delegated ≡ false
    pub signed : Signed event.keys event.keys_threshold raw sigs
    pub rotates : Rotates d.crypto s event s'

  -- An interaction, signed by the current keys.
  pub record Interacted (s : KeyState) (raw : Bytes) (sad : Value) (sigs : List Siger)
      (s' : KeyState) : Type 0 where
    pub event : InteractionEvent
    pub parses : d.to_interaction sad ≡ some event
    pub signed : Signed s.keys s.threshold raw sigs
    pub interacts : Interacts s event s'

  -- The `rot` arm of `verify_update`.
  verify_update-Rotated :
      (k : Kever) (serder : Serder) (sigs : List Siger) (s' : KeyState)
      → Serder.ilk serder ≡ ok "rot"
      → verify_update d k serder sigs ≡ ok s'
      → Rotated k.state serder.raw serder.sad sigs s'
  unfolding verify_update reject_plain_rotation_when_delegated
  verify_update-Rotated k serder sigs s' i h = elim (Option-cases (d.to_rotation serder.sad)) [
    | inl e ↦ absurd (ground arith)
    | inr (event, e) ↦ elim (Result-cases (verfers_from_keys d event.keys)) [
      | inr (x, p) ↦ absurd (ground arith)
      | inl (verfers, p) ↦ record {
        event = event;
        parses = e;
        not_delegated = ground arith;
        signed = record { verfers = verfers; keys_parse = p; met = ground arith };
        rotates = apply_rotation-Rotates d.crypto k.state event s' (ground arith);
      }
    ]
  ]

  -- The `ixn` arm of `verify_update`.
  verify_update-Interacted :
      (k : Kever) (serder : Serder) (sigs : List Siger) (s' : KeyState)
      → Serder.ilk serder ≡ ok "ixn"
      → verify_update d k serder sigs ≡ ok s'
      → Interacted k.state serder.raw serder.sad sigs s'
  unfolding verify_update
  verify_update-Interacted k serder sigs s' i h =
      elim (Option-cases (d.to_interaction serder.sad)) [
        | inl e ↦ absurd (ground arith)
        | inr (event, e) ↦ elim (Result-cases (verfers_from_keys d k.state.keys)) [
          | inr (x, p) ↦ absurd (ground arith)
          | inl (verfers, p) ↦ record {
            event = event;
            parses = e;
            signed = record { verfers = verfers; keys_parse = p; met = ground arith };
            interacts = apply_interaction-Interacts k.state event s' (ground arith);
          }
        ]
      ]

  -- The messages that `verify_update` takes at all.
  verify_update_guards :
      (k : Kever) (serder : Serder) (sigs : List Siger) (s' : KeyState)
      → verify_update d k serder sigs ≡ ok s'
      → (k.incepted ≡ true)
        × (Serder.verify_said d serder "E" ≡ ok tt)
        × ((Serder.ilk serder ≡ ok "rot") ⊎ (Serder.ilk serder ≡ ok "ixn"))
  unfolding verify_update
  verify_update_guards k serder sigs s' h = elim (Result-cases (Serder.ilk serder)) [
    | inr (x, p) ↦ absurd (ground arith)
    | inl (ilk, p) ↦ ground (arith, eq_iff ilk "rot", eq_iff ilk "ixn")
  ]

  -- An accepted update is of an incepted verifier, by a message whose digest verifies, and is
  -- either a rotation (never of a delegated identifier) signed by the keys that it installs, which
  -- open the prior commitments, or an interaction signed by the current keys, which stay.
  pub verify_update_sound :
      (k : Kever) (serder : Serder) (sigs : List Siger) (s' : KeyState)
      → verify_update d k serder sigs ≡ ok s'
      → (k.incepted ≡ true)
        × (Serder.verify_said d serder "E" ≡ ok tt)
        × (((Serder.ilk serder ≡ ok "rot") × Rotated k.state serder.raw serder.sad sigs s')
            ⊎ ((Serder.ilk serder ≡ ok "ixn") × Interacted k.state serder.raw serder.sad sigs s'))
  verify_update_sound k serder sigs s' h =
      let (incepted, said, ilk) = verify_update_guards k serder sigs s' h in
      (
        incepted,
        said,
        elim ilk [
          | inl i ↦ inl (i, verify_update-Rotated k serder sigs s' i h)
          | inr i ↦ inr (i, verify_update-Interacted k serder sigs s' i h)
        ],
      )
