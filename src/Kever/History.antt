-- ===== src/Kever/History.antt =====
-- A key event log as a sequence of accepted updates, and what holds of the verifier throughout.
use affinidi_keri_rs.Prelude.{
  ◌+◌, ◌%◌, ◌≤◌, ◌<◌, String, ◌≡◌, refl, sym, subst, ◌∙◌, ◌↔◌, inl, inr, true, some, List, [], ◌∷◌,
  arith, Option-cases, nat_eq, string_eq, u64_mod, length,
}
use affinidi_keri_rs.Prelude.Result.{ok, Result-cases}
use affinidi_keri_rs.Crypto.Siger.{Siger}
use affinidi_keri_rs.Deps.{Deps}
use affinidi_keri_rs.Serder
use affinidi_keri_rs.Serder.{Serder}
use affinidi_keri_rs.Event.{DelegatedRotationEvent}
use affinidi_keri_rs.KeyState
use affinidi_keri_rs.KeyState.{KeyState, as_rotation}
use affinidi_keri_rs.KeyState.Rotation.{apply_rotation-Rotates}
use affinidi_keri_rs.Delegation.{DelegationProof, DelegatorAnchors}
use affinidi_keri_rs.Kever.{
  Kever, update, verify_update, verify_update_delegated, apply_verified_update,
}
use affinidi_keri_rs.Kever.Updates.{Continues, verify_update_sound, update-eq-verify_update}

-- What every reachable key state satisfies: the sequence number fits its type, the witnesses can
-- meet their threshold, and a delegator is recorded exactly for a delegated identifier.
pub record WellFormed (s : KeyState) : Type 0 where
  pub sn_fits : s.sn < u64_mod
  pub backers_enough : s.backer_threshold ≤ length s.backers
  pub delegator_known : s.delegated ≡ true ↔ ((name : String) × (s.delegator ≡ some name))

module _ (d : Deps) where
  -- An event that a verifier takes: a plain one, or a delegated rotation with its proof.
  pub data Message : Type 0 where
    plain : Serder → List Siger → Message
    delegated : Serder → List Siger → DelegationProof → DelegatorAnchors → Message

  -- One accepted event, which ends in the assignment of the state.
  pub data Step : Kever → Message → Kever → Type 0 where
    plain_step :
        (k : Kever) (serder : Serder) (sigs : List Siger) (k' : Kever)
        → update d k serder sigs ≡ ok k'
        → Step k (plain serder sigs) k'
    delegated_step :
        (k : Kever) (serder : Serder) (sigs : List Siger) (proof : DelegationProof)
        (source : DelegatorAnchors) (s : KeyState)
        → verify_update_delegated d k serder sigs proof source ≡ ok s
        → Step k (delegated serder sigs proof source) (apply_verified_update k s)

  pub data Accepts : Kever → List Message → Kever → Type 0 where
    done : (k : Kever) → Accepts k [] k
    next :
        (k : Kever) (m : Message) (k' : Kever) (log : List Message) (k'' : Kever)
        → Step k m k'
        → Accepts k' log k''
        → Accepts k (m ∷ log) k''

  delegated_rotates :
      (s : KeyState) (event : DelegatedRotationEvent) (s' : KeyState)
      → KeyState.apply_delegated_rotation d.crypto s event ≡ ok s'
      → Continues s s' × (s'.backer_threshold ≤ length s'.backers)
  unfolding KeyState.apply_delegated_rotation
  delegated_rotates s event s' h = elim (Option-cases s.delegator) [
    | inl e ↦ absurd (ground arith)
    | inr (known, e) ↦
        (let t = apply_rotation-Rotates d.crypto s (as_rotation event) s' (ground arith) in
          (
            record {
              prefix_kept = t.prefix_kept;
              sn_next = t.sn_next;
              delegated_kept = t.delegated;
              delegator_kept = t.delegator;
            },
            t.backers_enough,
          ))
  ]

  delegated-Continues :
      (k : Kever) (serder : Serder) (sigs : List Siger) (proof : DelegationProof)
      (source : DelegatorAnchors) (s' : KeyState)
      → verify_update_delegated d k serder sigs proof source ≡ ok s'
      → Continues k.state s' × (s'.backer_threshold ≤ length s'.backers)
  unfolding verify_update_delegated
  delegated-Continues k serder sigs proof source s' h = elim (Result-cases (Serder.ilk serder)) [
    | inr (x, p) ↦ absurd (ground arith)
    | inl (ilk, p) ↦ elim (Result-cases (Serder.sn serder)) [
      | inr (x, q) ↦ absurd (ground arith)
      | inl (sn, q) ↦ elim (Option-cases (d.to_delegated_rotation serder.sad)) [
        | inl e ↦ absurd (ground arith)
        | inr (event, e) ↦ delegated_rotates k.state event s' (ground arith)
      ]
    ]
  ]

  pub plain-Continues :
      (k : Kever) (serder : Serder) (sigs : List Siger) (s' : KeyState)
      → k.state.backer_threshold ≤ length k.state.backers
      → verify_update d k serder sigs ≡ ok s'
      → Continues k.state s' × (s'.backer_threshold ≤ length s'.backers)
  plain-Continues k serder sigs s' w h =
      let (incepted, said, cases) = verify_update_sound d k serder sigs s' h in
      elim cases [
        | inl (e, r) ↦
            (let t = r.rotates in
              (
                record {
                  prefix_kept = t.prefix_kept;
                  sn_next = t.sn_next;
                  delegated_kept = t.delegated;
                  delegator_kept = t.delegator;
                },
                t.backers_enough,
              ))
        | inr (e, i) ↦
            (let t = i.interacts in (t.continues, rw (t.backers_kept, t.backer_threshold_kept) w))
      ]

  pub Continues-WellFormed :
      (s s' : KeyState)
      → WellFormed s
      → Continues s s'
      → s'.backer_threshold ≤ length s'.backers
      → WellFormed s'
  Continues-WellFormed s s' w c b = record {
    sn_fits = subst (λ n. n < u64_mod) (sym c.sn_next) (omega arith);
    backers_enough = b;
    delegator_known = rw (c.delegated_kept, c.delegator_kept) w.delegator_known;
  }

  applied :
      (k : Kever) (s : KeyState)
      → WellFormed k.state
      → Continues k.state s × (s.backer_threshold ≤ length s.backers)
      → Continues k.state (apply_verified_update k s).state
        × WellFormed (apply_verified_update k s).state
        × ((apply_verified_update k s).incepted ≡ k.incepted)
  unfolding apply_verified_update
  applied k s w (c, b) = (c, Continues-WellFormed k.state s w c b, refl)

  Step-Continues :
      (k : Kever) (m : Message) (k' : Kever)
      → WellFormed k.state
      → Step k m k'
      → Continues k.state k'.state × WellFormed k'.state × (k'.incepted ≡ k.incepted)
  Step-Continues _ _ _ w (plain_step k serder sigs k' h) =
      elim (Result-cases (verify_update d k serder sigs)) [
        | inr (x, p) ↦ absurd (ground (arith, update-eq-verify_update d k serder sigs))
        | inl (s, p) ↦
            (let e : k' ≡ apply_verified_update k s =
                ground (arith, update-eq-verify_update d k serder sigs) in
              subst
                (λ k'.
                  Continues k.state k'.state × WellFormed k'.state × (k'.incepted ≡ k.incepted))
                (sym e) (applied k s w (plain-Continues k serder sigs s w.backers_enough p)))
      ]
  Step-Continues _ _ _ w (delegated_step k serder sigs proof source s h) =
      applied k s w (delegated-Continues k serder sigs proof source s h)

  -- After any log of accepted events, plain and delegated, the verifier still stands for the same
  -- identifier with the same delegator, its state is well formed, and its sequence number has gone
  -- up by one for each event (modulo 2 ^ 64, as the addition wraps in a release build).
  pub Accepts-keeps :
      (k : Kever) (log : List Message) (k' : Kever)
      → WellFormed k.state
      → Accepts k log k'
      → (k'.state.prefix ≡ k.state.prefix)
        × (k'.state.delegated ≡ k.state.delegated)
        × (k'.state.delegator ≡ k.state.delegator)
        × (k'.state.sn ≡ (k.state.sn + length log) % u64_mod)
        × WellFormed k'.state
  Accepts-keeps _ _ _ w (done k) = (refl, refl, refl, (let fits = w.sn_fits in omega arith), w)
  Accepts-keeps _ _ _ w (next k m k' log k'' h rest) =
      let (c, w', i) = Step-Continues k m k' w h in
      let (p, g, n, e, w'') = Accepts-keeps k' log k'' w' rest in
      (
        p ∙ c.prefix_kept,
        g ∙ c.delegated_kept,
        n ∙ c.delegator_kept,
        (let step = c.sn_next in omega arith),
        w'',
      )
