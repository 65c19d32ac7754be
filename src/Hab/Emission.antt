-- ===== src/Hab/Emission.antt =====
-- The signatures of the events of a local identifier.
use affinidi_keri_rs.Prelude.{
  ℕ, zero, suc, ◌+◌, String, ◌≡◌, refl, ap, subst, inl, inr, Bool, true, List, [], ◌∷◌, ◌++◌,
  Bool-cases, nat_eq, string_eq, pair_eq, length, All,
}
use affinidi_keri_rs.Prelude.Result.{
  ok, err, Result-cases, >>=-eq-ok, map_err-eq-ok, >>=-elim, ok-eq-ok,
}
use affinidi_keri_rs.Prelude.Text.{codes}
use affinidi_keri_rs.Json.{Value, Fields, object}
use affinidi_keri_rs.Crypto.Extern.{Bytes}
use affinidi_keri_rs.Crypto.Siger
use affinidi_keri_rs.Crypto.Siger.{Siger}
use affinidi_keri_rs.Crypto.Salter
use affinidi_keri_rs.Crypto.Salter.{Salter}
use affinidi_keri_rs.Crypto.Signer.{Signer, new_with_transferable, sign_indexed}
use affinidi_keri_rs.Crypto.Signer.Signing.{IsSound, SignedWith, sign_indexed-SignedWith}
use affinidi_keri_rs.CounterTable.{controller_idx_sigs}
use affinidi_keri_rs.Version.{json}
use affinidi_keri_rs.Error.{KeriResult, keri_crypto, from_core}
use affinidi_keri_rs.Deps.{Deps}
use affinidi_keri_rs.Said
use affinidi_keri_rs.Serder
use affinidi_keri_rs.Composer.{sigs_text}
use affinidi_keri_rs.Config.{RotationConfig}
use affinidi_keri_rs.Hab.Sads.{Hab, SignedEvent, rotated, interacted, ixn_sad}
use affinidi_keri_rs.Hab.Signing.{
  derive, derive_from, sign_from, sign_event, fix_version_string, counter_qb64, path_of,
}
use affinidi_keri_rs.Hab.{rotation, rotate_inner, interaction, interact_inner}
use affinidi_keri_rs.Hab.Resume.{IsDerived, Derives, Life, Life-IsDerived}
use affinidi_keri_rs.Hab.Failure.{rotation-signs}

module _ (d : Deps) (sound : IsSound d.crypto) where
  -- The signer was made from a seed.
  record IsMade (s : Signer) : Type 0 where
    code : String
    seed : Bytes
    transferable : Bool
    made : new_with_transferable d.crypto code seed transferable ≡ ok s

  derive_from-IsMade :
      (salter : Salter) (code : String) (transferable : Bool) (generation i count : ℕ)
      (signers : List Signer)
      → derive_from d salter code transferable generation i count ≡ ok signers
      → All IsMade signers
  unfolding derive_from Salter.signer
  derive_from-IsMade salter code transferable generation i zero signers h =
      subst (All IsMade) (ok-eq-ok h) tt
  derive_from-IsMade salter code transferable generation i (suc count) signers h =
      >>=-elim (All IsMade)
        (keri_crypto (Salter.signer d.crypto salter code (path_of generation i) "low" transferable))
        _
        (λ s e.
          >>=-elim (All IsMade) (derive_from d salter code transferable generation (i + 1) count) _
            λ rest f b r.
              (let (size, x1, e1) =
                  >>=-eq-ok (Salter.key_size_for_code code) _ (map_err-eq-ok _ _ e) in
                let (seed, x2, e2) =
                  >>=-eq-ok (Salter.stretch d.crypto salter (path_of generation i) "low" size) _
                    e1 in
                subst (All IsMade) (ok-eq-ok r) (
                  record { code = code; seed = seed; transferable = transferable; made = e2 },
                  derive_from-IsMade salter code transferable generation (i + 1) count rest f,
                )))
        signers h

  -- The signatures by the keys of a list in order, from an index on: each verifies under the key of
  -- the signer at its place.
  abbrev pub SignedBy : Bytes → ℕ → List Signer → List Siger → Type 0
  SignedBy message i [] [] = Unit
  SignedBy message i (s ∷ ss) (g ∷ gs) =
      SignedWith d.crypto sound s message g × (g.indexer.index ≡ i) × SignedBy message (i + 1) ss gs
  SignedBy message i _ _ = ⊥

  abbrev Signs : Bytes → ℕ → List Signer → Bytes → Type 0
  Signs message i signers bytes =
      (sigs : List Siger) × (sigs_text d sigs ≡ ok bytes) × SignedBy message i signers sigs

  sign_from-Signs :
      (message : Bytes) (i : ℕ) (signers : List Signer) (bytes : Bytes)
      → All IsMade signers
      → sign_from d message i signers ≡ ok bytes
      → Signs message i signers bytes
  unfolding sign_from sigs_text
  sign_from-Signs message i [] bytes m h = ([], ap ok (ok-eq-ok h), tt)
  sign_from-Signs message i (s ∷ ss) bytes m h =
      >>=-elim (Signs message i (s ∷ ss)) (keri_crypto (sign_indexed d.crypto s message i true)) _
        (λ g e. >>=-elim (Signs message i (s ∷ ss)) (keri_crypto (Siger.qb64 d.crypto g)) _ λ t f.
          >>=-elim (Signs message i (s ∷ ss)) (sign_from d message (i + 1) ss) _ λ rest q b r.
            (let made = m.0 in
              let (sigs, text, signed) = sign_from-Signs message (i + 1) ss rest m.1 q in
              let valid =
                sign_indexed-SignedWith d.crypto sound made.code made.seed message made.transferable
                  s i true g made.made (map_err-eq-ok _ _ e) in
              let printed : sigs_text d (g ∷ sigs) ≡ ok (codes t ++ rest) =
                rw (map_err-eq-ok _ _ f, text) refl in
              subst (Signs message i (s ∷ ss)) (ok-eq-ok r)
                (g ∷ sigs, printed, (valid.0, valid.1, signed))))
        bytes h

  -- The event carries a signature by each of the keys.
  abbrev pub SignedEventBy : List Signer → SignedEvent → Type 0
  SignedEventBy signers event = Signs event.raw 0 signers event.signatures

  sign_event-SignedEventBy :
      (sad : Fields) (signers : List Signer) (event : SignedEvent)
      → All IsMade signers
      → sign_event d sad signers ≡ ok event
      → SignedEventBy signers event
  unfolding sign_event
  sign_event-SignedEventBy sad signers event m =
      >>=-elim (SignedEventBy signers) (fix_version_string d sad) _
        (λ sized x1.
          >>=-elim (SignedEventBy signers)
            (from_core (Said.compute_said d (object sized) "d" "E" json)) _
            λ filled x2.
              >>=-elim (SignedEventBy signers) (from_core (Serder.new d json filled.1)) _
                λ serder x3.
                  >>=-elim (SignedEventBy signers) (sign_from d serder.raw 0 signers) _
                    λ signatures q.
                      >>=-elim (SignedEventBy signers)
                        (counter_qb64 d serder controller_idx_sigs (length signers)) _
                        λ counter x4 e r.
                          subst (SignedEventBy signers) (ok-eq-ok r)
                            (sign_from-Signs serder.raw 0 signers signatures m q))
        event

  Derives-IsMade :
      (h : Hab) (generation : ℕ) (signers : List Signer)
      → Derives d h generation signers
      → All IsMade signers
  unfolding derive
  Derives-IsMade h generation signers e =
      derive_from-IsMade h.salter h.code h.transferable generation 0 (length signers) signers e

  module _ (S : Type 0) (salt : Bytes) where
    -- What an operation has returned.
    abbrev pub Emits : Hab × KeriResult (SignedEvent × S) → Type 0
    Emits (h, ok (event, saved)) = SignedEventBy h.signers event
    Emits (h, err e) = Unit

    rotate_inner-Emits :
        (h : Hab) (config : RotationConfig) (save : SignedEvent → KeriResult S)
        → IsDerived d salt h
        → Emits (rotate_inner d h config save)
    unfolding rotate_inner rotated
    rotate_inner-Emits h config save i = elim (Bool-cases h.transferable) [
      | inr f ↦ rw (f, rotate_inner) tt
      | inl t ↦ elim (Result-cases (rotation d h config save)) [
        | inr (x, q) ↦ rw (t, q, rotate_inner) tt
        | inl (done, q) ↦
            (let (sad, signed) = rotation-signs d h config save done q in
              rw (t, q, rotate_inner)
                (sign_event-SignedEventBy sad h.next_signers done.1
                  (Derives-IsMade h h.next_gen h.next_signers i.next) signed))
      ]
    ]

    interact_inner-Emits :
        (h : Hab) (anchors : List Value) (save : SignedEvent → KeriResult S)
        → IsDerived d salt h
        → Emits (interact_inner d h anchors save)
    unfolding interact_inner interaction interacted
    interact_inner-Emits h anchors save i = elim (Result-cases (interaction d h anchors save)) [
      | inr (x, q) ↦ rw (q, interact_inner) tt
      | inl (done, q) ↦
          (let (event, e, r) = >>=-eq-ok (sign_event d (ixn_sad h anchors) h.signers) _ q in
            let (saved, f, p) = >>=-eq-ok (save event) _ r in
            let is : event ≡ done.0 = ap (λ t. t.0) (ok-eq-ok p) in
            rw (q, interact_inner)
              (sign_event-SignedEventBy (ixn_sad h anchors) h.signers done.0
                (Derives-IsMade h h.signer_gen h.signers i.current) (rw is at e)))
    ]

    -- At any point of the life of an identifier with a salt, a rotation or an interaction that
    -- succeeds returns an event whose signatures are one for each of the keys that the identifier then
    -- has, in order and with their indexes, and each verifies under the key at its place: a rotation
    -- is signed by the keys that it installs. The condition is that the signature schemes are sound.
    pub Life-Emits :
        (h : Hab) (config : RotationConfig) (anchors : List Value)
        (save : SignedEvent → KeriResult S)
        → Life d S salt h
        → Emits (rotate_inner d h config save) × Emits (interact_inner d h anchors save)
    Life-Emits h config anchors save l =
        let i = Life-IsDerived d S salt h l in
        (rotate_inner-Emits h config save i, interact_inner-Emits h anchors save i)
