-- ===== src/Hab/Failure.antt =====
-- `Hab::rotate` when it fails.
use affinidi_keri_rs.Prelude.{
  ◌≡◌, refl, sym, ap, subst, inl, inr, true, List, [], Bool-cases, nat_eq, string_eq, pair_eq,
  succ_u64,
}
use affinidi_keri_rs.Prelude.Result.{ok, err, Result-cases, >>=-elim, ok-eq-ok, ok-ne-err}
use affinidi_keri_rs.Json.{Fields, object}
use affinidi_keri_rs.Crypto.Signer.{Signer}
use affinidi_keri_rs.CounterTable.{controller_idx_sigs}
use affinidi_keri_rs.Version.{json}
use affinidi_keri_rs.Error.{KeriError, KeriResult, from_core}
use affinidi_keri_rs.Deps.{Deps}
use affinidi_keri_rs.Said
use affinidi_keri_rs.Serder
use affinidi_keri_rs.Config.{RotationConfig}
use affinidi_keri_rs.Hab.Sads.{Hab, SignedEvent, rotated, taken, rot_sad}
use affinidi_keri_rs.Hab.Signing.{
  derive, keys_of, digests_of, sign_event, sign_from, fix_version_string, counter_qb64,
}
use affinidi_keri_rs.Hab.{rotation, rotate_inner}

module _ (d : Deps) where
  -- With no keys, a message is signed by none.
  sign_event_unsigned :
      (sad : Fields) (event : SignedEvent) → sign_event d sad [] ≡ ok event → event.signatures ≡ []
  unfolding sign_event sign_from
  sign_event_unsigned sad event =
      >>=-elim (λ e. e.signatures ≡ []) (fix_version_string d sad) _
        (λ sized x1.
          >>=-elim (λ e. e.signatures ≡ [])
            (from_core (Said.compute_said d (object sized) "d" "E" json)) _
            λ filled x2.
              >>=-elim (λ e. e.signatures ≡ []) (from_core (Serder.new d json filled.1)) _
                λ serder x3.
                  >>=-elim (λ e. e.signatures ≡ []) (counter_qb64 d serder controller_idx_sigs 0) _
                    λ counter x4 e r. subst (λ e. e.signatures ≡ []) (ok-eq-ok r) refl)
        event

  module _ {S : Type 0} where
    failed_rotation :
        (h h' : Hab) (config : RotationConfig) (save : SignedEvent → KeriResult S) (e : KeriError)
        → h.transferable ≡ true
        → rotate_inner d h config save ≡ (h', err e)
        → taken h ≡ h'
    unfolding rotate_inner
    failed_rotation h h' config save e t r = elim (Result-cases (rotation d h config save)) [
      | inl ((next, event, saved), q) ↦
          (let g = rw (t, q, rotate_inner) at r in absurd (ok-ne-err (ap (λ p. p.1) g)))
      | inr (x, q) ↦ (let g = rw (t, q, rotate_inner) at r in ap (λ p. p.0) g)
    ]

    -- The keys that a rotation signs with.
    pub rotation-signs :
        (h : Hab) (config : RotationConfig) (save : SignedEvent → KeriResult S)
        (t : List Signer × SignedEvent × S)
        → rotation d h config save ≡ ok t
        → (sad : Fields) × (sign_event d sad h.next_signers ≡ ok t.1)
    unfolding rotation
    rotation-signs h config save =
        let P : List Signer × SignedEvent × S → Type 0 =
          λ t. (sad : Fields) × (sign_event d sad h.next_signers ≡ ok t.1) in
        >>=-elim P (derive d h.salter h.code h.transferable (succ_u64 h.key_gen) config.next_count)
          _
          λ next x1. >>=-elim P (keys_of d h.next_signers) _ λ keys x2.
            >>=-elim P (digests_of d next) _ λ digests x3.
              >>=-elim P (sign_event d (rot_sad h config keys digests) h.next_signers) _ λ event x4.
                >>=-elim P (save event) _
                  λ saved x5 t r. subst P (ok-eq-ok r) (rot_sad h config keys digests, x4)

    -- A rotation that succeeds has installed no keys, and its event is signed by none.
    abbrev pub IsUnsigned : Hab × KeriResult (SignedEvent × S) → Type 0
    IsUnsigned (h, ok (event, saved)) = (h.signers ≡ []) × (event.signatures ≡ [])
    IsUnsigned (h, err e) = Unit

    rotate_inner-IsUnsigned :
        (h : Hab) (config : RotationConfig) (save : SignedEvent → KeriResult S)
        → h.next_signers ≡ []
        → IsUnsigned (rotate_inner d h config save)
    unfolding rotate_inner rotated
    rotate_inner-IsUnsigned h config save n = elim (Bool-cases h.transferable) [
      | inr f ↦ rw (f, rotate_inner) tt
      | inl t ↦ elim (Result-cases (rotation d h config save)) [
        | inr (x, q) ↦ rw (t, q, rotate_inner) tt
        | inl (done, q) ↦
            (let (sad, signed) = rotation-signs h config save done q in
              rw (t, q, rotate_inner)
                (
                  n,
                  sign_event_unsigned sad done.1
                      (subst (λ ks. sign_event d sad ks ≡ ok done.1) n signed),
                ))
      ]
    ]

    -- A rotation of a transferable identifier that fails, at whatever step, loses the pre-rotated
    -- keys: none are left, and if a further rotation is then tried, with whatever settings and store,
    -- either it fails or it installs no keys and its event is signed by none.
    pub failed_rotation_loses_keys :
        (h h' : Hab) (config again : RotationConfig) (save retry : SignedEvent → KeriResult S)
        (e : KeriError)
        → h.transferable ≡ true
        → rotate_inner d h config save ≡ (h', err e)
        → (h'.next_signers ≡ []) × IsUnsigned (rotate_inner d h' again retry)
    failed_rotation_loses_keys h h' config again save retry e t r =
        let none_left : h'.next_signers ≡ [] =
          ap (λ (x : Hab). x.next_signers) (sym (failed_rotation h h' config save e t r)) in
        (none_left, rotate_inner-IsUnsigned h' again retry none_left)
