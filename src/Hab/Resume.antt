-- ===== src/Hab/Resume.antt =====
-- `Hab::resume`: a local identifier is rebuilt from its state and its salt.
use affinidi_keri_rs.Prelude.{
  ℕ, zero, suc, ◌+◌, String, ◌≡◌, refl, ap, subst, inl, inr, Bool, some, List, ◌∷◌, arith,
  Bool-cases, nat_eq, string_eq, pair_eq, succ_u64, length,
}
use affinidi_keri_rs.Prelude.Result.{
  ok, ok_or, Result-cases, >>=-eq-ok, map_err-eq-ok, >>=-elim, ok-eq-ok,
}
use affinidi_keri_rs.Json.{Value}
use affinidi_keri_rs.Crypto.Extern.{Bytes}
use affinidi_keri_rs.Crypto.Salter
use affinidi_keri_rs.Crypto.Salter.{Salter}
use affinidi_keri_rs.Crypto.Signer.{Signer}
use affinidi_keri_rs.Error.{KeriError, KeriResult, keri_crypto}
use affinidi_keri_rs.Deps.{Deps}
use affinidi_keri_rs.Version.{json}
use affinidi_keri_rs.Config.{InceptionConfig, RotationConfig}
use affinidi_keri_rs.Hab.Sads.{
  Hab, SignedEvent, state, rotated, interacted, new_hab, icp_sad, rot_sad, hab_data,
}
use affinidi_keri_rs.Hab.Signing.{derive, derive_from, keys_of, digests_of, sign_event, path_of}
use affinidi_keri_rs.Hab.{
  incept_inner, rotation, rotate_inner, interaction, interact_inner, resume, salter_of,
}

module _ (d : Deps) where
  length-derive_from :
      (salter : Salter) (code : String) (transferable : Bool) (generation i count : ℕ)
      (signers : List Signer)
      → derive_from d salter code transferable generation i count ≡ ok signers
      → length signers ≡ count
  unfolding derive_from
  length-derive_from salter code transferable generation i zero signers h = ground arith
  length-derive_from salter code transferable generation i (suc count) signers h =
      let (s, e, r) =
        >>=-eq-ok
          (keri_crypto
            (Salter.signer d.crypto salter code (path_of generation i) "low" transferable))
          _ h in
      let (ss, f, q) =
        >>=-eq-ok (derive_from d salter code transferable generation (i + 1) count) _ r in
      let same : s ∷ ss ≡ signers = cc (q) in
      omega (
        arith,
        ap {A = List Signer} length same,
        length-derive_from salter code transferable generation (i + 1) count ss f,
      )

  -- The keys of a generation, as many as there are.
  abbrev pub Derives : Hab → ℕ → List Signer → Type 0
  Derives h generation signers =
      derive d h.salter h.code h.transferable generation (length signers) ≡ ok signers

  derive-Derives :
      (h : Hab) (generation count : ℕ) (signers : List Signer)
      → derive d h.salter h.code h.transferable generation count ≡ ok signers
      → Derives h generation signers
  unfolding derive
  derive-Derives h generation count signers e =
      rw (length-derive_from h.salter h.code h.transferable generation 0 count signers e) e

  -- Both key sets are those of the recorded generations.
  pub record IsDerived (salt : Bytes) (h : Hab) : Type 0 where
    pub salter : Salter.new d.crypto "0A" salt ≡ ok h.salter
    pub current : Derives h h.signer_gen h.signers
    pub next : Derives h h.next_gen h.next_signers

  resume-state : (salt : Bytes) (h : Hab) → IsDerived salt h → resume d (state h) salt ≡ ok h
  unfolding resume state
  resume-state salt h i = rw (i.salter, i.current, i.next)

  module _ (S : Type 0) (salt : Bytes) where
    -- The life of an identifier with a salt: its inception, then rotations and interactions in any
    -- order, with any settings, each written anywhere, whether they succeed or fail.
    pub data Life : Hab → Type 0 where
      incepted :
          (name : String) (config : InceptionConfig) (random : Bytes)
          (save : SignedEvent → Bytes → KeriResult S) (h : Hab) (event : SignedEvent) (saved : S)
          → config.salt ≡ some salt
          → incept_inner d name config random save ≡ ok (h, event, saved)
          → Life h
      rotates :
          (h : Hab) (config : RotationConfig) (save : SignedEvent → KeriResult S)
          → Life h
          → Life (rotate_inner d h config save).0
      interacts :
          (h : Hab) (anchors : List Value) (save : SignedEvent → KeriResult S)
          → Life h
          → Life (interact_inner d h anchors save).0

    new_hab-IsDerived :
        (name : String) (config : InceptionConfig) (salter : Salter) (signers next : List Signer)
        (event : SignedEvent)
        → Salter.new d.crypto "0A" salt ≡ ok salter
        → derive d salter config.code config.transferable 0 config.count ≡ ok signers
        → derive d salter config.code config.transferable 1 config.next_count ≡ ok next
        → IsDerived salt (new_hab name config salter signers next event)
    unfolding new_hab
    new_hab-IsDerived name config salter signers next event s g n =
        let h = new_hab name config salter signers next event in
        record {
          salter = s;
          current = derive-Derives h 0 config.count signers g;
          next = derive-Derives h 1 config.next_count next n;
        }

    incept_inner-IsDerived :
        (name : String) (config : InceptionConfig) (random : Bytes)
        (save : SignedEvent → Bytes → KeriResult S) (h : Hab) (event : SignedEvent) (saved : S)
        → config.salt ≡ some salt
        → incept_inner d name config random save ≡ ok (h, event, saved)
        → IsDerived salt h
    unfolding incept_inner salter_of
    incept_inner-IsDerived name config random save h event saved e r =
        >>=-elim (λ t. IsDerived salt t.0) (salter_of d config.salt random) _
          (λ salter s.
            >>=-elim (λ t. IsDerived salt t.0)
              (derive d salter config.code config.transferable 0 config.count) _
              λ signers g.
                >>=-elim (λ t. IsDerived salt t.0)
                  (derive d salter config.code config.transferable 1 config.next_count) _
                  λ next n.
                    >>=-elim (λ t. IsDerived salt t.0) (keys_of d signers) _
                      λ keys x1.
                        >>=-elim (λ t. IsDerived salt t.0) (digests_of d next) _
                          λ digests x2.
                            >>=-elim (λ t. IsDerived salt t.0)
                              (sign_event d (icp_sad config keys digests) signers) _
                              λ event' x3.
                                >>=-elim (λ t. IsDerived salt t.0)
                                  (ok_or (d.serialize json (hab_data name event'.said config))
                                    KeriError.config)
                                  _
                                  λ bytes x4.
                                    >>=-elim (λ t. IsDerived salt t.0) (save event' bytes) _
                                      λ saved' x5 t r8.
                                        subst (λ t. IsDerived salt t.0) (ok-eq-ok r8)
                                          (new_hab-IsDerived name config salter signers next event'
                                            (map_err-eq-ok _ _ (rw e at s)) g n))
          (h, event, saved) r

    rotation-next :
        (h : Hab) (config : RotationConfig) (save : SignedEvent → KeriResult S) (next : List Signer)
        (event : SignedEvent) (saved : S)
        → rotation d h config save ≡ ok (next, event, saved)
        → derive d h.salter h.code h.transferable (succ_u64 h.key_gen) config.next_count ≡ ok next
    unfolding rotation
    rotation-next h config save next event saved r =
        let (next', n, r1) =
          >>=-eq-ok (derive d h.salter h.code h.transferable (succ_u64 h.key_gen) config.next_count)
            _ r in
        let (keys, x1, r2) = >>=-eq-ok (keys_of d h.next_signers) _ r1 in
        let (digests, x2, r3) = >>=-eq-ok (digests_of d next') _ r2 in
        let (event', x3, r4) =
          >>=-eq-ok (sign_event d (rot_sad h config keys digests) h.next_signers) _ r3 in
        let (saved', x4, r5) = >>=-eq-ok (save event') _ r4 in
        let is : next' ≡ next = cc (r5) in rw is at n

    rotate_inner-IsDerived :
        (h : Hab) (config : RotationConfig) (save : SignedEvent → KeriResult S)
        → IsDerived salt h
        → IsDerived salt (rotate_inner d h config save).0
    unfolding rotate_inner rotated
    rotate_inner-IsDerived h config save i = elim (Bool-cases h.transferable) [
      | inr e ↦ rw (e, rotate_inner) i
      | inl t ↦ elim (Result-cases (rotation d h config save)) [
        | inl ((next, event, saved), e) ↦
            rw (t, e, rotate_inner)
              (record {
                salter = i.salter;
                current = i.next;
                next =
                    derive-Derives h (succ_u64 h.key_gen) config.next_count next
                      (rotation-next h config save next event saved e);
              })
        | inr (x, e) ↦
            rw (t, e, rotate_inner) (record { salter = i.salter; current = i.current; next = refl })
      ]
    ]

    interact_inner-IsDerived :
        (h : Hab) (anchors : List Value) (save : SignedEvent → KeriResult S)
        → IsDerived salt h
        → IsDerived salt (interact_inner d h anchors save).0
    unfolding interact_inner interacted
    interact_inner-IsDerived h anchors save i = elim (Result-cases (interaction d h anchors save)) [
      | inl ((event, saved), e) ↦
          rw (e, interact_inner) (record { salter = i.salter; current = i.current; next = i.next })
      | inr (x, e) ↦ rw (e, interact_inner) i
    ]

    pub Life-IsDerived : (h : Hab) → Life h → IsDerived salt h
    Life-IsDerived h (incepted name config random save _ event saved e r) =
        incept_inner-IsDerived name config random save h event saved e r
    Life-IsDerived _ (rotates h config save l) =
        rotate_inner-IsDerived h config save (Life-IsDerived h l)
    Life-IsDerived _ (interacts h anchors save l) =
        interact_inner-IsDerived h anchors save (Life-IsDerived h l)

    -- An identifier with a salt that is rebuilt from its state and that salt is the identifier as it
    -- was, keys included, at any point of its life: after its inception and any rotations and
    -- interactions, whether these succeeded or failed.
    pub Life-resume-state : (h : Hab) → Life h → resume d (state h) salt ≡ ok h
    Life-resume-state h l = resume-state salt h (Life-IsDerived h l)
