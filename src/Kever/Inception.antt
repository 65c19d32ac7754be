-- ===== src/Kever/Inception.antt =====
-- `new` and `new_from_parts`: how they agree, and what an accepted inception has shown.
use affinidi_keri_rs.Prelude.{
  String, ◌≡◌, refl, sym, ap, subst, ◌∙◌, ◌⊎◌, inl, inr, true, false, some, List, [], ◌∷◌, arith,
  eq_iff, Bool-cases, Option-cases, ◌==◌, nat_eq, string_eq, length, get_elem?,
}
use affinidi_keri_rs.Prelude.Result.{ok, is_ok, Result-cases}
use affinidi_keri_rs.Json.{get_str}
use affinidi_keri_rs.Crypto.Siger.{Siger}
use affinidi_keri_rs.Crypto.Verfer.{Verfer}
use affinidi_keri_rs.Version.{json}
use affinidi_keri_rs.Deps.{Deps}
use affinidi_keri_rs.Event.{InceptionEvent}
use affinidi_keri_rs.KeyState.{KeyState, from_inception}
use affinidi_keri_rs.Serder
use affinidi_keri_rs.Serder.{Serder}
use affinidi_keri_rs.Crypto.Verfer
use affinidi_keri_rs.Crypto.Diger
use affinidi_keri_rs.Crypto.Extern.{Bytes}
use affinidi_keri_rs.Json.{Value}
use affinidi_keri_rs.Kever.{
  Kever, new, new_from_parts, incept, keys_match, verify_sigs_static, validate_prefix_derivation,
}
use affinidi_keri_rs.Kever.History.{WellFormed}

module _ (d : Deps) where
  dip-not_icp : (ilk : String) → (ilk == "icp") ≡ true → (ilk == "dip") ≡ false
  dip-not_icp ilk h = let e : ilk ≡ "icp" = (eq_iff ilk "icp").0 h in rw e refl

  -- On a JSON message the two constructors have the same outcome, errors included.
  pub new-eq-new_from_parts :
      (serder : Serder) (sigs : List Siger) (verfers : List Verfer)
      → serder.kind ≡ json
      → new d serder sigs verfers ≡ new_from_parts d serder.raw serder.sad sigs verfers
  unfolding new new_from_parts Serder.ilk Serder.verify_said
  new-eq-new_from_parts serder sigs verfers h = elim (Option-cases (get_str serder.sad "t")) [
    | inl e ↦ ground arith
    | inr (ilk, e) ↦ ground (arith, dip-not_icp ilk)
  ]

  -- The event's keys are the texts of the verifiers, in order and number.
  abbrev pub KeysAre : List String → List Verfer → Type 0
  KeysAre [] [] = Unit
  KeysAre (k ∷ ks) (v ∷ vs) = (Verfer.qb64 d.crypto v ≡ ok k) × KeysAre ks vs
  KeysAre _ _ = ⊥

  pub keys_match-KeysAre :
      (ks : List String) (vs : List Verfer)
      → length ks ≡ length vs
      → keys_match d ks vs ≡ ok tt
      → KeysAre ks vs
  unfolding keys_match
  keys_match-KeysAre [] [] l h = tt
  keys_match-KeysAre [] (v ∷ vs) l h = absurd (omega arith)
  keys_match-KeysAre (k ∷ ks) [] l h = absurd (omega arith)
  keys_match-KeysAre (k ∷ ks) (v ∷ vs) l h = elim (Result-cases (Verfer.qb64 d.crypto v)) [
    | inr (e, p) ↦ absurd (ground arith)
    | inl (text, p) ↦ (
      p ∙ ap ok (ground (arith, eq_iff k text)),
      keys_match-KeysAre ks vs (omega arith) (ground (arith, eq_iff k text)),
    )
  ]

  -- What ties a prefix to the event that creates it: it is the event's digest, or it is the first
  -- key; which one is decided by what the prefix parses as.
  abbrev pub Bound : InceptionEvent → Type 0
  Bound icp =
      ((is_ok (Diger.from_qb64 d.crypto icp.prefix) ≡ true) × (icp.prefix ≡ icp.said))
      ⊎ ((is_ok (Diger.from_qb64 d.crypto icp.prefix) ≡ false)
          × (is_ok (Verfer.from_qb64 d.crypto icp.prefix) ≡ true)
          × (get_elem? icp.keys 0 ≡ some icp.prefix))

  List-cases :
      (ks : List String) → (ks ≡ []) ⊎ ((k : String) × (rest : List String) × (ks ≡ k ∷ rest))
  List-cases [] = inl refl
  List-cases (k ∷ rest) = inr (k, rest, refl)

  validate_prefix_derivation-Bound :
      (icp : InceptionEvent) → validate_prefix_derivation d icp ≡ ok tt → Bound icp
  unfolding validate_prefix_derivation
  validate_prefix_derivation-Bound icp h =
      elim (Bool-cases (is_ok (Diger.from_qb64 d.crypto icp.prefix))) [
        | inl p ↦ inl (p, ground (arith, eq_iff icp.prefix icp.said))
        | inr p ↦ elim (List-cases icp.keys) [
          | inl e ↦ absurd (ground arith)
          | inr (k, rest, e) ↦ inr (
            p,
            ground arith,
            rw (e, get_elem?) (ap some (sym ((eq_iff icp.prefix k).0 (ground arith)))),
          )
        ]
      ]

  from_inception-WellFormed :
      (icp : InceptionEvent) (s : KeyState) → from_inception icp ≡ ok s → WellFormed s
  unfolding from_inception
  from_inception-WellFormed icp s h = record {
    sn_fits = ground arith;
    backers_enough = ground arith;
    delegator_known = ground arith;
  }

  -- The state that an accepted inception starts from.
  pub record Starts (icp : InceptionEvent) (s : KeyState) : Type 0 where
    pub well_formed : WellFormed s
    pub sn : s.sn ≡ 0
    pub prefix : s.prefix ≡ icp.prefix
    pub keys : s.keys ≡ icp.keys
    pub threshold : s.threshold ≡ icp.keys_threshold
    pub next_keys : s.next_keys ≡ icp.next_keys
    pub backers : s.backers ≡ icp.backers
    pub digest : s.last_event_digest ≡ icp.said
    pub not_delegated : s.delegated ≡ false

  from_inception-Starts :
      (icp : InceptionEvent) (s : KeyState) → from_inception icp ≡ ok s → Starts icp s
  unfolding from_inception
  from_inception-Starts icp s h =
      let well_formed = from_inception-WellFormed icp s h in ground (arith, well_formed)

  pub record Incepted (raw : Bytes) (sad : Value) (sigs : List Siger) (verfers : List Verfer)
      (k : Kever) : Type 0 where
    pub icp : InceptionEvent
    pub parses : d.to_inception sad ≡ some icp
    pub keys : KeysAre icp.keys verfers
    pub signed : verify_sigs_static d raw sigs verfers icp.keys_threshold ≡ ok tt
    pub bound : Bound icp
    pub starts : Starts icp k.state
    pub incepted : k.incepted ≡ true

  incept-Incepted :
      (raw : Bytes) (sad : Value) (sigs : List Siger) (verfers : List Verfer) (k : Kever)
      → incept d raw sad sigs verfers ≡ ok k
      → Incepted raw sad sigs verfers k
  unfolding incept
  incept-Incepted raw sad sigs verfers k h = elim (Option-cases (d.to_inception sad)) [
    | inl e ↦ absurd (ground arith)
    | inr (icp, e) ↦ elim (Result-cases (from_inception icp)) [
      | inr (x, p) ↦ absurd (ground arith)
      | inl (s, p) ↦ record {
        icp = icp;
        parses = e;
        keys = keys_match-KeysAre icp.keys verfers (ground arith) (ground arith);
        signed = ground arith;
        bound = validate_prefix_derivation-Bound icp (ground arith);
        starts = subst (λ t. Starts icp t) (ground arith) (from_inception-Starts icp s p);
        incepted = ground arith;
      }
    ]
  ]

  pub new_from_parts-Incepted :
      (raw : Bytes) (sad : Value) (sigs : List Siger) (verfers : List Verfer) (k : Kever)
      → new_from_parts d raw sad sigs verfers ≡ ok k
      → Incepted raw sad sigs verfers k
  unfolding new_from_parts
  new_from_parts-Incepted raw sad sigs verfers k h =
      incept-Incepted raw sad sigs verfers k (ground arith)

  -- An accepted inception is a plain one whose digest verifies, whose keys are those of the given
  -- verifiers, which signed it to its threshold, and whose prefix is bound to it; the verifier then
  -- starts at sequence number 0 with a well-formed state that is not delegated.
  pub new_sound :
      (serder : Serder) (sigs : List Siger) (verfers : List Verfer) (k : Kever)
      → new d serder sigs verfers ≡ ok k
      → (Serder.ilk serder ≡ ok "icp")
        × (Serder.verify_said d serder "E" ≡ ok tt)
        × Incepted serder.raw serder.sad sigs verfers k
  unfolding new
  new_sound serder sigs verfers k h = elim (Result-cases (Serder.ilk serder)) [
    | inr (x, p) ↦ absurd (ground arith)
    | inl (ilk, p) ↦ (
      p ∙ ap ok (ground (arith, eq_iff ilk "icp")),
      ground arith,
      incept-Incepted serder.raw serder.sad sigs verfers k (ground arith),
    )
  ]
