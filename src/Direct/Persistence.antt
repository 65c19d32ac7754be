-- ===== src/Direct/Persistence.antt =====
-- `process_parsed`: what a message changes.
use affinidi_keri_rs.Prelude.{
  ◌<◌, String, ◌≡◌, refl, ap, ◌∙◌, ◌≢◌, ◌⊎◌, inl, inr, ◌||◌, none, some, List, [], arith, eq_iff,
  Bool-cases, Option-cases, ◌==◌, nat_eq, string_eq, pair_eq,
}
use affinidi_keri_rs.Prelude.Result.{ok, Result-cases}
use affinidi_keri_rs.Prelude.Map.{find, put, find-put}
use affinidi_keri_rs.Crypto.Extern.{Bytes}
use affinidi_keri_rs.Crypto.Siger.{Siger}
use affinidi_keri_rs.Crypto.Verfer.{Verfer}
use affinidi_keri_rs.Deps.{Deps}
use affinidi_keri_rs.Serder.{Serder}
use affinidi_keri_rs.KeyState.{KeyState}
use affinidi_keri_rs.Kever.{
  Kever, new_from_parts, verify_update_owned, verify_witness_receipts,
  verify_witness_receipts_static, apply_verified_update,
}
use affinidi_keri_rs.Store.{KeriStore}
use affinidi_keri_rs.Direct.{
  Kevers, ProcessResult, extract_controller_sigs, collect, header, process_inception, process_event,
  process_ilk, process_parsed, sigs_or_none, verfers_from_serder,
}
use affinidi_keri_rs.Parser.Message.{ParsedMessage}

-- What a message of a known type is taken with: its header, signatures, their bytes and receipts.
pub record Taken : Type 0 where
  pub serder : Serder
  pub r : ProcessResult
  pub sigs : List Siger
  pub raw_sig_bytes : Bytes
  pub couples : List (String × Bytes)

module _ (d : Deps) {S : Type 0} (o : KeriStore S) where
  -- The store took the event under the prefix, the sequence number and the SAID of the header.
  abbrev pub Stored : Taken → S → S → Type 0
  Stored t store store' =
      o.store_event store t.r.said t.serder.raw t.r.prefix t.r.sn (sigs_or_none t.raw_sig_bytes)
      ≡ ok store'

  -- A new identifier: none was there under the prefix, and a verifier is there now.
  pub record Created (t : Taken) (store store' : S) (kevers kevers' : Kevers) : Type 0 where
    pub fresh : find kevers t.r.prefix ≡ none
    pub verfers : List Verfer
    pub kever : Kever
    pub verified : new_from_parts d t.serder.raw t.serder.sad t.sigs verfers ≡ ok kever
    pub witnessed :
        0 < kever.state.backer_threshold
        → verify_witness_receipts d kever t.serder.raw t.couples ≡ ok tt
    pub stored : Stored t store store'
    pub filed : kevers' ≡ put kevers t.r.prefix kever

  -- An event of a known identifier.
  pub record Updated (t : Taken) (store store' : S) (kevers kevers' : Kevers) : Type 0 where
    pub kever : Kever
    pub known : find kevers t.r.prefix ≡ some kever
    pub state : KeyState
    pub verified : verify_update_owned d kever t.serder.raw t.serder.sad t.sigs ≡ ok state
    pub witnessed :
        0 < state.backer_threshold
        → verify_witness_receipts_static d t.serder.raw t.couples state.backers
            state.backer_threshold
          ≡ ok tt
    pub stored : Stored t store store'
    pub filed : kevers' ≡ put kevers t.r.prefix (apply_verified_update kever state)

  abbrev pub Outcome : Taken → S → S → Kevers → Kevers → Type 0
  Outcome t store store' kevers kevers' =
      Created t store store' kevers kevers'
      ⊎ (Updated t store store' kevers kevers' ⊎ (kevers' ≡ kevers))

  process_inception-Created :
      (t : Taken) (store store' : S) (kevers kevers' : Kevers)
      → process_inception d o store kevers t.serder t.r t.sigs t.raw_sig_bytes t.couples
        ≡ ok (store', kevers')
      → Created t store store' kevers kevers'
  unfolding process_inception
  process_inception-Created t store store' kevers kevers' h =
      elim (Option-cases (find kevers t.r.prefix)) [
        | inr (k, p) ↦ absurd (ground arith)
        | inl p ↦ elim (Result-cases (verfers_from_serder d t.serder)) [
          | inr (e, q) ↦ absurd (ground arith)
          | inl (verfers, q) ↦
              elim (Result-cases (new_from_parts d t.serder.raw t.serder.sad t.sigs verfers)) [
                | inr (e, v) ↦ absurd (ground arith)
                | inl (kever, v) ↦ record {
                  fresh = p;
                  verfers = verfers;
                  kever = kever;
                  verified = v;
                  witnessed = λ w. ground arith;
                  stored = ground arith;
                  filed = ground arith;
                }
              ]
        ]
      ]

  process_event-Updated :
      (t : Taken) (store store' : S) (kevers kevers' : Kevers)
      → process_event d o store kevers t.serder t.r t.sigs t.raw_sig_bytes t.couples
        ≡ ok (store', kevers')
      → Updated t store store' kevers kevers' ⊎ (kevers' ≡ kevers)
  unfolding process_event
  process_event-Updated t store store' kevers kevers' h =
      elim (Option-cases (find kevers t.r.prefix)) [
        | inl p ↦ inr (ground arith)
        | inr (kever, p) ↦
            elim (Result-cases (verify_update_owned d kever t.serder.raw t.serder.sad t.sigs)) [
              | inr (e, v) ↦ absurd (ground arith)
              | inl (state, v) ↦ inl (record {
                kever = kever;
                known = p;
                state = state;
                verified = v;
                witnessed = λ w. ground arith;
                stored = ground arith;
                filed = ground arith;
              })
            ]
      ]

  process_ilk-Outcome :
      (t : Taken) (store store' : S) (kevers kevers' : Kevers)
      → process_ilk d o store kevers t.serder t.r t.sigs t.raw_sig_bytes t.couples
        ≡ ok (store', kevers')
      → Outcome t store store' kevers kevers'
  unfolding process_ilk
  process_ilk-Outcome t store store' kevers kevers' h =
      elim (Bool-cases (t.r.ilk == "icp" || t.r.ilk == "dip")) [
        | inl a ↦ inl (process_inception-Created t store store' kevers kevers' (ground arith))
        | inr a ↦ elim (Bool-cases (t.r.ilk == "rot" || t.r.ilk == "ixn" || t.r.ilk == "drt")) [
          | inl b ↦ inr (process_event-Updated t store store' kevers kevers' (ground arith))
          | inr b ↦ inr (inr (ground arith))
        ]
      ]

  others_kept :
      (t : Taken) (store store' : S) (kevers kevers' : Kevers) (key : String)
      → Outcome t store store' kevers kevers'
      → key ≢ t.r.prefix
      → find kevers' key ≡ find kevers key
  others_kept t store store' kevers kevers' key (inl c) other =
      let e = c.filed in
      ground (arith, find-put kevers t.r.prefix c.kever key, eq_iff key t.r.prefix)
  others_kept t store store' kevers kevers' key (inr (inl u)) other =
      let e = u.filed in
      ground (
        arith,
        find-put kevers t.r.prefix (apply_verified_update u.kever u.state) key,
        eq_iff key t.r.prefix,
      )
  others_kept t store store' kevers kevers' key (inr (inr e)) other = ap (λ m. find m key) e

  -- An accepted message changes the verifier of its own prefix only, and either creates it (where
  -- none was), or replaces it by the verified next one, in both cases with the receipts that its
  -- threshold asks for and only once the store has taken the event; or it changes none.
  pub process_parsed_sound :
      (store : S) (kevers : Kevers) (parsed : ParsedMessage) (r : ProcessResult) (store' : S)
      (kevers' : Kevers)
      → process_parsed d o store kevers parsed ≡ ok (r, store', kevers')
      → (t : Taken) × (t.serder ≡ parsed.serder)
        × (t.r ≡ r)
        × (t.sigs ≡ extract_controller_sigs parsed.attachments)
        × (header parsed.serder ≡ ok r)
        × (collect d parsed.attachments [] [] ≡ ok (t.raw_sig_bytes, t.couples))
        × Outcome t store store' kevers kevers'
        × ((key : String) → key ≢ r.prefix → find kevers' key ≡ find kevers key)
  unfolding process_parsed
  process_parsed_sound store kevers parsed r store' kevers' h =
      elim (Result-cases (header parsed.serder)) [
        | inr (e, p) ↦ absurd (ground arith)
        | inl (r', p) ↦ elim (Result-cases (collect d parsed.attachments [] [])) [
          | inr (e, q) ↦ absurd (ground arith)
          | inl (collected, q) ↦
              (let t : Taken = record {
                serder = parsed.serder;
                r = r';
                sigs = extract_controller_sigs parsed.attachments;
                raw_sig_bytes = collected.0;
                couples = collected.1;
              } in
                let same : r' ≡ r = ground arith in
                let next : process_ilk d o store kevers t.serder t.r t.sigs t.raw_sig_bytes
                      t.couples
                    ≡ ok (store', kevers') =
                  ground arith in
                let outcome = process_ilk-Outcome t store store' kevers kevers' next in
                (
                  t,
                  refl,
                  same,
                  refl,
                  p ∙ ap ok same,
                  q,
                  outcome,
                  λ key other.
                      others_kept t store store' kevers kevers' key outcome
                        (λ e. other (e ∙ ap (λ x. x.prefix) same)),
                ))
        ]
      ]
