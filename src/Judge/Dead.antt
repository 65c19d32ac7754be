-- ===== src/Judge/Dead.antt =====
-- A duplicitous identifier over the messages that follow.
use affinidi_keri_rs.Prelude.{
  String, ◌≡◌, refl, sym, ap, subst, ◌∙◌, ◌↔◌, inl, inr, true, false, ◌||◌, List, [], arith,
  Option-cases, ◌==◌, nat_eq, string_eq, pair_eq, contains, contains-push_new,
}
use affinidi_keri_rs.Prelude.Result.{ok, Result-cases}
use affinidi_keri_rs.Prelude.Map.{find}
use affinidi_keri_rs.Deps.{Deps}
use affinidi_keri_rs.Serder.{Serder}
use affinidi_keri_rs.Crypto.Siger.{Siger}
use affinidi_keri_rs.Crypto.Extern.{Bytes}
use affinidi_keri_rs.Store.{KeriStore}
use affinidi_keri_rs.Direct.{
  Kevers, ProcessResult, header, process_parsed, process_ilk, collect, extract_controller_sigs,
}
use affinidi_keri_rs.Parser.Message.{ParsedMessage}
use affinidi_keri_rs.Direct.Persistence.{process_parsed_sound}
use affinidi_keri_rs.Judge.{
  Judge, JudgeResult, DuplicityEvidence, record_duplicity, verdict, duplicitous, judge_message,
}
use affinidi_keri_rs.Judge.Outcome.{Passed, judge_message-Judged}
use affinidi_keri_rs.Judge.Log.{Trial, open_trial, judged}

module _ (d : Deps) {S : Type 0} (o : KeriStore S) where
  record_duplicity_keeps :
      (j : Judge S) (e : DuplicityEvidence) (p : String)
      → contains j.duplicitous p ≡ true
      → (contains (record_duplicity j e).duplicitous p ≡ true)
        × ((record_duplicity j e).kevers ≡ j.kevers)
  unfolding record_duplicity
  record_duplicity_keeps j e p h = ground (arith, contains-push_new j.duplicitous e.prefix p)

  process_ilk_receipt :
      (store : S) (kevers : Kevers) (serder : Serder) (r : ProcessResult) (sigs : List Siger)
      (raw : Bytes) (couples : List (String × Bytes)) (store' : S) (kevers' : Kevers)
      → r.ilk ≡ "rct"
      → process_ilk d o store kevers serder r sigs raw couples ≡ ok (store', kevers')
      → kevers' ≡ kevers
  unfolding process_ilk
  process_ilk_receipt store kevers serder r sigs raw couples store' kevers' e h =
      let a : (r.ilk == "icp" || r.ilk == "dip") ≡ false = rw e refl in
      let b : (r.ilk == "rot" || r.ilk == "ixn" || r.ilk == "drt") ≡ false = rw e refl in
      ground arith

  process_parsed_receipt :
      (store : S) (kevers : Kevers) (parsed : ParsedMessage) (r : ProcessResult) (store' : S)
      (kevers' : Kevers)
      → r.ilk ≡ "rct"
      → process_parsed d o store kevers parsed ≡ ok (r, store', kevers')
      → kevers' ≡ kevers
  unfolding process_parsed
  process_parsed_receipt store kevers parsed r store' kevers' e h =
      elim (Result-cases (header parsed.serder)) [
        | inr (x, p) ↦ absurd (ground arith)
        | inl (r', p) ↦ elim (Result-cases (collect d parsed.attachments [] [])) [
          | inr (x, q) ↦ absurd (ground arith)
          | inl (collected, q) ↦
              (let same : r' ≡ r = ground arith in
                process_ilk_receipt store kevers parsed.serder r'
                  (extract_controller_sigs parsed.attachments) collected.0 collected.1 store'
                  kevers' (ap (λ x. x.ilk) same ∙ e) (ground arith))
        ]
      ]

  abbrev Frozen : String → Judge S → Judge S → Type 0
  Frozen p j k = (contains k.duplicitous p ≡ true) × (find k.kevers p ≡ find j.kevers p)

  -- A message that direct mode takes is a receipt, or is of another identifier.
  accept-Frozen :
      (j : Judge S) (parsed : ParsedMessage) (j' : Judge S) (p : String)
      → contains j.duplicitous p ≡ true
      → (passed : Passed d o j parsed j') → find passed.kevers p ≡ find j.kevers p
  accept-Frozen j parsed j' p h passed = elim passed.allowed [
    | inl receipt ↦
        ap (λ m. find m p)
          (process_parsed_receipt j.store j.kevers parsed passed.r passed.store passed.kevers
            receipt passed.taken)
    | inr alive ↦
        (let (t, same, is, sigs, head, collected, outcome, others) =
            process_parsed_sound d o j.store j.kevers parsed passed.r passed.store passed.kevers
              passed.taken in
          others p (λ e.
            absurd (let dead = subst (λ q. contains j.duplicitous q ≡ true) e h in ground arith)))
  ]

  judge_message-Frozen :
      (j : Judge S) (parsed : ParsedMessage) (result : JudgeResult) (j' : Judge S) (p : String)
      → contains j.duplicitous p ≡ true
      → judge_message d o j parsed ≡ ok (result, j')
      → Frozen p j j'
  judge_message-Frozen j parsed result j' p h done =
      elim (judge_message-Judged d o j parsed result j' done) [
        | inl passed ↦
            subst (Frozen p j) (sym passed.after) (h, accept-Frozen j parsed j' p h passed)
        | inr (inl conflict) ↦ subst (Frozen p j) (sym conflict.after) (
            let (dead, same) = record_duplicity_keeps j conflict.evidence p h in
            (dead, ap (λ m. find m p) same))
        | inr (inr same) ↦ subst (Frozen p j) (sym same) (h, refl)
      ]

  Trial-Frozen :
      (first j : Judge S) (p : String)
      → contains first.duplicitous p ≡ true
      → Trial d o first j
      → Frozen p first j
  Trial-Frozen first _ p h open_trial = (h, refl)
  Trial-Frozen first _ p h (judged j parsed result j' before done) =
      let (dead, same) = Trial-Frozen first j p h before in
      let (dead', same') = judge_message-Frozen j parsed result j' p dead done in
      (dead', same' ∙ same)

  verdict-duplicitous_iff :
      (j : Judge S) (p : String) → (verdict j p ≡ duplicitous) ↔ (contains j.duplicitous p ≡ true)
  unfolding verdict
  verdict-duplicitous_iff j p = elim (Option-cases (find j.kevers p)) [
    | inl e ↦ ground arith
    | inr (kever, e) ↦ ground arith
  ]

  -- A duplicitous identifier is dead: whatever the judge processes afterwards, its verdict stays and
  -- its verifier is never touched again.
  pub Trial-verdict :
      (first j : Judge S) (p : String)
      → verdict first p ≡ duplicitous
      → Trial d o first j
      → (verdict j p ≡ duplicitous) × (find j.kevers p ≡ find first.kevers p)
  Trial-verdict first j p h trial =
      let (dead, same) = Trial-Frozen first j p ((verdict-duplicitous_iff first p).0 h) trial in
      ((verdict-duplicitous_iff j p).1 dead, same)
