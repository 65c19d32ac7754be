-- ===== src/Judge.antt =====
-- crates/affinidi-keri/src/judge.rs: the first-seen policy and the log of duplicity. A message
-- that is refused changes nothing.
pub mod Outcome
pub mod Log
pub mod Dead
use affinidi_keri_rs.Prelude.{
  ℕ, String, Bool, not, ◌||◌, Option, none, some, List, [], ◌∷◌, ◌++◌, leb, if◌then◌else◌, ◌==◌,
  nat_eq, string_eq, pair_eq, length, contains, push_new,
}
use affinidi_keri_rs.Prelude.Result.{ok, err, ◌>>=◌, ◌>>◌, guard, ok_or}
use affinidi_keri_rs.Prelude.Map.{find}
use affinidi_keri_rs.Crypto.Extern.{Bytes}
use affinidi_keri_rs.Deps.{Deps}
use affinidi_keri_rs.Error.{KeriError, KeriResult, validation, from_core}
use affinidi_keri_rs.Serder.{Serder}
use affinidi_keri_rs.Kever.{Kever}
use affinidi_keri_rs.Kever
use affinidi_keri_rs.Store.{KeriStore}
use affinidi_keri_rs.Direct.{
  Kevers, ProcessResult, extract_controller_sigs, verfers_from_serder, header, process_parsed,
  from_db, first_message,
}
use affinidi_keri_rs.Parser.Message.{ParsedMessage}

pub data Verdict : Type 0 where
  trusted duplicitous unknown : Verdict

pub record DuplicityEvidence : Type 0 where
  pub prefix : String
  pub sn : ℕ
  pub first_seen_said : String
  pub duplicitous_said : String
  pub first_seen_event : Bytes
  pub duplicitous_event : Bytes

pub data JudgeResult : Type 0 where
  accepted : ProcessResult → JudgeResult
  duplicate_accepted : JudgeResult
  duplicity_detected : DuplicityEvidence → JudgeResult

abbrev pub max_del_per_prefix : ℕ
max_del_per_prefix = 100

abbrev pub max_del_total : ℕ
max_del_total = 10000

pub record Judge (S : Type 0) : Type 0 where
  pub store : S
  pub kevers : Kevers
  pub duplicitous : List String
  pub del : List DuplicityEvidence

unfoldable pub new : {S : Type 0} → S → Judge S
new store = record { store = store; kevers = []; duplicitous = []; del = [] }

-- `del.iter().filter(|e| e.prefix == prefix)`.
unfoldable pub evidence_in : String → List DuplicityEvidence → List DuplicityEvidence
evidence_in prefix [] = []
evidence_in prefix (e ∷ es) =
    let rest = evidence_in prefix es in if e.prefix == prefix then e ∷ rest else rest

module _ {S : Type 0} where
  unfoldable pub record_duplicity : Judge S → DuplicityEvidence → Judge S
  record_duplicity j evidence =
      let flagged = push_new j.duplicitous evidence.prefix in
      if leb max_del_total (length j.del)
      then record j { duplicitous = flagged }
      else if leb max_del_per_prefix (length (evidence_in evidence.prefix j.del))
      then record j { duplicitous = flagged }
      else record j { duplicitous = flagged; del = j.del ++ evidence ∷ [] }

  unfoldable pub verdict : Judge S → String → Verdict
  verdict j prefix =
      if contains j.duplicitous prefix
      then duplicitous
      else elim (find j.kevers prefix) [ none ↦ unknown | some kever ↦ trusted ]

  unfoldable pub is_duplicitous : Judge S → String → Bool
  is_duplicitous j prefix = contains j.duplicitous prefix

  unfoldable pub evidence_for : Judge S → String → List DuplicityEvidence
  evidence_for j prefix = evidence_in prefix j.del

  module _ (d : Deps) (o : KeriStore S) where
    -- The trial verification of an event that conflicts with the one seen first.
    unfoldable pub verify_conflict : Judge S → ParsedMessage → ProcessResult → KeriResult (Unit {0})
    verify_conflict j parsed r =
        if r.ilk == "icp" || r.ilk == "dip"
        then (do
          verfers ← verfers_from_serder d parsed.serder
          kever ←
              from_core
                (Kever.new d parsed.serder (extract_controller_sigs parsed.attachments) verfers)
          ok tt)
        else if r.ilk == "rot" || r.ilk == "ixn" || r.ilk == "drt"
        then elim (find j.kevers r.prefix) [
          | none ↦ err KeriError.not_found
          | some kever ↦ do
            valid ← from_core (
                Kever.verify_sigs d kever parsed.serder.raw
                  (extract_controller_sigs parsed.attachments))
            ok tt
        ]
        else err KeriError.config

    unfoldable pub verify_for_duplicity :
        Judge S → ParsedMessage → String → KeriResult (JudgeResult × Judge S)
    verify_for_duplicity j parsed existing_said = do
      r ← header parsed.serder
      verify_conflict j parsed r
      found ← from_db (o.get_event j.store existing_said)
      first_seen_event ← ok_or found KeriError.not_found
      let evidence : DuplicityEvidence = record {
        prefix = r.prefix;
        sn = r.sn;
        first_seen_said = existing_said;
        duplicitous_said = r.said;
        first_seen_event = first_seen_event;
        duplicitous_event = parsed.serder.raw;
      }
      ok (duplicity_detected evidence, record_duplicity j evidence)

    -- The message goes to direct mode.
    unfoldable pub accept : Judge S → ParsedMessage → KeriResult (JudgeResult × Judge S)
    accept j parsed = do
      next ← process_parsed d o j.store j.kevers parsed
      ok (accepted next.0, record j { store = next.1; kevers = next.2 })

    unfoldable pub judge_first_seen :
        Judge S → ParsedMessage → ProcessResult → Option String → KeriResult (JudgeResult × Judge S)
    judge_first_seen j parsed r none = accept j parsed
    judge_first_seen j parsed r (some existing_said) =
        if existing_said == r.said
        then ok (duplicate_accepted, j)
        else verify_for_duplicity j parsed existing_said

    -- The rest of `process`, after the parser.
    unfoldable pub judge_message : Judge S → ParsedMessage → KeriResult (JudgeResult × Judge S)
    judge_message j parsed = do
      r ← header parsed.serder
      if r.ilk == "rct" then accept j parsed else (do
        guard (not (contains j.duplicitous r.prefix)) (KeriError.core validation)
        first_seen ← from_db (o.get_first_seen j.store r.prefix r.sn)
        judge_first_seen j parsed r first_seen)

    unfoldable pub process : Judge S → Bytes → KeriResult (JudgeResult × Judge S)
    unfolding judge_message
    process j bytes = do parsed ← first_message d bytes; judge_message j parsed
