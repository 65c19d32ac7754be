-- ===== src/Tests/Drivers.antt =====
-- Direct mode and the judge, over a store that is a list of the SAIDs that it took.
use affinidi_keri_rs.Prelude.{
  String, ◌≡◌, refl, ap, ◌∙◌, ◌≢◌, inl, inr, none, some, List, [], ◌∷◌, arith, eq_iff, Bool-cases,
  Option-cases, ◌==◌, nat_eq, string_eq, pair_eq, contains, push_new,
}
use affinidi_keri_rs.Prelude.Result.{ok}
use affinidi_keri_rs.Prelude.Map.{find, put}
use affinidi_keri_rs.Prelude.Text.{from_str_radix}
use affinidi_keri_rs.Json.{get_str, get, insert, lookup}
use affinidi_keri_rs.Crypto.Diger
use affinidi_keri_rs.Crypto.Verfer
use affinidi_keri_rs.Crypto.Siger
use affinidi_keri_rs.Said
use affinidi_keri_rs.Said.{
  compute_said, digest_said, fixed_size, is_self_addressing, serialize_sad, fill, dummy,
}
use affinidi_keri_rs.Serder
use affinidi_keri_rs.Threshold.{is_satisfied}
use affinidi_keri_rs.KeyState.{from_inception, parse_sn, parse_backer_threshold}
use affinidi_keri_rs.Kever
use affinidi_keri_rs.Kever.{
  Kever, new_from_parts, incept, keys_match, verify_sigs_static, satisfied_indices,
  validate_prefix_derivation, verify_witness_receipts, verify_witness_receipts_static,
  valid_witnesses,
}
use affinidi_keri_rs.Store.{KeriStore}
use affinidi_keri_rs.Direct.{
  Kevers, ProcessResult, extract_controller_sigs, collect, sig_bytes, header, process_inception,
  process_ilk, process_parsed, verfers_from_serder, all_verfers, process_receipt,
}
use affinidi_keri_rs.Parser.Message.{ParsedMessage, controller_sigs, receipt_couples}
use affinidi_keri_rs.Direct.Persistence.{Taken, Outcome, process_parsed_sound}
use affinidi_keri_rs.Direct.Identity.{ReadsPrefix, Filed, Session, opened, took, Session-Filed}
use affinidi_keri_rs.Judge.{
  Judge, DuplicityEvidence, accepted, duplicity_detected, verdict, duplicitous, judge_message,
  accept, judge_first_seen, verify_for_duplicity, verify_conflict, record_duplicity, evidence_in,
  new as new_judge,
}
use affinidi_keri_rs.Judge.Log.{Capped, Trial, open_trial, judged, Trial-Capped}
use affinidi_keri_rs.Judge.Dead.{Trial-verdict}
use affinidi_keri_rs.Tests.World.{deps, icp, message_with_keys, message, sig}
use affinidi_keri_rs.Tests.Kevers.{born_kever}

abbrev store : KeriStore (List String)
store = record {
  put_event = λ s said event. ok (said ∷ s);
  get_event = λ s said. ok (some []);
  append_kel = λ s prefix sn said. ok s;
  get_kel_said = λ s prefix sn. ok none;
  get_kel = λ s prefix. ok [];
  put_first_seen = λ s prefix sn said. ok s;
  get_first_seen = λ s prefix sn. ok (some "OTHER");
  put_datetime = λ s said dt. ok s;
  get_datetime = λ s said. ok none;
  put_signatures = λ s said sigs. ok s;
  get_signatures = λ s said. ok none;
  put_witness_sigs = λ s said sigs. ok s;
  get_witness_sigs = λ s said. ok none;
  put_receipts = λ s said couples. ok s;
  get_receipts = λ s said. ok none;
  put_state = λ s prefix state. ok s;
  get_state = λ s prefix. ok none;
  put_escrow_ooo = λ s prefix sn event. ok s;
  get_escrow_ooo = λ s prefix sn. ok none;
  del_escrow_ooo = λ s prefix sn. ok s;
  put_escrow_ps = λ s prefix sn event. ok s;
  get_escrow_ps = λ s prefix sn. ok none;
  del_escrow_ps = λ s prefix sn. ok s;
  put_hab = λ s name hab. ok s;
  get_hab = λ s name. ok none;
  list_habs = λ s. ok [];
  del_hab = λ s name. ok s;
  latest_sn = λ s prefix. ok none;
  store_event = λ s said event prefix sn sigs. ok (said ∷ s);
  store_event_with_hab = λ s said event prefix sn sigs name hab. ok (said ∷ s);
}

abbrev parsed : ParsedMessage
parsed = record {
  serder = message_with_keys "icp" "0";
  attachments = controller_sigs (sig 1 ∷ []) ∷ receipt_couples (("W1", 3 ∷ []) ∷ []) ∷ [];
}

abbrev head : ProcessResult
head = record { prefix = "SAID"; sn = 0; said = "SAID"; ilk = "icp" }

abbrev after : Kevers
after = ("SAID", born_kever) ∷ []

process_parsed-accepts : process_parsed deps store [] [] parsed ≡ ok (head, "SAID" ∷ [], after)
unfolding process_parsed header Serder.prefix Serder.sn Serder.said Serder.ilk get_str get lookup
    insert collect sig_bytes Siger.qb64 process_ilk process_inception find put verfers_from_serder
    all_verfers Verfer.from_qb64 extract_controller_sigs new_from_parts Said.verify_said
    compute_said digest_said fixed_size is_self_addressing serialize_sad fill dummy Diger.from_data
    Diger.qb64 Diger.ct_eq incept keys_match Verfer.qb64 verify_sigs_static satisfied_indices
    Verfer.verify push_new contains is_satisfied validate_prefix_derivation Diger.from_qb64
    from_inception parse_sn parse_backer_threshold from_str_radix verify_witness_receipts
    verify_witness_receipts_static valid_witnesses
process_parsed-accepts = refl

deps-ReadsPrefix : ReadsPrefix deps
deps-ReadsPrefix sad event h = elim (Option-cases (get_str sad "i")) [
  | inl e ↦ absurd (ground arith)
  | inr (i, e) ↦ elim (Bool-cases (i == "SAID")) [
    | inr other ↦ absurd (ground arith)
    | inl same ↦
        (let which : icp ≡ event = ground arith in
          e ∙ ap some ((eq_iff i "SAID").0 same ∙ ap (λ x. x.prefix) which))
  ]
]

session : Session deps store [] ("SAID" ∷ []) after
session = took [] ("SAID" ∷ []) [] after parsed head opened process_parsed-accepts

process_parsed_sound_example :
    (t : Taken) × (t.serder ≡ parsed.serder)
    × (t.r ≡ head)
    × (t.sigs ≡ extract_controller_sigs parsed.attachments)
    × (header parsed.serder ≡ ok head)
    × (collect deps parsed.attachments [] [] ≡ ok (t.raw_sig_bytes, t.couples))
    × Outcome deps store t [] ("SAID" ∷ []) [] after
    × ((key : String) → key ≢ head.prefix → find after key ≡ find [] key)
process_parsed_sound_example =
    process_parsed_sound deps store [] [] parsed head ("SAID" ∷ []) after process_parsed-accepts

Session-Filed_example : Filed after
Session-Filed_example = Session-Filed deps store [] ("SAID" ∷ []) after deps-ReadsPrefix session

abbrev empty : Judge (List String)
empty = new_judge []

abbrev evidence : DuplicityEvidence
evidence = record {
  prefix = "SAID";
  sn = 0;
  first_seen_said = "OTHER";
  duplicitous_said = "SAID";
  first_seen_event = [];
  duplicitous_event = [];
}

abbrev caught : Judge (List String)
caught = record { store = []; kevers = []; duplicitous = "SAID" ∷ []; del = evidence ∷ [] }

-- The store saw another inception first, and this one is signed too.
judge_message-detects :
    judge_message deps store empty parsed ≡ ok (duplicity_detected evidence, caught)
unfolding judge_message header Serder.prefix Serder.sn Serder.said Serder.ilk get_str get lookup
    insert judge_first_seen verify_for_duplicity verify_conflict new_judge record_duplicity
    evidence_in verfers_from_serder all_verfers Verfer.from_qb64 extract_controller_sigs Kever.new
    Serder.verify_said Said.verify_said compute_said digest_said fixed_size is_self_addressing
    serialize_sad fill dummy Diger.from_data Diger.qb64 Diger.ct_eq incept keys_match Verfer.qb64
    verify_sigs_static satisfied_indices Verfer.verify push_new contains is_satisfied
    validate_prefix_derivation Diger.from_qb64 from_inception parse_sn parse_backer_threshold
    from_str_radix
judge_message-detects = refl

abbrev receipt : ParsedMessage
receipt = record { serder = message "rct" "0"; attachments = [] }

abbrev receipt_head : ProcessResult
receipt_head = record { prefix = "SAID"; sn = 0; said = "SAID"; ilk = "rct" }

judge_message-takes_receipt :
    judge_message deps store caught receipt ≡ ok (accepted receipt_head, caught)
unfolding judge_message accept process_parsed header Serder.prefix Serder.sn Serder.said Serder.ilk
    get_str get lookup collect extract_controller_sigs process_ilk process_receipt from_str_radix
judge_message-takes_receipt = refl

caught-Trial : Trial deps store empty caught
caught-Trial =
    judged empty parsed (duplicity_detected evidence) caught open_trial judge_message-detects

Trial-Capped_example : Capped caught
Trial-Capped_example = Trial-Capped deps store [] caught caught-Trial

caught-verdict : verdict caught "SAID" ≡ duplicitous
unfolding verdict contains
caught-verdict = refl

Trial-verdict_example :
    (verdict caught "SAID" ≡ duplicitous) × (find caught.kevers "SAID" ≡ find caught.kevers "SAID")
Trial-verdict_example =
    Trial-verdict deps store caught caught "SAID" caught-verdict
      (judged caught receipt (accepted receipt_head) caught open_trial judge_message-takes_receipt)
