-- ===== src/Judge/Outcome.antt =====
-- `Judge::process`: the three things that can come of a message.
use affinidi_keri_rs.Prelude.{
  String, ◌≡◌, subst, ◌≢◌, ◌⊎◌, inl, inr, false, Option, none, some, arith, eq_iff, Bool-cases,
  ◌==◌, nat_eq, string_eq, pair_eq, contains,
}
use affinidi_keri_rs.Prelude.Result.{ok, Result-cases}
use affinidi_keri_rs.Deps.{Deps}
use affinidi_keri_rs.Store.{KeriStore}
use affinidi_keri_rs.Direct.{Kevers, ProcessResult, header, process_parsed}
use affinidi_keri_rs.Parser.Message.{ParsedMessage}
use affinidi_keri_rs.Direct.Persistence.{process_parsed_sound}
use affinidi_keri_rs.Judge.{
  Judge, JudgeResult, DuplicityEvidence, record_duplicity, verify_for_duplicity, accept,
  judge_first_seen, judge_message,
}

module _ (d : Deps) {S : Type 0} (o : KeriStore S) where
  -- The message went to direct mode: a receipt, or one of an identifier that is not duplicitous.
  pub record Passed (j : Judge S) (parsed : ParsedMessage) (j' : Judge S) : Type 0 where
    pub r : ProcessResult
    pub store : S
    pub kevers : Kevers
    pub taken : process_parsed d o j.store j.kevers parsed ≡ ok (r, store, kevers)
    pub allowed : (r.ilk ≡ "rct") ⊎ (contains j.duplicitous r.prefix ≡ false)
    pub after : j' ≡ record j { store = store; kevers = kevers }

  -- The message conflicts with the one seen first, and is genuine.
  pub record Conflicted (j : Judge S) (parsed : ParsedMessage) (j' : Judge S) : Type 0 where
    pub evidence : DuplicityEvidence
    pub alive : contains j.duplicitous evidence.prefix ≡ false
    pub different : evidence.first_seen_said ≢ evidence.duplicitous_said
    pub seen :
        o.get_first_seen j.store evidence.prefix evidence.sn ≡ ok (some evidence.first_seen_said)
    pub after : j' ≡ record_duplicity j evidence

  abbrev pub Judged : Judge S → ParsedMessage → Judge S → Type 0
  Judged j parsed j' = Passed j parsed j' ⊎ (Conflicted j parsed j' ⊎ (j' ≡ j))

  accept-Passed :
      (j : Judge S) (parsed : ParsedMessage) (r : ProcessResult) (result : JudgeResult)
      (j' : Judge S)
      → header parsed.serder ≡ ok r
      → (r.ilk ≡ "rct") ⊎ (contains j.duplicitous r.prefix ≡ false)
      → accept d o j parsed ≡ ok (result, j')
      → Passed j parsed j'
  unfolding accept
  accept-Passed j parsed r result j' head allowed h =
      elim (Result-cases (process_parsed d o j.store j.kevers parsed)) [
        | inr (e, p) ↦ absurd (ground arith)
        | inl ((r', store, kevers), p) ↦
            (let (t, same, is, sigs, head', collected, outcome, others) =
                process_parsed_sound d o j.store j.kevers parsed r' store kevers p in
              let which : r ≡ r' = ground (arith, head, head') in
              record {
                r = r';
                store = store;
                kevers = kevers;
                taken = p;
                allowed =
                    subst (λ r. (r.ilk ≡ "rct") ⊎ (contains j.duplicitous r.prefix ≡ false)) which
                      allowed;
                after = ground arith;
              })
      ]

  verify_for_duplicity-Conflicted :
      (j : Judge S) (parsed : ParsedMessage) (r : ProcessResult) (said : String)
      (result : JudgeResult) (j' : Judge S)
      → header parsed.serder ≡ ok r
      → contains j.duplicitous r.prefix ≡ false
      → said ≢ r.said
      → o.get_first_seen j.store r.prefix r.sn ≡ ok (some said)
      → verify_for_duplicity d o j parsed said ≡ ok (result, j')
      → Conflicted j parsed j'
  unfolding verify_for_duplicity
  verify_for_duplicity-Conflicted j parsed r said result j' head alive different seen h =
      elim (Result-cases (o.get_event j.store said)) [
        | inr (e, p) ↦ absurd (ground arith)
        | inl (none, p) ↦ absurd (ground arith)
        | inl (some event, p) ↦ record {
          evidence = record {
            prefix = r.prefix;
            sn = r.sn;
            first_seen_said = said;
            duplicitous_said = r.said;
            first_seen_event = event;
            duplicitous_event = parsed.serder.raw;
          };
          alive = alive;
          different = different;
          seen = seen;
          after = ground arith;
        }
      ]

  first_seen-Judged :
      (j : Judge S) (parsed : ParsedMessage) (r : ProcessResult) (seen : Option String)
      (result : JudgeResult) (j' : Judge S)
      → header parsed.serder ≡ ok r
      → contains j.duplicitous r.prefix ≡ false
      → o.get_first_seen j.store r.prefix r.sn ≡ ok seen
      → judge_first_seen d o j parsed r seen ≡ ok (result, j')
      → Judged j parsed j'
  unfolding judge_first_seen
  first_seen-Judged j parsed r none result j' head alive q h =
      inl (accept-Passed j parsed r result j' head (inr alive) h)
  first_seen-Judged j parsed r (some said) result j' head alive q h =
      elim (Bool-cases (said == r.said)) [
        | inl same ↦ inr (inr (ground arith))
        | inr other ↦ inr (
            inl (
              verify_for_duplicity-Conflicted j parsed r said result j' head alive
                (ground (arith, eq_iff said r.said)) q (ground arith)))
      ]

  -- A processed message is passed to direct mode, or it is a genuine conflict with the event that
  -- was seen first at its place, or the judge stays as it was.
  pub judge_message-Judged :
      (j : Judge S) (parsed : ParsedMessage) (result : JudgeResult) (j' : Judge S)
      → judge_message d o j parsed ≡ ok (result, j')
      → Judged j parsed j'
  unfolding judge_message
  judge_message-Judged j parsed result j' h = elim (Result-cases (header parsed.serder)) [
    | inr (e, p) ↦ absurd (ground arith)
    | inl (r, p) ↦ elim (Bool-cases (r.ilk == "rct")) [
      | inl receipt ↦ inl (
          accept-Passed j parsed r result j' p (inl ((eq_iff r.ilk "rct").0 receipt))
            (ground arith))
      | inr other ↦ elim (Bool-cases (contains j.duplicitous r.prefix)) [
        | inl dead ↦ absurd (ground arith)
        | inr alive ↦ elim (Result-cases (o.get_first_seen j.store r.prefix r.sn)) [
          | inr (e, q) ↦ absurd (ground arith)
          | inl (seen, q) ↦ first_seen-Judged j parsed r seen result j' p alive q (ground arith)
        ]
      ]
    ]
  ]
