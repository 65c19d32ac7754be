-- ===== src/Judge/Log.antt =====
-- The log of duplicity and its caps.
use affinidi_keri_rs.Prelude.{
  ◌+◌, ◌≤◌, ◌<◌, String, ◌≡◌, sym, subst, ◌≢◌, inl, inr, true, false, List, [], ◌∷◌, ◌++◌, arith,
  eq_iff, leb, if◌then◌else◌, Bool-cases, ◌==◌, nat_eq, string_eq, pair_eq, length, length-append,
  All, contains, Nodup, push_new, contains-push_new, push_new-Nodup,
}
use affinidi_keri_rs.Prelude.Result.{ok}
use affinidi_keri_rs.Deps.{Deps}
use affinidi_keri_rs.Store.{KeriStore}
use affinidi_keri_rs.Parser.Message.{ParsedMessage}
use affinidi_keri_rs.Judge.{
  Judge, JudgeResult, DuplicityEvidence, max_del_per_prefix, max_del_total, evidence_in,
  record_duplicity, judge_message, new,
}
use affinidi_keri_rs.Judge.Outcome.{judge_message-Judged}

-- The caps on the log, in total and for each prefix; its entries are conflicts of prefixes that are
-- flagged, and none is flagged twice.
pub record Capped {S : Type 0} (j : Judge S) : Type 0 where
  pub total : length j.del ≤ max_del_total
  pub per_prefix : (prefix : String) → length (evidence_in prefix j.del) ≤ max_del_per_prefix
  pub flagged :
      (prefix : String)
      → 0 < length (evidence_in prefix j.del)
      → contains j.duplicitous prefix ≡ true
  pub genuine : All (λ e. e.first_seen_said ≢ e.duplicitous_said) j.del
  pub nodup : Nodup j.duplicitous

evidence_in-append :
    (prefix : String) (es : List DuplicityEvidence) (e : DuplicityEvidence)
    → length (evidence_in prefix (es ++ e ∷ []))
      ≡ length (evidence_in prefix es) + (if e.prefix == prefix then 1 else 0)
unfolding evidence_in
evidence_in-append prefix [] e = ground arith
evidence_in-append prefix (x ∷ es) e = ground (arith, evidence_in-append prefix es e)

All-snoc {ℓ κ} :
    {A : Type ℓ} (P : A → Type κ) (xs : List A) (x : A) → All P xs → P x → All P (xs ++ x ∷ [])
All-snoc P [] x h p = (p, tt)
All-snoc P (y ∷ xs) x h p = (h.0, All-snoc P xs x h.1 p)

-- Evidence appended where there is room for it.
append_per_prefix :
    (del : List DuplicityEvidence) (e : DuplicityEvidence) (p : String)
    → length (evidence_in p del) ≤ max_del_per_prefix
    → leb max_del_per_prefix (length (evidence_in e.prefix del)) ≡ false
    → length (evidence_in p (del ++ e ∷ [])) ≤ max_del_per_prefix
append_per_prefix del e p bound place = elim (Bool-cases (e.prefix == p)) [
  | inr other ↦ ground (arith, evidence_in-append p del e)
  | inl same ↦
      (let here =
          subst (λ q. leb max_del_per_prefix (length (evidence_in q del)) ≡ false)
            ((eq_iff e.prefix p).0 same) place in
        ground (arith, evidence_in-append p del e))
]

module _ {S : Type 0} where
  -- The judge with a prefix flagged.
  abbrev flag : Judge S → String → Judge S
  flag j prefix = record j { duplicitous = push_new j.duplicitous prefix }

  flag-Capped : (j : Judge S) (prefix : String) → Capped j → Capped (flag j prefix)
  flag-Capped j prefix c = record {
    total = c.total;
    per_prefix = c.per_prefix;
    flagged = λ p some_evidence.
        ground (arith, c.flagged p some_evidence, contains-push_new j.duplicitous prefix p);
    genuine = c.genuine;
    nodup = push_new-Nodup j.duplicitous prefix c.nodup;
  }

  append_flagged :
      (j : Judge S) (e : DuplicityEvidence) (p : String)
      → Capped j
      → 0 < length (evidence_in p (j.del ++ e ∷ []))
      → contains (push_new j.duplicitous e.prefix) p ≡ true
  append_flagged j e p c some_evidence = elim (Bool-cases (e.prefix == p)) [
    | inl same ↦
        ground
          (arith, contains-push_new j.duplicitous e.prefix p, eq_iff p e.prefix, eq_iff e.prefix p)
    | inr other ↦ ground (
      arith,
      contains-push_new j.duplicitous e.prefix p,
      evidence_in-append p j.del e,
      c.flagged p,
    )
  ]

  record_duplicity-Capped :
      (j : Judge S) (e : DuplicityEvidence)
      → e.first_seen_said ≢ e.duplicitous_said
      → Capped j
      → Capped (record_duplicity j e)
  unfolding record_duplicity
  record_duplicity-Capped j e different c = elim (Bool-cases (leb max_del_total (length j.del))) [
    | inl full ↦ rw (full, record_duplicity) (flag-Capped j e.prefix c)
    | inr room ↦ elim (Bool-cases (leb max_del_per_prefix (length (evidence_in e.prefix j.del)))) [
      | inl full ↦ rw (room, record_duplicity, full) (flag-Capped j e.prefix c)
      | inr place ↦
          rw (room, record_duplicity, place)
            (record {
              total = ground (arith, length-append j.del (e ∷ []));
              per_prefix = λ p. append_per_prefix j.del e p (c.per_prefix p) place;
              flagged = λ p some_evidence. append_flagged j e p c some_evidence;
              genuine =
                  All-snoc (λ x. x.first_seen_said ≢ x.duplicitous_said) j.del e c.genuine
                    different;
              nodup = push_new-Nodup j.duplicitous e.prefix c.nodup;
            })
    ]
  ]

new-Capped : {S : Type 0} (store : S) → Capped (new store)
unfolding new evidence_in
new-Capped store = record {
  total = omega arith;
  per_prefix = λ p. omega arith;
  flagged = λ p h. absurd (omega arith);
  genuine = tt;
  nodup = tt;
}

module _ (d : Deps) {S : Type 0} (o : KeriStore S) where
  -- The messages that a judge has processed; one that is refused changes nothing.
  pub data Trial (first : Judge S) : Judge S → Type 0 where
    open_trial : Trial first first
    judged :
        (j : Judge S) (parsed : ParsedMessage) (result : JudgeResult) (j' : Judge S)
        → Trial first j
        → judge_message d o j parsed ≡ ok (result, j')
        → Trial first j'

  judge_message-Capped :
      (j : Judge S) (parsed : ParsedMessage) (result : JudgeResult) (j' : Judge S)
      → Capped j
      → judge_message d o j parsed ≡ ok (result, j')
      → Capped j'
  judge_message-Capped j parsed result j' c done =
      elim (judge_message-Judged d o j parsed result j' done) [
        | inl passed ↦ subst Capped (sym passed.after) (record {
          total = c.total;
          per_prefix = c.per_prefix;
          flagged = c.flagged;
          genuine = c.genuine;
          nodup = c.nodup;
        })
        | inr (inl conflict) ↦
            subst Capped (sym conflict.after)
              (record_duplicity-Capped j conflict.evidence conflict.different c)
        | inr (inr same) ↦ subst Capped (sym same) c
      ]

  -- From a new judge on, whatever it processes, the log has 10,000 entries at most and 100 at most
  -- for each prefix, each entry is of two different events, and its prefix is flagged, once.
  pub Trial-Capped : (store : S) (j : Judge S) → Trial (new store) j → Capped j
  Trial-Capped store _ open_trial = new-Capped store
  Trial-Capped store _ (judged j parsed result j' before done) =
      judge_message-Capped j parsed result j' (Trial-Capped store j before) done
