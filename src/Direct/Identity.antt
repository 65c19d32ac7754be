-- ===== src/Direct/Identity.antt =====
-- The verifiers that direct mode keeps, over any sequence of messages.
use affinidi_keri_rs.Prelude.{
  String, ◌≡◌, refl, sym, ap, subst, ◌∙◌, inl, inr, true, false, none, some, [], arith, eq_iff,
  Bool-cases, ◌==◌, nat_eq, string_eq, pair_eq,
}
use affinidi_keri_rs.Prelude.Result.{ok}
use affinidi_keri_rs.Prelude.Map.{find, put, find-put}
use affinidi_keri_rs.Json.{Value, get_str}
use affinidi_keri_rs.Deps.{Deps}
use affinidi_keri_rs.Event.{InceptionEvent}
use affinidi_keri_rs.Serder
use affinidi_keri_rs.Version.{json}
use affinidi_keri_rs.Kever.{Kever, apply_verified_update}
use affinidi_keri_rs.Kever.Updates.{verify_update_owned_iff}
use affinidi_keri_rs.Kever.Inception.{new_from_parts-Incepted}
use affinidi_keri_rs.Kever.History.{WellFormed, plain-Continues, Continues-WellFormed}
use affinidi_keri_rs.Store.{KeriStore}
use affinidi_keri_rs.Direct.{Kevers, ProcessResult, header, process_parsed}
use affinidi_keri_rs.Parser.Message.{ParsedMessage}
use affinidi_keri_rs.Direct.Persistence.{Taken, Created, Updated, Outcome, process_parsed_sound}

-- A verifier stands for the identifier that it is filed under, which is not a delegated one.
pub record Stands (prefix : String) (kever : Kever) : Type 0 where
  pub same_prefix : kever.state.prefix ≡ prefix
  pub well_formed : WellFormed kever.state
  pub not_delegated : kever.state.delegated ≡ false
  pub incepted : kever.incepted ≡ true

abbrev pub Filed : Kevers → Type 0
Filed kevers =
    (prefix : String) (kever : Kever) → find kevers prefix ≡ some kever → Stands prefix kever

-- The derived deserializer of an inception reads the prefix from the field `i`.
abbrev pub ReadsPrefix : Deps → Type 0
ReadsPrefix d =
    (sad : Value) (icp : InceptionEvent)
    → d.to_inception sad ≡ some icp
    → get_str sad "i" ≡ some icp.prefix

module _ (d : Deps) {S : Type 0} (o : KeriStore S) where
  -- A session: the messages that were accepted, one after the other. One that is refused changes
  -- nothing.
  pub data Session (first : S) : S → Kevers → Type 0 where
    opened : Session first first []
    took :
        (store store' : S) (kevers kevers' : Kevers) (parsed : ParsedMessage) (r : ProcessResult)
        → Session first store kevers
        → process_parsed d o store kevers parsed ≡ ok (r, store', kevers')
        → Session first store' kevers'

  Created-Stands :
      (t : Taken) (store store' : S) (kevers kevers' : Kevers)
      → ReadsPrefix d
      → header t.serder ≡ ok t.r
      → (c : Created d o t store store' kevers kevers') → Stands t.r.prefix c.kever
  unfolding header Serder.prefix
  Created-Stands t store store' kevers kevers' reads head c =
      let i =
        new_from_parts-Incepted d t.serder.raw t.serder.sad t.sigs c.verfers c.kever c.verified in
      let field = reads t.serder.sad i.icp i.parses in
      record {
        same_prefix = i.starts.prefix ∙ ground (arith, field, head);
        well_formed = i.starts.well_formed;
        not_delegated = i.starts.not_delegated;
        incepted = i.incepted;
      }

  Updated-Stands :
      (t : Taken) (store store' : S) (kevers kevers' : Kevers)
      → Filed kevers
      → (u : Updated d o t store store' kevers kevers')
      → Stands t.r.prefix (apply_verified_update u.kever u.state)
  unfolding apply_verified_update
  Updated-Stands t store store' kevers kevers' filed u =
      let before = filed t.r.prefix u.kever u.known in
      let serder : Serder.Serder = record {
        raw = t.serder.raw;
        version = none;
        kind = json;
        sad = t.serder.sad;
      } in
      let verified = (verify_update_owned_iff d u.kever serder t.sigs u.state refl).0 u.verified in
      let (c, b) =
        plain-Continues d u.kever serder t.sigs u.state before.well_formed.backers_enough
          verified in
      record {
        same_prefix = c.prefix_kept ∙ before.same_prefix;
        well_formed = Continues-WellFormed d u.kever.state u.state before.well_formed c b;
        not_delegated = c.delegated_kept ∙ before.not_delegated;
        incepted = before.incepted;
      }

  put-Filed :
      (kevers : Kevers) (prefix : String) (kever : Kever)
      → Filed kevers
      → Stands prefix kever
      → Filed (put kevers prefix kever)
  put-Filed kevers prefix kever filed stands key other found = elim (Bool-cases (key == prefix)) [
    | inl same ↦
        (let which : kever ≡ other = ground (arith, find-put kevers prefix kever key) in
          let name : prefix ≡ key = sym ((eq_iff key prefix).0 same) in
          subst (λ k. Stands k other) name (subst (λ v. Stands prefix v) which stands))
    | inr different ↦ filed key other (ground (arith, find-put kevers prefix kever key))
  ]

  Outcome-Filed :
      (t : Taken) (store store' : S) (kevers kevers' : Kevers)
      → ReadsPrefix d
      → header t.serder ≡ ok t.r
      → Filed kevers
      → Outcome d o t store store' kevers kevers'
      → Filed kevers'
  Outcome-Filed t store store' kevers kevers' reads head filed (inl c) = subst Filed (sym c.filed) (
      put-Filed kevers t.r.prefix c.kever filed
        (Created-Stands t store store' kevers kevers' reads head c))
  Outcome-Filed t store store' kevers kevers' reads head filed (inr (inl u)) =
      subst Filed (sym u.filed) (
        put-Filed kevers t.r.prefix (apply_verified_update u.kever u.state) filed
          (Updated-Stands t store store' kevers kevers' filed u))
  Outcome-Filed t store store' kevers kevers' reads head filed (inr (inr e)) =
      subst Filed (sym e) filed

  none-Filed : Filed []
  unfolding find
  none-Filed prefix kever found = absurd (ground arith)

  -- After any session each verifier stands for the identifier that it is filed under, is well formed
  -- and is not of a delegated identifier: direct mode never takes an event of one. This rests on the
  -- deserializer of an inception reading the prefix from the field `i`.
  pub Session-Filed :
      (first store : S) (kevers : Kevers)
      → ReadsPrefix d
      → Session first store kevers
      → Filed kevers
  Session-Filed first _ _ reads opened = none-Filed
  Session-Filed first _ _ reads (took store store' kevers kevers' parsed r before h) =
      let filed = Session-Filed first store kevers reads before in
      let (t, same, header_is, sigs, head, rest, outcome, others) =
        process_parsed_sound d o store kevers parsed r store' kevers' h in
      Outcome-Filed t store store' kevers kevers' reads
        (ap header same ∙ head ∙ ap ok (sym header_is)) filed outcome
