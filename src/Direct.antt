-- ===== src/Direct.antt =====
-- crates/affinidi-keri/src/direct.rs: the driver that takes one message at a time, as
-- bytes or parsed.
pub mod Persistence
pub mod Identity
use affinidi_keri_rs.Prelude.{
  ℕ, String, ◌||◌, Option, none, some, List, [], ◌∷◌, ◌++◌, ltb, if◌then◌else◌, ◌==◌, nat_eq,
  string_eq, pair_eq, is_empty,
}
use affinidi_keri_rs.Prelude.Result.{ok, err, ◌>>=◌, ◌>>◌, map_err}
use affinidi_keri_rs.Prelude.Map.{find, put}
use affinidi_keri_rs.Prelude.Text.{codes}
use affinidi_keri_rs.Json.{Value, get, as_array, as_str}
use affinidi_keri_rs.Crypto.Extern.{Bytes}
use affinidi_keri_rs.Crypto.Siger
use affinidi_keri_rs.Crypto.Siger.{Siger}
use affinidi_keri_rs.Crypto.Verfer
use affinidi_keri_rs.Crypto.Verfer.{Verfer}
use affinidi_keri_rs.Error.{KeriError, KeriResult, parse_error, from_core, keri_crypto}
use affinidi_keri_rs.Deps.{Deps}
use affinidi_keri_rs.Serder
use affinidi_keri_rs.Serder.{Serder}
use affinidi_keri_rs.KeyState.{KeyState}
use affinidi_keri_rs.Kever.{
  Kever, new_from_parts, verify_update_owned, verify_witness_receipts,
  verify_witness_receipts_static, apply_verified_update,
}
use affinidi_keri_rs.Parser.{ParseError, failed, no_fuel, parse_next}
use affinidi_keri_rs.Parser.Message.{
  TransIdxSigGroup, Attachment, controller_sigs, witness_sigs, receipt_couples,
  first_seen_replay_couples, seal_source_couples, trans_idx_sig_groups, unknown, ParsedMessage,
}
use affinidi_keri_rs.Store.{DbResult, KeriStore}

pub record ProcessResult : Type 0 where
  pub prefix : String
  pub sn : ℕ
  pub said : String
  pub ilk : String

abbrev pub Kevers : Type 0
Kevers = List (String × Kever)

abbrev pub from_db : {A : Type 0} → DbResult A → KeriResult A
from_db r = map_err r KeriError.db

unfoldable pub extract_controller_sigs : List Attachment → List Siger
extract_controller_sigs [] = []
extract_controller_sigs (controller_sigs sigs ∷ as') = sigs ++ extract_controller_sigs as'
extract_controller_sigs (_ ∷ as') = extract_controller_sigs as'

-- The texts among the elements of an array; none for another value.
abbrev texts : List Value → List String
texts [] = []
texts (v ∷ vs) = elim (as_str v) [ none ↦ texts vs | some s ↦ s ∷ texts vs ]

abbrev keys_of : Option Value → List String
keys_of none = []
keys_of (some v) = elim (as_array v) [ none ↦ [] | some vs ↦ texts vs ]

abbrev sigs_or_none : Bytes → Option Bytes
sigs_or_none raw_sig_bytes = if is_empty raw_sig_bytes then none else some raw_sig_bytes

-- The couples of a receipt, one after the other.
unfoldable pub couple_bytes : List (String × Bytes) → Bytes
couple_bytes [] = []
couple_bytes ((prefix, sig) ∷ couples) = codes prefix ++ sig ++ couple_bytes couples

-- The fields of a message that the drivers read first, in order.
unfoldable pub header : Serder → KeriResult ProcessResult
header serder = do
  prefix ← from_core (Serder.prefix serder)
  sn ← from_core (Serder.sn serder)
  said ← from_core (Serder.said serder)
  ilk ← from_core (Serder.ilk serder)
  ok (record { prefix = prefix; sn = sn; said = said; ilk = ilk })

-- `?` on the parser's error. No fuel is an error that the source does not have.
abbrev pub from_parser : ParseError → KeriError
from_parser (failed e) = KeriError.core e
from_parser no_fuel = KeriError.core parse_error

module _ (d : Deps) where
  unfoldable pub first_message : Bytes → KeriResult ParsedMessage
  unfolding parse_next
  first_message bytes = do (parsed, consumed) ← map_err (parse_next d bytes) from_parser; ok parsed

  unfoldable pub all_verfers : List String → KeriResult (List Verfer)
  all_verfers [] = ok []
  all_verfers (k ∷ ks) = do
    verfer ← keri_crypto (Verfer.from_qb64 d.crypto k)
    verfers ← all_verfers ks
    ok (verfer ∷ verfers)

  unfoldable pub verfers_from_serder : Serder → KeriResult (List Verfer)
  verfers_from_serder serder = all_verfers (keys_of (get serder.sad "k"))

  unfoldable pub sig_bytes : List Siger → Bytes → KeriResult Bytes
  sig_bytes [] acc = ok acc
  sig_bytes (sig ∷ sigs) acc = do
    qb64 ← keri_crypto (Siger.qb64 d.crypto sig)
    sig_bytes sigs (acc ++ codes qb64)

  -- The loop over the attachments: the signatures as stored, and the receipt couples.
  unfoldable pub collect :
      List Attachment → Bytes → List (String × Bytes) → KeriResult (Bytes × List (String × Bytes))
  collect [] raw couples = ok (raw, couples)
  collect (controller_sigs sigs ∷ as') raw couples = do
    raw ← sig_bytes sigs raw
    collect as' raw couples
  collect (receipt_couples cs ∷ as') raw couples = collect as' raw (couples ++ cs)
  collect (unknown code count rest ∷ as') raw couples = err (KeriError.core parse_error)
  collect (_ ∷ as') raw couples = collect as' raw couples

  module _ {S : Type 0} (o : KeriStore S) where
    unfoldable pub process_inception :
        S
        → Kevers
        → Serder
        → ProcessResult
        → List Siger
        → Bytes
        → List (String × Bytes)
        → KeriResult (S × Kevers)
    process_inception store kevers serder r sigs raw_sig_bytes couples =
        elim (find kevers r.prefix) [
          | some kever ↦ err KeriError.already_exists
          | none ↦ do
            verfers ← verfers_from_serder serder
            kever ← from_core (new_from_parts d serder.raw serder.sad sigs verfers)
            (if ltb 0 kever.state.backer_threshold
                then from_core (verify_witness_receipts d kever serder.raw couples)
                else ok tt)
            store ←
                from_db
                  (o.store_event store r.said serder.raw r.prefix r.sn (sigs_or_none raw_sig_bytes))
            ok (store, put kevers r.prefix kever)
        ]

    -- An event of an identifier that is not known is passed over.
    unfoldable pub process_event :
        S
        → Kevers
        → Serder
        → ProcessResult
        → List Siger
        → Bytes
        → List (String × Bytes)
        → KeriResult (S × Kevers)
    process_event store kevers serder r sigs raw_sig_bytes couples = elim (find kevers r.prefix) [
      | none ↦ ok (store, kevers)
      | some kever ↦ do
        state ← from_core (verify_update_owned d kever serder.raw serder.sad sigs)
        (if ltb 0 state.backer_threshold
            then from_core (
                verify_witness_receipts_static d serder.raw couples state.backers
                  state.backer_threshold)
            else ok tt)
        store ←
            from_db
              (o.store_event store r.said serder.raw r.prefix r.sn (sigs_or_none raw_sig_bytes))
        ok (store, put kevers r.prefix (apply_verified_update kever state))
    ]

    unfoldable pub process_receipt : S → String → List (String × Bytes) → KeriResult S
    process_receipt store said couples =
        if is_empty couples
        then ok store
        else from_db (o.put_receipts store said (couple_bytes couples))

    -- The match on the message type.
    unfoldable pub process_ilk :
        S
        → Kevers
        → Serder
        → ProcessResult
        → List Siger
        → Bytes
        → List (String × Bytes)
        → KeriResult (S × Kevers)
    process_ilk store kevers serder r sigs raw_sig_bytes couples =
        if r.ilk == "icp" || r.ilk == "dip"
        then process_inception store kevers serder r sigs raw_sig_bytes couples
        else if r.ilk == "rot" || r.ilk == "ixn" || r.ilk == "drt"
        then process_event store kevers serder r sigs raw_sig_bytes couples
        else if r.ilk == "rct"
        then (process_receipt store r.said couples >>= λ store. ok (store, kevers))
        else (from_db (o.put_event store r.said serder.raw) >>= λ store. ok (store, kevers))

    -- The store and the verifiers after the message; an error has changed neither.
    unfoldable pub process_parsed :
        S → Kevers → ParsedMessage → KeriResult (ProcessResult × S × Kevers)
    process_parsed store kevers parsed = do
      r ← header parsed.serder
      collected ← collect parsed.attachments [] []
      next ←
          process_ilk store kevers parsed.serder r (extract_controller_sigs parsed.attachments)
            collected.0 collected.1
      ok (r, next.0, next.1)

    unfoldable pub process_message : S → Kevers → Bytes → KeriResult (ProcessResult × S × Kevers)
    unfolding first_message process_parsed
    process_message store kevers bytes = do
      parsed ← first_message bytes
      process_parsed store kevers parsed
