-- ===== src/Hab.antt =====
-- crates/affinidi-keri/src/hab.rs: one local identifier, with its keys and the state of its log. A method
-- on `&mut self` returns the next state also when it fails.
pub mod Sads
pub mod Signing
pub mod Resume
pub mod Failure
pub mod Emission
use affinidi_keri_rs.Prelude.{
  String, true, false, not, Option, none, some, List, [], ◌∷◌, ◌++◌, succ_u64, length, get_elem?,
}
use affinidi_keri_rs.Prelude.Result.{ok, err, ◌>>=◌, ◌>>◌, guard, ok_or, map_err}
use Prim.Native.String.{◌++◌ as append}
use affinidi_keri_rs.Prelude.Text.{codes}
use affinidi_keri_rs.Json.{
  Value, Fields, null, bool, number, unsigned, string, array, object, no_items, no_fields,
  with_field, from_list, lookup, insert,
}
use affinidi_keri_rs.Crypto.Extern.{Bytes}
use affinidi_keri_rs.Crypto.Diger
use affinidi_keri_rs.Crypto.Verfer
use affinidi_keri_rs.Crypto.Siger
use affinidi_keri_rs.Crypto.Cigar
use affinidi_keri_rs.Crypto.Signer
use affinidi_keri_rs.Crypto.Signer.{Signer}
use affinidi_keri_rs.Crypto.Salter
use affinidi_keri_rs.Crypto.Salter.{Salter}
use affinidi_keri_rs.CounterTable.{GroupKind, controller_idx_sigs, non_trans_receipt_couples}
use affinidi_keri_rs.Version.{json, hex_06}
use affinidi_keri_rs.Error.{KeriError, KeriResult, CoreError, from_core, keri_crypto}
use affinidi_keri_rs.Deps.{Deps}
use affinidi_keri_rs.Said
use affinidi_keri_rs.Serder
use affinidi_keri_rs.Serder.{Serder}
use affinidi_keri_rs.Composer.{counter_code_for}
use affinidi_keri_rs.Store.{DbResult, KeriStore}
use affinidi_keri_rs.Config.{InceptionConfig, RotationConfig}
use affinidi_keri_rs.Hab.Sads.{
  Hab, HabState, SignedEvent, icp_sad, rot_sad, ixn_sad, rct_sad, hab_data, state, new_hab, rotated,
  interacted, taken,
}
use affinidi_keri_rs.Hab.Signing.{
  fix_version_string, derive, keys_of, digests_of, sign_from, counter_qb64, sign_event,
}

abbrev pub from_db : {A : Type 0} → DbResult A → KeriResult A
from_db r = map_err r KeriError.db

-- The store as it was, where nothing was written.
abbrev pub with_store :
    {S : Type 0} → S → Hab × KeriResult (SignedEvent × S) → Hab × S × KeriResult Bytes
with_store s (h, ok (event, saved)) = (h, saved, ok event.composed)
with_store s (h, err e) = (h, s, err e)

module _ (d : Deps) where
  unfoldable pub salter_of : Option Bytes → Bytes → KeriResult Salter
  salter_of none random = keri_crypto (Salter.new_random d.crypto random)
  salter_of (some salt) random = keri_crypto (Salter.new d.crypto "0A" salt)

  -- Each operation is followed by a write of its event, which is up to the caller: to a store, or to
  -- nothing. The random bytes are for a salt that the settings do not give.
  module _ {S : Type 0} where
    unfoldable pub incept_inner :
        String
        → InceptionConfig
        → Bytes
        → (SignedEvent → Bytes → KeriResult S)
        → KeriResult (Hab × SignedEvent × S)
    unfolding salter_of derive keys_of digests_of icp_sad sign_event hab_data new_hab
    incept_inner name config random save = do
      salter ← salter_of config.salt random
      signers ← derive d salter config.code config.transferable 0 config.count
      next_signers ← derive d salter config.code config.transferable 1 config.next_count
      keys ← keys_of d signers
      digests ← digests_of d next_signers
      event ← sign_event d (icp_sad config keys digests) signers
      hab_bytes ← ok_or (d.serialize json (hab_data name event.said config)) KeriError.config
      saved ← save event hab_bytes
      ok (new_hab name config salter signers next_signers event, event, saved)

    -- The event of a rotation, with the keys of the next one.
    unfoldable pub rotation :
        Hab
        → RotationConfig
        → (SignedEvent → KeriResult S)
        → KeriResult (List Signer × SignedEvent × S)
    unfolding derive keys_of digests_of rot_sad sign_event
    rotation h config save = do
      next ← derive d h.salter h.code h.transferable (succ_u64 h.key_gen) config.next_count
      keys ← keys_of d h.next_signers
      digests ← digests_of d next
      event ← sign_event d (rot_sad h config keys digests) h.next_signers
      saved ← save event
      ok (next, event, saved)

    -- The next keys are taken out before the steps that can fail.
    unfoldable pub rotate_inner :
        Hab → RotationConfig → (SignedEvent → KeriResult S) → Hab × KeriResult (SignedEvent × S)
    unfolding rotation rotated
    rotate_inner h config save = elim h.transferable [
      | false ↦ (h, err KeriError.config)
      | true ↦ elim (rotation h config save) [
        | err e ↦ (taken h, err e)
        | ok (next, event, saved) ↦ (rotated h config next event, ok (event, saved))
      ]
    ]

    unfoldable pub interaction :
        Hab → List Value → (SignedEvent → KeriResult S) → KeriResult (SignedEvent × S)
    unfolding ixn_sad sign_event
    interaction h anchors save = do
      event ← sign_event d (ixn_sad h anchors) h.signers
      saved ← save event
      ok (event, saved)

    unfoldable pub interact_inner :
        Hab → List Value → (SignedEvent → KeriResult S) → Hab × KeriResult (SignedEvent × S)
    unfolding interaction interacted
    interact_inner h anchors save = elim (interaction h anchors save) [
      | err e ↦ (h, err e)
      | ok (event, saved) ↦ (interacted h event, ok (event, saved))
    ]

  abbrev nowhere : KeriResult (Unit {0})
  nowhere = ok tt

  -- The methods without a store.
  unfoldable pub incept_event : String → InceptionConfig → Bytes → KeriResult (Hab × SignedEvent)
  unfolding incept_inner
  incept_event name config random = do
    (hab, event, u) ← incept_inner name config random (λ e bytes. nowhere)
    ok (hab, event)

  abbrev without_store : Hab × KeriResult (SignedEvent × Unit {0}) → Hab × KeriResult SignedEvent
  without_store (h, ok (event, u)) = (h, ok event)
  without_store (h, err e) = (h, err e)

  unfoldable pub rotate_event : Hab → RotationConfig → Hab × KeriResult SignedEvent
  unfolding rotate_inner
  rotate_event h config = without_store (rotate_inner h config (λ e. nowhere))

  unfoldable pub interact_event : Hab → List Value → Hab × KeriResult SignedEvent
  unfolding interact_inner
  interact_event h anchors = without_store (interact_inner h anchors (λ e. nowhere))

  -- The keys are derived again at the generations that the state records.
  unfoldable pub resume : HabState → Bytes → KeriResult Hab
  unfolding derive
  resume s salt = do
    salter ← keri_crypto (Salter.new d.crypto "0A" salt)
    signers ← derive d salter s.code s.transferable s.signer_gen s.signer_count
    next_signers ← derive d salter s.code s.transferable s.next_gen s.next_count
    ok (record {
      name = s.name;
      prefix = s.prefix;
      signers = signers;
      next_signers = next_signers;
      salter = salter;
      transferable = s.transferable;
      code = s.code;
      last_said = s.last_said;
      sn = s.sn;
      key_gen = s.key_gen;
      signer_gen = s.signer_gen;
      next_gen = s.next_gen;
      backer_threshold = s.backer_threshold;
      backers = s.backers;
    })

  -- A receipt by the first key, as a couple of its text and its signature. A witness without keys is
  -- an error here and an index out of bounds in the source.
  unfoldable pub first_signer : Hab → KeriResult Signer
  first_signer h = ok_or (get_elem? h.signers 0) KeriError.config

  -- The attachment of a receipt of another event: a couple, or indexed signatures.
  unfoldable pub receipt : Hab → Serder → KeriResult Bytes
  unfolding first_signer sign_from counter_qb64
  receipt h other = elim h.transferable [
    | false ↦ (do
      signer ← first_signer h
      cigar ← keri_crypto (Signer.sign d.crypto signer other.raw)
      prefix_qb64 ← keri_crypto (Verfer.qb64 d.crypto signer.verfer)
      cigar_qb64 ← keri_crypto (Cigar.qb64 d.crypto cigar)
      counter ← counter_qb64 d other non_trans_receipt_couples 1
      ok (counter ++ (codes prefix_qb64 ++ codes cigar_qb64)))
    | true ↦ (do
      sig_bytes ← sign_from d other.raw 0 h.signers
      counter ← counter_qb64 d other controller_idx_sigs (length h.signers)
      ok (counter ++ sig_bytes))
  ]

  -- A couple by each witness, which must be non-transferable: the text of its key and the signature.
  unfoldable pub collect_witness_receipts : Serder → List Hab → KeriResult (List (String × Bytes))
  unfolding first_signer
  collect_witness_receipts event [] = ok []
  collect_witness_receipts event (w ∷ ws) = do
    guard (not w.transferable) KeriError.config
    signer ← first_signer w
    cigar ← keri_crypto (Signer.sign d.crypto signer event.raw)
    prefix_qb64 ← keri_crypto (Verfer.qb64 d.crypto signer.verfer)
    couples ← collect_witness_receipts event ws
    ok ((prefix_qb64, cigar.matter.raw) ∷ couples)

  unfoldable pub couples_text : List (String × Bytes) → KeriResult Bytes
  couples_text [] = ok []
  couples_text ((prefix_qb64, sig_raw) ∷ couples) = do
    cigar ← keri_crypto (Cigar.new d.crypto "0B" sig_raw)
    cigar_qb64 ← keri_crypto (Cigar.qb64 d.crypto cigar)
    rest ← couples_text couples
    ok (codes prefix_qb64 ++ (codes cigar_qb64 ++ rest))

  unfoldable pub compose_witness_receipt_attachment : Serder → List Hab → KeriResult Bytes
  unfolding collect_witness_receipts couples_text counter_qb64
  compose_witness_receipt_attachment event witnesses = do
    couples ← collect_witness_receipts event witnesses
    counter ← counter_qb64 d event non_trans_receipt_couples (length couples)
    text ← couples_text couples
    ok (counter ++ text)

  module _ {S : Type 0} (k : KeriStore S) where
    unfoldable pub incept : String → InceptionConfig → Bytes → S → KeriResult (Hab × Bytes × S)
    unfolding incept_inner
    incept name config random s = do
      (hab, event, saved) ← incept_inner name config random λ e bytes.
          from_db (k.store_event_with_hab s e.said e.raw e.said 0 (some e.signatures) name bytes)
      ok (hab, event.composed, saved)

    unfoldable pub rotate : Hab → RotationConfig → S → Hab × S × KeriResult Bytes
    unfolding rotate_inner
    rotate h config s = with_store s (
        rotate_inner h config
          λ e. from_db (k.store_event s e.said e.raw h.prefix (succ_u64 h.sn) (some e.signatures)))

    unfoldable pub interact : Hab → List Value → S → Hab × S × KeriResult Bytes
    unfolding interact_inner
    interact h anchors s = with_store s (
        interact_inner h anchors
          λ e. from_db (k.store_event s e.said e.raw h.prefix (succ_u64 h.sn) (some e.signatures)))

    -- The body of a receipt with its attachment, which is what the store keeps.
    unfoldable pub receipt_message : Hab → Serder → S → KeriResult (Bytes × S)
    unfolding receipt rct_sad fix_version_string
    receipt_message h other s = do
      other_prefix ← from_core (Serder.prefix other)
      other_sn ← from_core (Serder.sn other)
      other_said ← from_core (Serder.said other)
      sized ← fix_version_string d (rct_sad other_prefix other_sn)
      (receipt_said, filled) ← from_core (Said.compute_said d (object sized) "d" "E" json)
      serder ← from_core (Serder.new d json filled)
      attachment ← receipt h other
      saved ← from_db (k.put_receipts s other_said attachment)
      ok (serder.raw ++ attachment, saved)
