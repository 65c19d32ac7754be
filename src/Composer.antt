-- ===== src/Composer.antt =====
-- crates/affinidi-keri-core/src/composer.rs: messages with their attachments. The counter codec is of
-- the CESR crate. The text of a primitive is ASCII, so its bytes are its characters.
use affinidi_keri_rs.Prelude.{
  ℕ, String, Option, none, some, List, [], ◌∷◌, ◌++◌, nat_eq, string_eq, pair_eq, length,
}
use affinidi_keri_rs.Prelude.Result.{ok, ◌>>=◌, ok_or}
use affinidi_keri_rs.Prelude.Text.{codes}
use affinidi_keri_rs.Crypto.Extern.{Bytes}
use affinidi_keri_rs.Crypto.Siger
use affinidi_keri_rs.Crypto.Siger.{Siger}
use affinidi_keri_rs.Crypto.Cigar
use affinidi_keri_rs.Crypto.Cigar.{Cigar}
use affinidi_keri_rs.CounterTable.{
  CounterTable, v1, GroupKind, controller_idx_sigs, witness_idx_sigs, non_trans_receipt_couples,
  from_major, code_in,
}
use affinidi_keri_rs.Version.{Version}
use affinidi_keri_rs.Error.{CoreResult, parse_error, from_crypto}
use affinidi_keri_rs.Deps.{Deps}
use affinidi_keri_rs.Serder.{Serder}

-- `map_or(CounterTable::default(), ...)`
unfoldable pub table_of : Option Version → CounterTable
unfolding from_major
table_of none = v1
table_of (some v) = from_major v.major

unfoldable pub table_for : Serder → CounterTable
unfolding table_of
table_for s = table_of s.version

unfoldable pub counter_code_for : Serder → GroupKind → CoreResult String
unfolding table_for code_in
counter_code_for s kind = ok_or (code_in kind (table_for s)) parse_error

module _ (d : Deps) where
  -- The counter in front of a group.
  unfoldable pub counter_text : Serder → GroupKind → ℕ → CoreResult String
  unfolding counter_code_for
  counter_text s kind count = do
    code ← counter_code_for s kind
    counter ← ok_or (d.counter_new code count) parse_error
    ok_or (d.counter_qb64 counter) parse_error

  unfoldable pub sigs_text : List Siger → CoreResult Bytes
  sigs_text [] = ok []
  sigs_text (s ∷ ss) = do
    text ← from_crypto (Siger.qb64 d.crypto s)
    rest ← sigs_text ss
    ok (codes text ++ rest)

  -- What `compose_event` and `compose_witness_sigs` share: no group for no signature.
  unfoldable pub compose_sigs : GroupKind → Serder → List Siger → CoreResult Bytes
  unfolding counter_text sigs_text
  compose_sigs kind s [] = ok s.raw
  compose_sigs kind s (g ∷ gs) = do
    counter ← counter_text s kind (length (g ∷ gs))
    sigs ← sigs_text (g ∷ gs)
    ok (s.raw ++ (codes counter ++ sigs))

  unfoldable pub compose_event : Serder → List Siger → CoreResult Bytes
  unfolding compose_sigs
  compose_event s sigs = compose_sigs controller_idx_sigs s sigs

  unfoldable pub compose_witness_sigs : Serder → List Siger → CoreResult Bytes
  unfolding compose_sigs
  compose_witness_sigs s sigs = compose_sigs witness_idx_sigs s sigs

  unfoldable pub compose_receipt : Serder → String → Cigar → CoreResult Bytes
  unfolding counter_text
  compose_receipt s prefix cigar = do
    counter ← counter_text s non_trans_receipt_couples 1
    cigar_qb64 ← from_crypto (Cigar.qb64 d.crypto cigar)
    ok (s.raw ++ (codes counter ++ (codes prefix ++ codes cigar_qb64)))
