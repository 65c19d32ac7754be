-- ===== src/Lmdb.antt =====
-- crates/affinidi-keri-db/src/lmdb.rs: the store on LMDB, with a table as a map. Whether a
-- transaction goes through is up to the database, an argument; one that does not has written
-- nothing. Iteration follows the order of first insertion here and that of the keys in LMDB, which shows
-- only in the order of `list_habs`.
pub mod Placement
pub mod Refinement
use affinidi_keri_rs.Prelude.{
  ℕ, String, true, false, Option, none, some, List, [], ◌∷◌, map, leb, if◌then◌else◌, nat_eq,
  string_eq, pair_eq,
}
use affinidi_keri_rs.Prelude.Result.{ok, ◌>>=◌, ◌>>◌}
use Prim.Native.String.{◌++◌ as append}
use text.Mathlib.Text.{starts_with}
use affinidi_keri_rs.Prelude.Map.{find, put, remove}
use affinidi_keri_rs.Crypto.Extern.{Bytes}
use affinidi_keri_rs.Keys.{sn_key, split_sn}
use affinidi_keri_rs.Store.{DbResult, KeriStore}

pub record LmdbStore : Type 0 where
  pub evts : List (String × Bytes)
  pub kels : List (String × String)
  pub fels : List (String × String)
  pub dtss : List (String × String)
  pub sigs : List (String × Bytes)
  pub wigs : List (String × Bytes)
  pub rcts : List (String × Bytes)
  pub states : List (String × Bytes)
  pub ooes : List (String × Bytes)
  pub pses : List (String × Bytes)
  pub habs : List (String × Bytes)

-- The database's part of a transaction on this state.
pub record Heed : Type 0 where
  pub write_txn : LmdbStore → DbResult (Unit {0})
  pub read_txn : LmdbStore → DbResult (Unit {0})

-- The entries whose key starts with the prefix and the separator, and has a sequence number.
unfoldable pub kel_entries : String → List (String × String) → List (ℕ × String)
unfolding split_sn
kel_entries prefix_dot [] = []
kel_entries prefix_dot ((key, said) ∷ m) =
    let rest = kel_entries prefix_dot m in
    elim (starts_with key prefix_dot) [
      | false ↦ rest
      | true ↦ elim (split_sn key) [ none ↦ rest | some sn ↦ (sn, said) ∷ rest ]
    ]

-- `sort_by_key(|(sn, _)| *sn)`, which is stable.
unfoldable pub insert_by_sn : ℕ × String → List (ℕ × String) → List (ℕ × String)
insert_by_sn e [] = e ∷ []
insert_by_sn e (f ∷ fs) =
    let rest = insert_by_sn e fs in if leb e.0 f.0 then e ∷ f ∷ fs else f ∷ rest

unfoldable pub sort_by_sn : List (ℕ × String) → List (ℕ × String)
unfolding insert_by_sn
sort_by_sn [] = []
sort_by_sn (e ∷ es) = insert_by_sn e (sort_by_sn es)

unfoldable pub last_sn : List (ℕ × String) → Option ℕ
last_sn [] = none
last_sn (e ∷ []) = some e.0
last_sn (e ∷ f ∷ es) = last_sn (f ∷ es)

module _ (h : Heed) where
  unfoldable pub put_event : LmdbStore → String → Bytes → DbResult LmdbStore
  put_event s said event = do h.write_txn s; ok (record s { evts = put s.evts said event })

  unfoldable pub get_event : LmdbStore → String → DbResult (Option Bytes)
  get_event s said = do h.read_txn s; ok (find s.evts said)

  unfoldable pub append_kel : LmdbStore → String → ℕ → String → DbResult LmdbStore
  append_kel s prefix sn said = do
    h.write_txn s
    ok (record s { kels = put s.kels (sn_key prefix sn) said })

  unfoldable pub get_kel_said : LmdbStore → String → ℕ → DbResult (Option String)
  get_kel_said s prefix sn = do h.read_txn s; ok (find s.kels (sn_key prefix sn))

  unfoldable pub put_first_seen : LmdbStore → String → ℕ → String → DbResult LmdbStore
  put_first_seen s prefix sn said = do
    h.write_txn s
    ok (record s { fels = put s.fels (sn_key prefix sn) said })

  unfoldable pub get_first_seen : LmdbStore → String → ℕ → DbResult (Option String)
  get_first_seen s prefix sn = do h.read_txn s; ok (find s.fels (sn_key prefix sn))

  unfoldable pub put_receipts : LmdbStore → String → Bytes → DbResult LmdbStore
  put_receipts s said couples = do h.write_txn s; ok (record s { rcts = put s.rcts said couples })

  unfoldable pub get_receipts : LmdbStore → String → DbResult (Option Bytes)
  get_receipts s said = do h.read_txn s; ok (find s.rcts said)

  unfoldable pub get_signatures : LmdbStore → String → DbResult (Option Bytes)
  get_signatures s said = do h.read_txn s; ok (find s.sigs said)

  unfoldable pub put_datetime : LmdbStore → String → String → DbResult LmdbStore
  put_datetime s key value = do h.write_txn s; ok (record s { dtss = put s.dtss key value })

  unfoldable pub get_datetime : LmdbStore → String → DbResult (Option String)
  get_datetime s key = do h.read_txn s; ok (find s.dtss key)

  unfoldable pub put_signatures : LmdbStore → String → Bytes → DbResult LmdbStore
  put_signatures s key value = do h.write_txn s; ok (record s { sigs = put s.sigs key value })

  unfoldable pub put_witness_sigs : LmdbStore → String → Bytes → DbResult LmdbStore
  put_witness_sigs s key value = do h.write_txn s; ok (record s { wigs = put s.wigs key value })

  unfoldable pub get_witness_sigs : LmdbStore → String → DbResult (Option Bytes)
  get_witness_sigs s key = do h.read_txn s; ok (find s.wigs key)

  unfoldable pub put_state : LmdbStore → String → Bytes → DbResult LmdbStore
  put_state s key value = do h.write_txn s; ok (record s { states = put s.states key value })

  unfoldable pub get_state : LmdbStore → String → DbResult (Option Bytes)
  get_state s key = do h.read_txn s; ok (find s.states key)

  unfoldable pub put_escrow_ooo : LmdbStore → String → ℕ → Bytes → DbResult LmdbStore
  put_escrow_ooo s prefix sn value = do
    h.write_txn s
    ok (record s { ooes = put s.ooes (sn_key prefix sn) value })

  unfoldable pub get_escrow_ooo : LmdbStore → String → ℕ → DbResult (Option Bytes)
  get_escrow_ooo s prefix sn = do h.read_txn s; ok (find s.ooes (sn_key prefix sn))

  unfoldable pub del_escrow_ooo : LmdbStore → String → ℕ → DbResult LmdbStore
  del_escrow_ooo s prefix sn = do
    h.write_txn s
    ok (record s { ooes = remove s.ooes (sn_key prefix sn) })

  unfoldable pub put_escrow_ps : LmdbStore → String → ℕ → Bytes → DbResult LmdbStore
  put_escrow_ps s prefix sn value = do
    h.write_txn s
    ok (record s { pses = put s.pses (sn_key prefix sn) value })

  unfoldable pub get_escrow_ps : LmdbStore → String → ℕ → DbResult (Option Bytes)
  get_escrow_ps s prefix sn = do h.read_txn s; ok (find s.pses (sn_key prefix sn))

  unfoldable pub del_escrow_ps : LmdbStore → String → ℕ → DbResult LmdbStore
  del_escrow_ps s prefix sn = do
    h.write_txn s
    ok (record s { pses = remove s.pses (sn_key prefix sn) })

  unfoldable pub put_hab : LmdbStore → String → Bytes → DbResult LmdbStore
  put_hab s key value = do h.write_txn s; ok (record s { habs = put s.habs key value })

  unfoldable pub get_hab : LmdbStore → String → DbResult (Option Bytes)
  get_hab s key = do h.read_txn s; ok (find s.habs key)

  unfoldable pub del_hab : LmdbStore → String → DbResult LmdbStore
  del_hab s key = do h.write_txn s; ok (record s { habs = remove s.habs key })

  unfoldable pub list_habs : LmdbStore → DbResult (List String)
  list_habs s = do h.read_txn s; ok (map (λ p. p.0) s.habs)

  -- The entries of a log, by sequence number.
  unfoldable pub get_kel : LmdbStore → String → DbResult (List (ℕ × String))
  unfolding kel_entries sort_by_sn
  get_kel s prefix = do h.read_txn s; ok (sort_by_sn (kel_entries (append prefix ".") s.kels))

  unfoldable pub latest_sn : LmdbStore → String → DbResult (Option ℕ)
  unfolding get_kel last_sn
  latest_sn s prefix = do kel ← get_kel s prefix; ok (last_sn kel)

  abbrev put_sigs : List (String × Bytes) → String → Option Bytes → List (String × Bytes)
  put_sigs m said none = m
  put_sigs m said (some sigs) = put m said sigs

  -- The event, its place in both logs and its signatures, in one transaction.
  unfoldable pub store_event :
      LmdbStore → String → Bytes → String → ℕ → Option Bytes → DbResult LmdbStore
  store_event s said event prefix sn sigs = do
    h.write_txn s
    ok (record s {
      evts = put s.evts said event;
      kels = put s.kels (sn_key prefix sn) said;
      fels = put s.fels (sn_key prefix sn) said;
      sigs = put_sigs s.sigs said sigs;
    })

  -- The same with the record of a local identifier.
  unfoldable pub store_event_with_hab :
      LmdbStore → String → Bytes → String → ℕ → Option Bytes → String → Bytes → DbResult LmdbStore
  store_event_with_hab s said event prefix sn sigs hab_name hab_data = do
    h.write_txn s
    ok (record s {
      evts = put s.evts said event;
      kels = put s.kels (sn_key prefix sn) said;
      fels = put s.fels (sn_key prefix sn) said;
      sigs = put_sigs s.sigs said sigs;
      habs = put s.habs hab_name hab_data;
    })

  abbrev pub lmdb_store : KeriStore LmdbStore
  lmdb_store = record {
    put_event = put_event;
    get_event = get_event;
    append_kel = append_kel;
    get_kel_said = get_kel_said;
    get_kel = get_kel;
    put_first_seen = put_first_seen;
    get_first_seen = get_first_seen;
    put_datetime = put_datetime;
    get_datetime = get_datetime;
    put_signatures = put_signatures;
    get_signatures = get_signatures;
    put_witness_sigs = put_witness_sigs;
    get_witness_sigs = get_witness_sigs;
    put_receipts = put_receipts;
    get_receipts = get_receipts;
    put_state = put_state;
    get_state = get_state;
    put_escrow_ooo = put_escrow_ooo;
    get_escrow_ooo = get_escrow_ooo;
    del_escrow_ooo = del_escrow_ooo;
    put_escrow_ps = put_escrow_ps;
    get_escrow_ps = get_escrow_ps;
    del_escrow_ps = del_escrow_ps;
    put_hab = put_hab;
    get_hab = get_hab;
    list_habs = list_habs;
    del_hab = del_hab;
    latest_sn = latest_sn;
    store_event = store_event;
    store_event_with_hab = store_event_with_hab;
  }
