-- ===== src/Tests/Stores.antt =====
-- The LMDB store over a database whose transactions all go through.
use affinidi_keri_rs.Prelude.{◌≡◌, refl, some, List, [], ◌∷◌, arith, nat_eq, string_eq, pair_eq}
use affinidi_keri_rs.Prelude.Result.{ok}
use affinidi_keri_rs.Prelude.Text.{hex_padded, digit_char}
use affinidi_keri_rs.Prelude.Map.{put, remove}
use affinidi_keri_rs.Keys.{sn_key}
use affinidi_keri_rs.Lmdb
use affinidi_keri_rs.Lmdb.{LmdbStore, Heed, lmdb_store}
use affinidi_keri_rs.Lmdb.Refinement.{ledger, Reads-perform_all}
use affinidi_keri_rs.Store.Ledger
use affinidi_keri_rs.Store.Ledger.{
  Write, put_escrow_ooo, del_escrow_ooo, write_all, perform_all, Reads,
}

abbrev steady : Heed
steady = record { write_txn = λ s. ok tt; read_txn = λ s. ok tt }

abbrev empty : LmdbStore
empty = record {
  evts = [];
  kels = [];
  fels = [];
  dtss = [];
  sigs = [];
  wigs = [];
  rcts = [];
  states = [];
  ooes = [];
  pses = [];
  habs = [];
}

abbrev held : LmdbStore
held = record empty {
  evts = ("SAID", 1 ∷ []) ∷ [];
  kels = (sn_key "AID" 3, "SAID") ∷ [];
  fels = (sn_key "AID" 3, "SAID") ∷ [];
  sigs = ("SAID", 2 ∷ []) ∷ [];
}

store_event-holds : Lmdb.store_event steady empty "SAID" (1 ∷ []) "AID" 3 (some (2 ∷ [])) ≡ ok held
unfolding Lmdb.store_event put
store_event-holds = refl

abbrev escrowed_first : List Write
escrowed_first =
    put_escrow_ooo "AID" 3 (9 ∷ [])
    ∷ Ledger.store_event "SAID" (1 ∷ []) "AID" 3 (some (2 ∷ []))
    ∷ del_escrow_ooo "AID" 3
    ∷ []

perform_all-holds : perform_all (lmdb_store steady) empty escrowed_first ≡ ok held
unfolding perform_all Lmdb.put_escrow_ooo Lmdb.del_escrow_ooo Lmdb.store_event put remove sn_key
    hex_padded digit_char
perform_all-holds = refl

Reads-perform_all_example : Reads (lmdb_store steady) held (write_all (ledger empty) escrowed_first)
Reads-perform_all_example =
    Reads-perform_all steady empty held escrowed_first
      (omega arith, (omega arith, (omega arith, tt))) perform_all-holds
