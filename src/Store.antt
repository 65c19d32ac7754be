-- ===== src/Store.antt =====
-- crates/affinidi-keri-db/src/store.rs: what the drivers ask of an event store. The trait's methods
-- take the store behind a shared reference; here an operation that writes returns the next store,
-- and one that fails has written nothing, as the trait asks for.
pub mod Ledger
use affinidi_keri_rs.Prelude.{ℕ, String, Option, List}
use affinidi_keri_rs.Prelude.Result.{Result}
use affinidi_keri_rs.Crypto.Extern.{Bytes}
use affinidi_keri_rs.Error.{DbError}

abbrev pub DbResult : Type 0 → Type 0
DbResult A = Result A DbError

pub record KeriStore (S : Type 0) : Type 0 where
  -- Events, the key event log and the first-seen log, by prefix and sequence number.
  pub put_event : S → String → Bytes → DbResult S
  pub get_event : S → String → DbResult (Option Bytes)
  pub append_kel : S → String → ℕ → String → DbResult S
  pub get_kel_said : S → String → ℕ → DbResult (Option String)
  pub get_kel : S → String → DbResult (List (ℕ × String))
  pub put_first_seen : S → String → ℕ → String → DbResult S
  pub get_first_seen : S → String → ℕ → DbResult (Option String)
  -- What belongs to an event, by its SAID.
  pub put_datetime : S → String → String → DbResult S
  pub get_datetime : S → String → DbResult (Option String)
  pub put_signatures : S → String → Bytes → DbResult S
  pub get_signatures : S → String → DbResult (Option Bytes)
  pub put_witness_sigs : S → String → Bytes → DbResult S
  pub get_witness_sigs : S → String → DbResult (Option Bytes)
  pub put_receipts : S → String → Bytes → DbResult S
  pub get_receipts : S → String → DbResult (Option Bytes)
  -- The key state of a prefix, and the two escrows by prefix and sequence number.
  pub put_state : S → String → Bytes → DbResult S
  pub get_state : S → String → DbResult (Option Bytes)
  pub put_escrow_ooo : S → String → ℕ → Bytes → DbResult S
  pub get_escrow_ooo : S → String → ℕ → DbResult (Option Bytes)
  pub del_escrow_ooo : S → String → ℕ → DbResult S
  pub put_escrow_ps : S → String → ℕ → Bytes → DbResult S
  pub get_escrow_ps : S → String → ℕ → DbResult (Option Bytes)
  pub del_escrow_ps : S → String → ℕ → DbResult S
  -- Records of local identifiers, by name.
  pub put_hab : S → String → Bytes → DbResult S
  pub get_hab : S → String → DbResult (Option Bytes)
  pub list_habs : S → DbResult (List String)
  pub del_hab : S → String → DbResult S
  pub latest_sn : S → String → DbResult (Option ℕ)
  -- The SAID, the event, the prefix, the sequence number and the signatures; then the name and the
  -- record of a local identifier.
  pub store_event : S → String → Bytes → String → ℕ → Option Bytes → DbResult S
  pub store_event_with_hab :
      S → String → Bytes → String → ℕ → Option Bytes → String → Bytes → DbResult S
