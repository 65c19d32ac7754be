-- ===== src/Error.antt =====
-- The error types of the core, database and protocol crates (src/error.rs of affinidi-keri-core,
-- affinidi-keri-db and affinidi-keri). The texts of the messages are left out; the values that an
-- error carries as data stay.
use affinidi_keri_rs.Prelude.{ℕ, String, nat_eq, string_eq}
use affinidi_keri_rs.Prelude.Result.{Result, map_err}
use affinidi_keri_rs.Crypto.Extern.{CryptoError}

pub data CoreError : Type 0 where
  cesr json cbor msg_pack unexpected_ilk said_mismatch threshold_not_met : CoreError
  invalid_prefix invalid_version parse_error validation : CoreError
  crypto : CryptoError → CoreError
  missing_field : String → CoreError
  out_of_order : ℕ → ℕ → CoreError
  duplicate_event : ℕ → CoreError

abbrev pub CoreResult : Type 0 → Type 0
CoreResult A = Result A CoreError

pub data DbError : Type 0 where
  database not_found serialization lmdb transaction duplicate : DbError

pub data KeriError : Type 0 where
  cesr config not_found already_exists : KeriError
  crypto : CryptoError → KeriError
  core : CoreError → KeriError
  db : DbError → KeriError

abbrev pub KeriResult : Type 0 → Type 0
KeriResult A = Result A KeriError

-- `?` on a `Result<_, CryptoError>` in the core crate.
abbrev pub from_crypto {ℓ} : {A : Type ℓ} → Result A CryptoError → Result A CoreError
from_crypto r = map_err r CoreError.crypto

-- `?` on a `Result<_, CoreError>` in the protocol crate.
abbrev pub from_core {ℓ} : {A : Type ℓ} → Result A CoreError → Result A KeriError
from_core r = map_err r KeriError.core

-- `?` on a `Result<_, CryptoError>` in the protocol crate.
abbrev pub keri_crypto {ℓ} : {A : Type ℓ} → Result A CryptoError → Result A KeriError
keri_crypto r = map_err r KeriError.crypto
