-- ===== src/Crypto/Extern.antt =====
-- What affinidi-keri-crypto takes from crates that are not part of the repository: the CESR codec
-- (affinidi_cesr) and the algorithms (ed25519_dalek, k256, p256, blake3, blake2, sha2, sha3, argon2). They
-- are the fields of a record that the definitions take as an argument. Errors of these crates carry
-- no content here.
use affinidi_keri_rs.Prelude.{ℕ, String, Bool, List, Option}
use affinidi_keri_rs.Prelude.Result.{Result}

abbrev pub Bytes : Type 0
Bytes = List ℕ

-- `affinidi_cesr::Matter`: what `code()` and `raw()` return.
pub record Matter : Type 0 where
  pub code : String
  pub raw : Bytes

-- `affinidi_cesr::Indexer`: what `code()`, `index()`, `ondex()` and `raw()` return.
pub record Indexer : Type 0 where
  pub code : String
  pub index : ℕ
  pub ondex : Option ℕ
  pub raw : Bytes

pub data Algorithm : Type 0 where
  blake3_256 blake2b_256 blake2s_256 sha3_256 sha2_256 : Algorithm
  blake3_512 blake2b_512 sha3_512 sha2_512 : Algorithm

-- A signature scheme: which keys and signatures parse, and which signatures of a message verify; and
-- of a private key that parses, its public key (compressed, for a curve) and its signatures.
pub record Scheme : Type 0 where
  pub key_parses : Bytes → Bool
  pub signature_parses : Bytes → Bool
  pub verifies : Bytes → Bytes → Bytes → Bool
  pub private_parses : Bytes → Bool
  pub public_key : Bytes → Bytes
  pub sign : Bytes → Bytes → Bytes

pub record Extern : Type 0 where
  pub matter_new : String → Bytes → Option Matter
  pub matter_from_qb64 : String → Option Matter
  pub matter_qb64 : Matter → Option String
  pub indexer_new : String → ℕ → Option ℕ → Bytes → Option Indexer
  pub indexer_from_qb64 : String → Option Indexer
  pub indexer_qb64 : Indexer → Option String
  pub digest : Algorithm → Bytes → Bytes
  pub ed25519 : Scheme
  pub secp256k1 : Scheme
  pub secp256r1 : Scheme
  -- `argon2`: the costs (memory, time, lanes) and the length of the output, then, for the hash, the
  -- password and the salt.
  pub argon2_params : ℕ → ℕ → ℕ → ℕ → Bool
  pub argon2 : ℕ → ℕ → ℕ → ℕ → Bytes → Bytes → Option Bytes

-- crates/affinidi-keri-crypto/src/error.rs, without the texts of the messages.
pub data CryptoError : Type 0 where
  cesr verification_failed digest_mismatch unsupported_algorithm : CryptoError
  invalid_key_size : ℕ → ℕ → CryptoError
  key_derivation conversion missing_verfer invalid_signature invalid_key : CryptoError

abbrev pub CryptoResult : Type 0 → Type 0
CryptoResult A = Result A CryptoError
