-- ===== src/Crypto/Signer.antt =====
-- crates/affinidi-keri-crypto/src/signer.rs: private signing keys.
pub mod Signing
use affinidi_keri_rs.Prelude.{
  ℕ, String, Bool, true, ◌||◌, none, some, if◌then◌else◌, ◌==◌, nat_eq, string_eq, pair_eq, length,
}
use affinidi_keri_rs.Prelude.Result.{ok, err, ◌>>=◌, ◌>>◌, guard}
use affinidi_keri_rs.Crypto.Extern.{
  Bytes, Scheme, Extern, CryptoError, CryptoResult, unsupported_algorithm, invalid_key_size,
  invalid_key,
}
use affinidi_keri_rs.Crypto.Verfer
use affinidi_keri_rs.Crypto.Verfer.{Verfer}
use affinidi_keri_rs.Crypto.Cigar
use affinidi_keri_rs.Crypto.Cigar.{Cigar}
use affinidi_keri_rs.Crypto.Siger
use affinidi_keri_rs.Crypto.Siger.{Siger}

pub data Algorithm : Type 0 where
  ed25519 secp256k1 secp256r1 : Algorithm

pub record Signer : Type 0 where
  pub raw : Bytes
  pub code : String
  pub transferable : Bool
  pub verfer : Verfer

unfoldable pub algorithm_from_code : String → CryptoResult Algorithm
algorithm_from_code code =
    if code == "A"
    then ok ed25519
    else if code == "1AAA" || code == "1AAB"
    then ok secp256k1
    else if code == "1AAI" || code == "1AAJ"
    then ok secp256r1
    else err unsupported_algorithm

-- The source unwraps this: a signer is made with a code that has passed the same function.
unfoldable pub algorithm : Signer → CryptoResult Algorithm
unfolding algorithm_from_code
algorithm s = algorithm_from_code s.code

unfoldable pub cigar_code : Algorithm → String
cigar_code ed25519 = "0B"
cigar_code secp256k1 = "0C"
cigar_code secp256r1 = "0I"

unfoldable pub siger_current_code : Algorithm → String
siger_current_code ed25519 = "A"
siger_current_code secp256k1 = "C"
siger_current_code secp256r1 = "E"

unfoldable pub siger_both_code : Algorithm → String
siger_both_code ed25519 = "B"
siger_both_code secp256k1 = "D"
siger_both_code secp256r1 = "F"

-- An Ed25519 seed is an array of 32 bytes.
unfoldable pub sign_ed25519 : Scheme → Bytes → Bytes → CryptoResult Bytes
sign_ed25519 s raw message = do
  guard (length raw == 32) (invalid_key_size 32 (length raw))
  ok (s.sign raw message)

-- `sign_secp256k1` and `sign_secp256r1`, which differ in the scheme only.
unfoldable pub sign_ecdsa : Scheme → Bytes → Bytes → CryptoResult Bytes
sign_ecdsa s raw message = do guard (s.private_parses raw) invalid_key; ok (s.sign raw message)

module _ (x : Extern) where
  unfoldable pub derive_key : Algorithm → Bytes → Bool → CryptoResult Verfer
  derive_key ed25519 raw transferable = do
    guard (length raw == 32) (invalid_key_size 32 (length raw))
    Verfer.new x (if transferable then "D" else "B") (x.ed25519.public_key raw)
  derive_key secp256k1 raw transferable = do
    guard (x.secp256k1.private_parses raw) invalid_key
    Verfer.new x (if transferable then "1AAB" else "1AAA") (x.secp256k1.public_key raw)
  derive_key secp256r1 raw transferable = do
    guard (x.secp256r1.private_parses raw) invalid_key
    Verfer.new x (if transferable then "1AAJ" else "1AAI") (x.secp256r1.public_key raw)

  unfoldable pub derive_verfer : String → Bytes → Bool → CryptoResult Verfer
  unfolding derive_key algorithm_from_code
  derive_verfer code raw transferable = do
    a ← algorithm_from_code code
    derive_key a raw transferable

  unfoldable pub new_with_transferable : String → Bytes → Bool → CryptoResult Signer
  unfolding derive_verfer
  new_with_transferable code raw transferable = do
    verfer ← derive_verfer code raw transferable
    ok (record { raw = raw; code = code; transferable = transferable; verfer = verfer })

  unfoldable pub new : String → Bytes → CryptoResult Signer
  unfolding new_with_transferable
  new code raw = new_with_transferable code raw true

  unfoldable pub sign_with : Algorithm → Bytes → Bytes → CryptoResult Bytes
  unfolding sign_ed25519 sign_ecdsa
  sign_with ed25519 raw message = sign_ed25519 x.ed25519 raw message
  sign_with secp256k1 raw message = sign_ecdsa x.secp256k1 raw message
  sign_with secp256r1 raw message = sign_ecdsa x.secp256r1 raw message

  -- `sign_raw` and the code that goes with it.
  unfoldable pub sign : Signer → Bytes → CryptoResult Cigar
  unfolding algorithm sign_with cigar_code
  sign s message = do
    a ← algorithm s
    sig ← sign_with a s.raw message
    Cigar.new_with_verfer x (cigar_code a) sig s.verfer

  unfoldable pub sign_indexed : Signer → Bytes → ℕ → Bool → CryptoResult Siger
  unfolding algorithm sign_with siger_current_code siger_both_code
  sign_indexed s message index only = do
    a ← algorithm s
    sig ← sign_with a s.raw message
    Siger.new_with_verfer x (if only then siger_current_code a else siger_both_code a) index
        (if only then none else some index) sig s.verfer
