-- ===== src/Crypto/Verfer.antt =====
-- crates/affinidi-keri-crypto/src/verfer.rs: public verification keys.
use affinidi_keri_rs.Prelude.{String, Bool, ◌||◌, length, ◌==◌, string_eq, nat_eq, if◌then◌else◌}
use affinidi_keri_rs.Prelude.Result.{ok, err, ok_or, guard, ◌>>=◌, ◌>>◌}
use affinidi_keri_rs.Crypto.Extern.{
  Bytes, Matter, Scheme, Extern, CryptoResult, cesr, unsupported_algorithm, invalid_key_size,
  invalid_signature, invalid_key,
}

pub record Verfer : Type 0 where
  pub matter : Matter

unfoldable pub is_ed25519_code : String → Bool
is_ed25519_code c = c == "B" || c == "D"

unfoldable pub is_secp256k1_code : String → Bool
is_secp256k1_code c = c == "1AAA" || c == "1AAB"

unfoldable pub is_secp256r1_code : String → Bool
is_secp256r1_code c = c == "1AAI" || c == "1AAJ"

unfoldable pub validate_code : String → CryptoResult (Unit {0})
unfolding is_ed25519_code is_secp256k1_code is_secp256r1_code
validate_code code =
    guard (is_ed25519_code code || is_secp256k1_code code || is_secp256r1_code code)
      unsupported_algorithm

unfoldable pub transferable : Verfer → Bool
transferable v = v.matter.code == "D" || v.matter.code == "1AAB" || v.matter.code == "1AAJ"

-- The key and the signature are arrays of 32 and 64 bytes.
unfoldable pub verify_ed25519 : Scheme → Matter → Bytes → Bytes → CryptoResult Bool
verify_ed25519 s key message signature = do
  guard (length key.raw == 32) (invalid_key_size 32 (length key.raw))
  guard (s.key_parses key.raw) invalid_key
  guard (length signature == 64) invalid_signature
  ok (s.verifies key.raw message signature)

-- `verify_secp256k1` and `verify_secp256r1`, which differ in the scheme only.
unfoldable pub verify_ecdsa : Scheme → Matter → Bytes → Bytes → CryptoResult Bool
verify_ecdsa s key message signature = do
  guard (s.key_parses key.raw) invalid_key
  guard (s.signature_parses signature) invalid_signature
  ok (s.verifies key.raw message signature)

module _ (x : Extern) where
  unfoldable pub new : String → Bytes → CryptoResult Verfer
  unfolding validate_code
  new code raw = do
    validate_code code
    matter ← ok_or (x.matter_new code raw) cesr
    ok (record { matter = matter })

  unfoldable pub from_qb64 : String → CryptoResult Verfer
  unfolding validate_code
  from_qb64 text = do
    matter ← ok_or (x.matter_from_qb64 text) cesr
    validate_code matter.code
    ok (record { matter = matter })

  unfoldable pub qb64 : Verfer → CryptoResult String
  qb64 v = ok_or (x.matter_qb64 v.matter) cesr

  unfoldable pub verify : Verfer → Bytes → Bytes → CryptoResult Bool
  unfolding is_ed25519_code is_secp256k1_code is_secp256r1_code verify_ed25519 verify_ecdsa
  verify v message signature =
      if is_ed25519_code v.matter.code
      then verify_ed25519 x.ed25519 v.matter message signature
      else if is_secp256k1_code v.matter.code
      then verify_ecdsa x.secp256k1 v.matter message signature
      else if is_secp256r1_code v.matter.code
      then verify_ecdsa x.secp256r1 v.matter message signature
      else err unsupported_algorithm
