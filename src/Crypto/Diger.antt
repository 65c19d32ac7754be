-- ===== src/Crypto/Diger.antt =====
-- crates/affinidi-keri-crypto/src/diger.rs: digests.
use affinidi_keri_rs.Prelude.{
  String, Bool, true, false, ◌&&◌, [], ◌∷◌, Option, none, some, ◌==◌, string_eq, nat_eq,
  if◌then◌else◌,
}
use affinidi_keri_rs.Prelude.Result.{ok, ok_or, ◌>>=◌, ◌>>◌}
use affinidi_keri_rs.Crypto.Extern.{
  Bytes, Matter, Algorithm, Extern, CryptoResult, cesr, unsupported_algorithm, blake3_256,
  blake2b_256, blake2s_256, sha3_256, sha2_256, blake3_512, blake2b_512, sha3_512, sha2_512,
}

pub record Diger : Type 0 where
  pub matter : Matter

-- The algorithm of a digest code.
unfoldable pub algorithm : String → Option Algorithm
algorithm code =
    if code == "E"
    then some blake3_256
    else if code == "F"
    then some blake2b_256
    else if code == "G"
    then some blake2s_256
    else if code == "H"
    then some sha3_256
    else if code == "I"
    then some sha2_256
    else if code == "0D"
    then some blake3_512
    else if code == "0E"
    then some blake2b_512
    else if code == "0F"
    then some sha3_512
    else if code == "0G"
    then some sha2_512
    else none

unfoldable pub validate_code : String → CryptoResult (Unit {0})
unfolding algorithm
validate_code code = do algorithm ← ok_or (algorithm code) unsupported_algorithm; ok tt

-- `ct_eq` of two byte strings: equal length and equal bytes.
unfoldable pub ct_eq : Bytes → Bytes → Bool
ct_eq [] [] = true
ct_eq (a ∷ as') (b ∷ bs) = a == b && ct_eq as' bs
ct_eq _ _ = false

module _ (x : Extern) where
  unfoldable pub compute_digest : String → Bytes → CryptoResult Bytes
  unfolding algorithm
  compute_digest code bytes = do
    algorithm ← ok_or (algorithm code) unsupported_algorithm
    ok (x.digest algorithm bytes)

  unfoldable pub new : String → Bytes → CryptoResult Diger
  unfolding validate_code
  new code raw = do
    validate_code code
    matter ← ok_or (x.matter_new code raw) cesr
    ok (record { matter = matter })

  unfoldable pub from_data : String → Bytes → CryptoResult Diger
  unfolding compute_digest
  from_data code bytes = do
    raw ← compute_digest code bytes
    matter ← ok_or (x.matter_new code raw) cesr
    ok (record { matter = matter })

  unfoldable pub from_qb64 : String → CryptoResult Diger
  unfolding validate_code
  from_qb64 text = do
    matter ← ok_or (x.matter_from_qb64 text) cesr
    validate_code matter.code
    ok (record { matter = matter })

  unfoldable pub qb64 : Diger → CryptoResult String
  qb64 d = ok_or (x.matter_qb64 d.matter) cesr

  unfoldable pub verify : Diger → Bytes → CryptoResult Bool
  unfolding compute_digest ct_eq
  verify d bytes = do
    recomputed ← compute_digest d.matter.code bytes
    ok (ct_eq recomputed d.matter.raw)
