-- ===== src/Tests/Signers.antt =====
-- A signing key over a sound scheme: the signature is the key twice, and the public key is the key.
use affinidi_keri_rs.Prelude.{
  ◌≡◌, refl, true, none, some, [], ◌∷◌, ◌++◌, arith, nat_eq, string_eq, pair_eq, length,
  length-append,
}
use affinidi_keri_rs.Prelude.Result.{ok}
use affinidi_keri_rs.Crypto.Extern.{Bytes, Scheme, Extern}
use affinidi_keri_rs.Crypto.Diger.{ct_eq}
use affinidi_keri_rs.Crypto.Verfer
use affinidi_keri_rs.Crypto.Verfer.{Verfer}
use affinidi_keri_rs.Crypto.Siger
use affinidi_keri_rs.Crypto.Siger.{Siger}
use affinidi_keri_rs.Crypto.Signer.{Signer, new_with_transferable, sign_indexed}
use affinidi_keri_rs.Crypto.Signer.Signing.{Signs, IsSound, verify-sign_indexed}
use affinidi_keri_rs.Tests.World.{crypto}

abbrev twice : Scheme
twice = record {
  key_parses = λ k. true;
  signature_parses = λ s. true;
  verifies = λ k m s. ct_eq (k ++ k) s;
  private_parses = λ k. true;
  public_key = λ k. k;
  sign = λ k m. k ++ k;
}

abbrev pub sound_crypto : Extern
sound_crypto = record crypto { ed25519 = twice; secp256k1 = twice; secp256r1 = twice }

ct_eq_refl : (bytes : Bytes) → ct_eq bytes bytes ≡ true
unfolding ct_eq
ct_eq_refl [] = refl
ct_eq_refl (b ∷ bs) = ground (arith, ct_eq_refl bs)

twice-Signs : (IsKey : Bytes → Type 0) → Signs twice IsKey
twice-Signs IsKey = record {
  key = λ raw k. refl;
  signature = λ raw message k. refl;
  verifies = λ raw message k. ct_eq_refl (raw ++ raw);
}

pub sound_crypto-IsSound : IsSound sound_crypto
sound_crypto-IsSound = record {
  matter = λ code raw m e. ground arith;
  indexer = λ code index ondex raw i e. ground arith;
  public_size = λ raw n. n;
  signature_size = λ raw message n. omega (arith, length-append raw raw);
  ed25519 = twice-Signs (λ raw. length raw ≡ 32);
  secp256k1 = twice-Signs (λ raw. true ≡ true);
  secp256r1 = twice-Signs (λ raw. true ≡ true);
}

abbrev signer : Signer
signer = record {
  raw = 7 ∷ [];
  code = "1AAA";
  transferable = true;
  verfer = record { matter = record { code = "1AAB"; raw = 7 ∷ [] } };
}

abbrev siger : Siger
siger = record {
  indexer = record { code = "C"; index = 2; ondex = none; raw = 7 ∷ 7 ∷ [] };
  verfer = some signer.verfer;
}

verify-sign_indexed_example :
    (Siger.verify sound_crypto siger (1 ∷ 2 ∷ []) ≡ ok true) × (siger.indexer.index ≡ 2)
unfolding new_with_transferable Verfer.new sign_indexed Siger.new_with_verfer
verify-sign_indexed_example =
    verify-sign_indexed sound_crypto sound_crypto-IsSound "1AAA" (7 ∷ []) (1 ∷ 2 ∷ []) true signer 2
      true siger refl refl
