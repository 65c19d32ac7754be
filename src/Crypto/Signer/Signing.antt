-- ===== src/Crypto/Signer/Signing.antt =====
-- The signatures of a private key, against the verification key that is derived from it.
use affinidi_keri_rs.Prelude.{
  ℕ, String, ◌≡◌, refl, subst, inl, inr, Bool, true, false, Option, some, arith, Option-cases,
  nat_eq, string_eq, pair_eq, length,
}
use affinidi_keri_rs.Prelude.Result.{ok, ok_or, >>=-eq-ok, ok_or-eq-ok}
use affinidi_keri_rs.Crypto.Extern.{Bytes, Matter, Indexer, Scheme, Extern, cesr}
use affinidi_keri_rs.Crypto.Verfer
use affinidi_keri_rs.Crypto.Verfer.{Verfer}
use affinidi_keri_rs.Crypto.Siger
use affinidi_keri_rs.Crypto.Siger.{Siger}
use affinidi_keri_rs.Crypto.Cigar
use affinidi_keri_rs.Crypto.Cigar.{Cigar}
use affinidi_keri_rs.Crypto.Signer.{
  Algorithm, ed25519, secp256k1, secp256r1, Signer, derive_key, sign_with, algorithm,
  algorithm_from_code, derive_verfer, new_with_transferable, cigar_code, sign, sign_indexed,
}

-- A scheme whose signatures verify: what `IsKey` accepts as a private key gives a public key and
-- signatures that parse, and they verify.
pub record Signs (s : Scheme) (IsKey : Bytes → Type 0) : Type 0 where
  pub key : (raw : Bytes) → IsKey raw → s.key_parses (s.public_key raw) ≡ true
  pub signature : (raw message : Bytes) → IsKey raw → s.signature_parses (s.sign raw message) ≡ true
  pub verifies :
      (raw message : Bytes)
      → IsKey raw
      → s.verifies (s.public_key raw) message (s.sign raw message) ≡ true

-- What the documentation of the codec and of the algorithms promises: a primitive holds the parts
-- that it was made of, a signature verifies under the public key of its private key, and those of
-- Ed25519 have their fixed sizes.
pub record IsSound (x : Extern) : Type 0 where
  pub matter :
      (code : String) (raw : Bytes) (m : Matter)
      → x.matter_new code raw ≡ some m
      → (m.code ≡ code) × (m.raw ≡ raw)
  pub indexer :
      (code : String) (index : ℕ) (ondex : Option ℕ) (raw : Bytes) (i : Indexer)
      → x.indexer_new code index ondex raw ≡ some i
      → (i.index ≡ index) × (i.raw ≡ raw)
  pub public_size : (raw : Bytes) → length raw ≡ 32 → length (x.ed25519.public_key raw) ≡ 32
  pub signature_size :
      (raw message : Bytes) → length raw ≡ 32 → length (x.ed25519.sign raw message) ≡ 64
  pub ed25519 : Signs x.ed25519 (λ raw. length raw ≡ 32)
  pub secp256k1 : Signs x.secp256k1 (λ raw. x.secp256k1.private_parses raw ≡ true)
  pub secp256r1 : Signs x.secp256r1 (λ raw. x.secp256r1.private_parses raw ≡ true)

module _ (x : Extern) (sound : IsSound x) where
  Verfer-new_holds :
      (code : String) (raw : Bytes) (v : Verfer)
      → Verfer.new x code raw ≡ ok v
      → (v.matter.code ≡ code) × (v.matter.raw ≡ raw)
  unfolding Verfer.new
  Verfer-new_holds code raw v h = elim (Option-cases (x.matter_new code raw)) [
    | inl n ↦ absurd (ground arith)
    | inr (m, e) ↦ (let s = sound.matter code raw m e in ground arith)
  ]

  verify_ed25519_signed :
      (raw message : Bytes) (v : Verfer)
      → length raw ≡ 32
      → v.matter.raw ≡ x.ed25519.public_key raw
      → Verfer.verify_ed25519 x.ed25519 v.matter message (x.ed25519.sign raw message) ≡ ok true
  unfolding Verfer.verify_ed25519
  verify_ed25519_signed raw message v h e = ground (
    arith,
    sound.public_size raw h,
    sound.signature_size raw message h,
    sound.ed25519.key raw h,
    sound.ed25519.verifies raw message h,
  )

  verify_ecdsa_signed :
      (s : Scheme) (raw message : Bytes) (v : Verfer)
      → Signs s (λ k. s.private_parses k ≡ true)
      → s.private_parses raw ≡ true
      → v.matter.raw ≡ s.public_key raw
      → Verfer.verify_ecdsa s v.matter message (s.sign raw message) ≡ ok true
  unfolding Verfer.verify_ecdsa
  verify_ecdsa_signed s raw message v w h e =
      ground (arith, w.key raw h, w.signature raw message h, w.verifies raw message h)

  signed_ed25519 :
      (raw message sig : Bytes) (code : String) (v : Verfer)
      → Verfer.is_ed25519_code code ≡ true
      → (length raw ≡ 32) × (Verfer.new x code (x.ed25519.public_key raw) ≡ ok v)
      → sign_with x ed25519 raw message ≡ ok sig
      → Verfer.verify x v message sig ≡ ok true
  unfolding Verfer.verify sign_with
  signed_ed25519 raw message sig code v i (n, h) k =
      let (c, e) = Verfer-new_holds code (x.ed25519.public_key raw) v h in
      let s : x.ed25519.sign raw message ≡ sig = ground arith in
      rw (c, Verfer.verify)
        (rw (i) (
          subst (λ g. Verfer.verify_ed25519 x.ed25519 v.matter message g ≡ ok true) s
            (verify_ed25519_signed raw message v n e)))

  signed_secp256k1 :
      (raw message sig : Bytes) (code : String) (v : Verfer)
      → (Verfer.is_ed25519_code code ≡ false) × (Verfer.is_secp256k1_code code ≡ true)
      → (x.secp256k1.private_parses raw ≡ true)
        × (Verfer.new x code (x.secp256k1.public_key raw) ≡ ok v)
      → sign_with x secp256k1 raw message ≡ ok sig
      → Verfer.verify x v message sig ≡ ok true
  unfolding Verfer.verify sign_with
  signed_secp256k1 raw message sig code v i (n, h) k =
      let (c, e) = Verfer-new_holds code (x.secp256k1.public_key raw) v h in
      let s : x.secp256k1.sign raw message ≡ sig = ground arith in
      rw (c, Verfer.verify)
        (rw (i.0, i.1)
          (subst (λ g. Verfer.verify_ecdsa x.secp256k1 v.matter message g ≡ ok true) s
            (verify_ecdsa_signed x.secp256k1 raw message v sound.secp256k1 n e)))

  signed_secp256r1 :
      (raw message sig : Bytes) (code : String) (v : Verfer)
      → (Verfer.is_ed25519_code code ≡ false)
        × (Verfer.is_secp256k1_code code ≡ false)
        × (Verfer.is_secp256r1_code code ≡ true)
      → (x.secp256r1.private_parses raw ≡ true)
        × (Verfer.new x code (x.secp256r1.public_key raw) ≡ ok v)
      → sign_with x secp256r1 raw message ≡ ok sig
      → Verfer.verify x v message sig ≡ ok true
  unfolding Verfer.verify sign_with
  signed_secp256r1 raw message sig code v i (n, h) k =
      let (c, e) = Verfer-new_holds code (x.secp256r1.public_key raw) v h in
      let s : x.secp256r1.sign raw message ≡ sig = ground arith in
      rw (c, Verfer.verify)
        (rw (i.0, i.1, i.2)
          (subst (λ g. Verfer.verify_ecdsa x.secp256r1 v.matter message g ≡ ok true) s
            (verify_ecdsa_signed x.secp256r1 raw message v sound.secp256r1 n e)))

  -- A signature by a private key verifies under the key that is derived from it.
  verify-sign_with :
      (a : Algorithm) (raw message sig : Bytes) (transferable : Bool) (v : Verfer)
      → derive_key x a raw transferable ≡ ok v
      → sign_with x a raw message ≡ ok sig
      → Verfer.verify x v message sig ≡ ok true
  unfolding derive_key Verfer.is_ed25519_code Verfer.is_secp256k1_code Verfer.is_secp256r1_code
  verify-sign_with ed25519 raw message sig true v h k =
      signed_ed25519 raw message sig "D" v refl (ground arith) k
  verify-sign_with ed25519 raw message sig false v h k =
      signed_ed25519 raw message sig "B" v refl (ground arith) k
  verify-sign_with secp256k1 raw message sig true v h k =
      signed_secp256k1 raw message sig "1AAB" v (refl, refl) (ground arith) k
  verify-sign_with secp256k1 raw message sig false v h k =
      signed_secp256k1 raw message sig "1AAA" v (refl, refl) (ground arith) k
  verify-sign_with secp256r1 raw message sig true v h k =
      signed_secp256r1 raw message sig "1AAJ" v (refl, refl, refl) (ground arith) k
  verify-sign_with secp256r1 raw message sig false v h k =
      signed_secp256r1 raw message sig "1AAI" v (refl, refl, refl) (ground arith) k

  -- What a signer that could be made holds: the algorithm of its code and the key derived by it.
  pub record IsSigner (s : Signer) : Type 0 where
    pub family : Algorithm
    pub of_code : algorithm_from_code s.code ≡ ok family
    pub derived : derive_key x family s.raw s.transferable ≡ ok s.verfer

  pub new_with_transferable-IsSigner :
      (code : String) (raw : Bytes) (transferable : Bool) (s : Signer)
      → new_with_transferable x code raw transferable ≡ ok s
      → IsSigner s
  unfolding new_with_transferable derive_verfer
  new_with_transferable-IsSigner code raw transferable s h =
      let (v, e, r) = >>=-eq-ok (derive_verfer x code raw transferable) _ h in
      let (a, f, k) = >>=-eq-ok (algorithm_from_code code) _ e in
      record { family = a; of_code = ground arith; derived = ground arith }

  -- An unindexed signature of a signer that could be made verifies, under the key that it carries.
  pub verify-sign :
      (code : String) (raw message : Bytes) (transferable : Bool) (s : Signer) (c : Cigar)
      → new_with_transferable x code raw transferable ≡ ok s
      → sign x s message ≡ ok c
      → Cigar.verify x c message ≡ ok true
  unfolding sign algorithm Cigar.verify Cigar.new_with_verfer
  verify-sign code raw message transferable s c h k =
      let i = new_with_transferable-IsSigner code raw transferable s h in
      let (a, e, r) = >>=-eq-ok (algorithm_from_code s.code) _ k in
      let (sig, f, q) = >>=-eq-ok (sign_with x a s.raw message) _ r in
      let (m, g, w) = >>=-eq-ok (ok_or (x.matter_new (cigar_code a) sig) cesr) _ q in
      let held =
        sound.matter (cigar_code a) sig m (ok_or-eq-ok (x.matter_new (cigar_code a) sig) cesr g) in
      let same : i.family ≡ a = cc (i.of_code, e) in
      let carries : c ≡ record { matter = m; verfer = some s.verfer } = cc (w) in
      let v =
        verify-sign_with a s.raw message sig s.transferable s.verfer (rw same at (i.derived)) f in
      rw (carries, held.1) v

  -- The signature verifies under the key of the signer, which is the one that it carries.
  pub record SignedWith (s : Signer) (message : Bytes) (g : Siger) : Type 0 where
    pub carries : g.verfer ≡ some s.verfer
    pub verifies : Verfer.verify x s.verfer message g.indexer.raw ≡ ok true

  pub sign_indexed-SignedWith :
      (code : String) (raw message : Bytes) (transferable : Bool) (s : Signer) (index : ℕ)
      (only : Bool) (g : Siger)
      → new_with_transferable x code raw transferable ≡ ok s
      → sign_indexed x s message index only ≡ ok g
      → SignedWith s message g × (g.indexer.index ≡ index)
  unfolding sign_indexed algorithm Siger.new_with_verfer
  sign_indexed-SignedWith code raw message transferable s index only g h k =
      let i = new_with_transferable-IsSigner code raw transferable s h in
      let (a, e, r) = >>=-eq-ok (algorithm_from_code s.code) _ k in
      let (sig, f, q) = >>=-eq-ok (sign_with x a s.raw message) _ r in
      let (n, made, w) = >>=-eq-ok (ok_or (x.indexer_new _ index _ sig) cesr) _ q in
      let held =
        sound.indexer _ index _ sig n (ok_or-eq-ok (x.indexer_new _ index _ sig) cesr made) in
      let same : i.family ≡ a = cc (i.of_code, e) in
      let carries : g ≡ record { indexer = n; verfer = some s.verfer } = cc (w) in
      let v =
        verify-sign_with a s.raw message sig s.transferable s.verfer (rw same at (i.derived)) f in
      (record { carries = rw carries refl; verifies = rw (carries, held.1) v }, rw carries (held.0))

  -- An indexed signature of a signer that could be made has the index that was asked for and
  -- verifies, under the key that it carries, whatever the algorithm and the kind of code.
  pub verify-sign_indexed :
      (code : String) (raw message : Bytes) (transferable : Bool) (s : Signer) (index : ℕ)
      (only : Bool) (g : Siger)
      → new_with_transferable x code raw transferable ≡ ok s
      → sign_indexed x s message index only ≡ ok g
      → (Siger.verify x g message ≡ ok true) × (g.indexer.index ≡ index)
  unfolding Siger.verify
  verify-sign_indexed code raw message transferable s index only g h k =
      let (signed, at_index) =
        sign_indexed-SignedWith code raw message transferable s index only g h k in
      (rw (signed.carries, Siger.verify) (signed.verifies), at_index)
