-- ===== src/Crypto/Salter.antt =====
-- crates/affinidi-keri-crypto/src/salter.rs: signing keys derived from a salt.
use affinidi_keri_rs.Prelude.{
  ℕ, String, Bool, ◌||◌, if◌then◌else◌, ◌==◌, nat_eq, string_eq, pair_eq,
}
use affinidi_keri_rs.Prelude.Result.{ok, err, ◌>>=◌, ◌>>◌, guard, ok_or}
use affinidi_keri_rs.Prelude.Text.{codes}
use affinidi_keri_rs.Crypto.Extern.{
  Bytes, Matter, Extern, CryptoResult, cesr, key_derivation, unsupported_algorithm,
}
use affinidi_keri_rs.Crypto.Signer
use affinidi_keri_rs.Crypto.Signer.{Signer}

pub record Salter : Type 0 where
  pub matter : Matter

abbrev salt_code : String
salt_code = "0A"

pub record Costs : Type 0 where
  pub m_cost : ℕ
  pub t_cost : ℕ
  pub p_cost : ℕ

unfoldable pub costs : String → CryptoResult Costs
costs tier =
    if tier == "low"
    then ok (record { m_cost = 65536; t_cost = 2; p_cost = 1 })
    else if tier == "med"
    then ok (record { m_cost = 262144; t_cost = 3; p_cost = 1 })
    else if tier == "high"
    then ok (record { m_cost = 1048576; t_cost = 4; p_cost = 1 })
    else err key_derivation

unfoldable pub key_size_for_code : String → CryptoResult ℕ
key_size_for_code code =
    if code == "A"
    then ok 32
    else if code == "1AAA" || code == "1AAB"
    then ok 32
    else if code == "1AAI" || code == "1AAJ"
    then ok 32
    else err unsupported_algorithm

module _ (x : Extern) where
  unfoldable pub new : String → Bytes → CryptoResult Salter
  new code raw = do matter ← ok_or (x.matter_new code raw) cesr; ok (record { matter = matter })

  -- The 16 random bytes are an argument.
  unfoldable pub new_random : Bytes → CryptoResult Salter
  unfolding new
  new_random random = new salt_code random

  unfoldable pub from_qb64 : String → CryptoResult Salter
  from_qb64 text = do matter ← ok_or (x.matter_from_qb64 text) cesr; ok (record { matter = matter })

  unfoldable pub qb64 : Salter → CryptoResult String
  qb64 s = ok_or (x.matter_qb64 s.matter) cesr

  unfoldable pub tier_params : String → ℕ → CryptoResult Costs
  unfolding costs
  tier_params tier output_len = do
    c ← costs tier
    guard (x.argon2_params c.m_cost c.t_cost c.p_cost output_len) key_derivation
    ok c

  -- The path is the password.
  unfoldable pub stretch : Salter → String → String → ℕ → CryptoResult Bytes
  unfolding tier_params
  stretch s path tier output_len = do
    c ← tier_params tier output_len
    ok_or (x.argon2 c.m_cost c.t_cost c.p_cost output_len (codes path) s.matter.raw) key_derivation

  unfoldable pub signer : Salter → String → String → String → Bool → CryptoResult Signer
  unfolding key_size_for_code stretch
  signer s code path tier transferable = do
    key_size ← key_size_for_code code
    seed ← stretch s path tier key_size
    Signer.new_with_transferable x code seed transferable
