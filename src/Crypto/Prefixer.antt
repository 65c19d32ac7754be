-- ===== src/Crypto/Prefixer.antt =====
-- crates/affinidi-keri-crypto/src/prefixer.rs: identifier prefixes, basic and self-addressing.
use affinidi_keri_rs.Prelude.{String, Bool, ◌&&◌, nat_eq, string_eq, pair_eq}
use affinidi_keri_rs.Prelude.Result.{ok, ◌>>=◌, ok_or}
use affinidi_keri_rs.Prelude.Text.{codes}
use affinidi_keri_rs.Crypto.Extern.{Bytes, Matter, Extern, CryptoResult, cesr}
use affinidi_keri_rs.Crypto.Verfer.{Verfer}
use affinidi_keri_rs.Crypto.Diger
use affinidi_keri_rs.Crypto.Diger.{Diger, ct_eq}

pub record Prefixer : Type 0 where
  pub matter : Matter

module _ (x : Extern) where
  unfoldable pub new : String → Bytes → CryptoResult Prefixer
  new code raw = do matter ← ok_or (x.matter_new code raw) cesr; ok (record { matter = matter })

  unfoldable pub from_qb64 : String → CryptoResult Prefixer
  from_qb64 text = do matter ← ok_or (x.matter_from_qb64 text) cesr; ok (record { matter = matter })

  unfoldable pub new_basic : Verfer → CryptoResult Prefixer
  unfolding new
  new_basic v = new v.matter.code v.matter.raw

  unfoldable pub new_self_addressing : String → Bytes → CryptoResult Prefixer
  unfolding new
  new_self_addressing code ked = do diger ← Diger.from_data x code ked; new code diger.matter.raw

  unfoldable pub qb64 : Prefixer → CryptoResult String
  qb64 p = ok_or (x.matter_qb64 p.matter) cesr

  unfoldable pub verify_self_addressing : Prefixer → Bytes → CryptoResult Bool
  verify_self_addressing p ked = do
    diger ← Diger.from_data x p.matter.code ked
    ok (ct_eq diger.matter.raw p.matter.raw)

unfoldable pub verify_basic : Prefixer → Verfer → Bool
unfolding ct_eq
verify_basic p v =
    ct_eq (codes p.matter.code) (codes v.matter.code) && ct_eq p.matter.raw v.matter.raw
