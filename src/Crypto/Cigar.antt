-- ===== src/Crypto/Cigar.antt =====
-- crates/affinidi-keri-crypto/src/cigar.rs: signatures without an index.
use affinidi_keri_rs.Prelude.{String, Bool, Option, none, some, nat_eq, string_eq, pair_eq}
use affinidi_keri_rs.Prelude.Result.{ok, ◌>>=◌, ok_or}
use affinidi_keri_rs.Crypto.Extern.{Bytes, Matter, Extern, CryptoResult, cesr, missing_verfer}
use affinidi_keri_rs.Crypto.Verfer
use affinidi_keri_rs.Crypto.Verfer.{Verfer}

pub record Cigar : Type 0 where
  pub matter : Matter
  pub verfer : Option Verfer

abbrev pub raw : Cigar → Bytes
raw c = c.matter.raw

module _ (x : Extern) where
  unfoldable pub new : String → Bytes → CryptoResult Cigar
  new code raw = do
    matter ← ok_or (x.matter_new code raw) cesr
    ok (record { matter = matter; verfer = none })

  unfoldable pub new_with_verfer : String → Bytes → Verfer → CryptoResult Cigar
  new_with_verfer code raw verfer = do
    matter ← ok_or (x.matter_new code raw) cesr
    ok (record { matter = matter; verfer = some verfer })

  unfoldable pub from_qb64 : String → CryptoResult Cigar
  from_qb64 text = do
    matter ← ok_or (x.matter_from_qb64 text) cesr
    ok (record { matter = matter; verfer = none })

  unfoldable pub qb64 : Cigar → CryptoResult String
  qb64 c = ok_or (x.matter_qb64 c.matter) cesr

  unfoldable pub verify : Cigar → Bytes → CryptoResult Bool
  verify c message = do
    verfer ← ok_or c.verfer missing_verfer
    Verfer.verify x verfer message c.matter.raw

unfoldable pub set_verfer : Cigar → Verfer → Cigar
set_verfer c v = record c { verfer = some v }
