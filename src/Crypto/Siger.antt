-- ===== src/Crypto/Siger.antt =====
-- crates/affinidi-keri-crypto/src/siger.rs: indexed signatures.
use affinidi_keri_rs.Prelude.{ℕ, String, Bool, Option, none, some}
use affinidi_keri_rs.Prelude.Result.{ok, ok_or, ◌>>=◌}
use affinidi_keri_rs.Crypto.Extern.{Bytes, Indexer, Extern, CryptoResult, cesr, missing_verfer}
use affinidi_keri_rs.Crypto.Verfer.{Verfer}
use affinidi_keri_rs.Crypto.Verfer

pub record Siger : Type 0 where
  pub indexer : Indexer
  pub verfer : Option Verfer

abbrev pub index : Siger → ℕ
index s = s.indexer.index

abbrev pub raw : Siger → Bytes
raw s = s.indexer.raw

module _ (x : Extern) where
  unfoldable pub new : String → ℕ → Option ℕ → Bytes → CryptoResult Siger
  new code index ondex raw = do
    indexer ← ok_or (x.indexer_new code index ondex raw) cesr
    ok (record { indexer = indexer; verfer = none })

  unfoldable pub new_with_verfer : String → ℕ → Option ℕ → Bytes → Verfer → CryptoResult Siger
  new_with_verfer code index ondex raw verfer = do
    indexer ← ok_or (x.indexer_new code index ondex raw) cesr
    ok (record { indexer = indexer; verfer = some verfer })

  unfoldable pub from_qb64 : String → CryptoResult Siger
  from_qb64 text = do
    indexer ← ok_or (x.indexer_from_qb64 text) cesr
    ok (record { indexer = indexer; verfer = none })

  unfoldable pub qb64 : Siger → CryptoResult String
  qb64 s = ok_or (x.indexer_qb64 s.indexer) cesr

  unfoldable pub verify : Siger → Bytes → CryptoResult Bool
  verify s message = do
    verfer ← ok_or s.verfer missing_verfer
    Verfer.verify x verfer message s.indexer.raw

unfoldable pub set_verfer : Siger → Verfer → Siger
set_verfer s v = record s { verfer = some v }
