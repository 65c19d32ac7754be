-- ===== src/Crypto.antt =====
-- affinidi-keri-crypto: the wrappers of CESR primitives, over the crates that they call.
pub mod Extern
pub mod Verfer
pub mod Diger
pub mod Siger
pub mod Cigar
pub mod Signer
pub mod Salter
pub mod Prefixer
