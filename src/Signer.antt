-- ===== src/Signer.antt =====
-- pkg/pki/signer: the signer with the keys of the local disk.
pub mod CaProvider
pub mod Sign
