-- ===== src/Authority.antt =====
-- pkg/pki/authority: the certificate authority and its signing policy.
pub mod Usages
pub mod Policy
pub mod Sign
