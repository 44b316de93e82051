-- ===== src/Cert.antt =====
-- pkg/pki/cert: `ParseCSR` of parser.go.
pub mod Parser
