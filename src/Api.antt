-- ===== src/Api.antt =====
-- The values that kucero exchanges with the Kubernetes API and with crypto/x509, and Go's
-- `time.Time` and `time.Duration` (pkg/pki/clock is over them). A record has the fields that the
-- program reads or writes.
pub mod Time
pub mod Error
pub mod Csr
pub mod X509
