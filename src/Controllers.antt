-- ===== src/Controllers.antt =====
-- controllers: the reconciler of certificate signing requests.
pub mod Helper
pub mod Types
pub mod Reconcile
pub mod Sequence
pub mod Server
