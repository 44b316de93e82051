-- ===== src/Host.antt =====
-- pkg/host: what the daemon does to the machine and to its node object.
-- An operation takes the state of the host and returns how it ended and the state after it; the
-- effects are recorded, oldest first. The machine, the API server and the lock answer as functions
-- of an unknown world of type `W`.
pub mod Run
pub mod Commands
pub mod Kubectl
pub mod Ends
