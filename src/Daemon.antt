-- ===== src/Daemon.antt =====
-- cmd/kucero: the daemon that runs on each node, with pkg/pki/node and pkg/pki/cert/null.
pub mod Node
pub mod Lock
pub mod Loop
pub mod Cluster
pub mod Start
