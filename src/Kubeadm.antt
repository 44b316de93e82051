-- ===== src/Kubeadm.antt =====
-- pkg/pki/cert/kubeadm: the certificates that kubeadm issued.
pub mod Expiry
pub mod Table
pub mod Backup
pub mod Certificates
