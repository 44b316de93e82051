-- ===== src/Kubelet.antt =====
-- pkg/pki/conf/kubelet: the two files of the kubelet's configuration.
pub mod Files
pub mod Kubeconfig
pub mod ConfigYaml
pub mod Config
