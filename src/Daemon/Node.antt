-- ===== src/Daemon/Node.antt =====
-- `Node` of pkg/pki/node/node.go, with the interfaces of pkg/pki/conf/conf.go and
-- pkg/pki/cert/certificate.go that it joins, and `Null` of pkg/pki/cert/null/null.go.
use kucero.Base.{String, Text, List, [], Option, none, Bool, if◌then◌else◌}
use kucero.Api.Time.{Duration}
use kucero.Api.Error.{Error}
use kucero.Host.Run.{Exec, pure}
use kucero.Kubelet.Config.{Tools as KubeletTools, new as new_kubelet, check_config, update_config}
use kucero.Kubeadm.Certificates.{Tools as KubeadmTools, check_expiration, rotate}

pub record Config (W : Type 0) : Type 0 where
  pub check_config : Exec W (List Text × Option Error)
  pub update_config : List Text → Exec W (Option Error)

pub record Certificate (W : Type 0) : Type 0 where
  pub check_expiration : Exec W (List Text × Option Error)
  pub rotate : List Text → Exec W (Option Error)

pub record Node (W : Type 0) : Type 0 where
  pub config : Config W
  pub certificate : Certificate W

-- `null.New`: nothing expires and nothing is rotated.
abbrev pub null : {W : Type 0} → Certificate W
null = record { check_expiration = pure ([], none); rotate = λ expiry_certificates. pure none }

-- What the components of a node take from outside.
pub record NodeTools (W : Type 0) : Type 0 where
  pub kubelet : KubeletTools W
  pub kubeadm : KubeadmTools W

module _ {W : Type 0} (x : NodeTools W) where
  -- `kubelet.New`, as a `Config`.
  abbrev pub kubelet_config : String → Bool → Bool → Config W
  kubelet_config name enable_client enable_server = record {
    check_config = check_config x.kubelet (new_kubelet name enable_client enable_server);
    update_config = update_config x.kubelet (new_kubelet name enable_client enable_server);
  }

  -- `kubeadm.New`, as a `Certificate`.
  abbrev pub kubeadm_certificate : Duration → Certificate W
  kubeadm_certificate expiry_time_to_rotate = record {
    check_expiration = check_expiration x.kubeadm expiry_time_to_rotate;
    rotate = rotate x.kubeadm;
  }

  -- `New`.
  unfoldable pub new_node : Bool → String → Duration → Bool → Bool → Node W
  new_node is_control_plane name expiry_time_to_rotate enable_client enable_server =
      if is_control_plane
      then record {
        config = kubelet_config name enable_client enable_server;
        certificate = kubeadm_certificate expiry_time_to_rotate;
      }
      else record { config = kubelet_config name enable_client enable_server; certificate = null }
