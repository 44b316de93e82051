-- ===== src/Kubelet/Files.antt =====
-- What pkg/pki/conf/kubelet takes from outside: the files, `clientcmd` and the YAML decoder.
use kucero.Base.{ℕ, Text, List, Bool, Option}
use kucero.Api.Error.{Error, Result}
use kucero.Host.Run.{Exec, done, emit, write_file}

-- The fields of `clientcmdapi.AuthInfo` that the program reads or sets; `others` stands for the
-- fields that it leaves alone.
pub record AuthInfo : Type 0 where
  pub client_certificate : Text
  pub client_certificate_data : Text
  pub client_key : Text
  pub client_key_data : Text
  pub others : Text

pub record KubeConfig : Type 0 where
  pub auth_infos : List (Text × AuthInfo)
  pub others : Text

pub record KubeletConfiguration : Type 0 where
  pub rotate_certificates : Bool
  pub server_tls_bootstrap : Bool

-- What a write leaves.
pub record Written (W : Type 0) : Type 0 where
  pub error : Option Error
  pub world : W

pub record Files (W : Type 0) : Type 0 where
  pub load_from_file : Text → W → Result KubeConfig
  pub write_to_file : KubeConfig → Text → W → Written W
  pub read_file : Text → W → Result Text
  pub unmarshal : Text → Result KubeletConfiguration
  pub stat : Text → W → Result ℕ
  pub write : Text → Text → ℕ → W → Written W

module _ {W : Type 0} where
  -- The end of a write to the file of a path.
  abbrev pub ended_write : Text → Written W → Exec W (Option Error)
  ended_write path r h = (done r.error, emit (write_file path) (record h { world = r.world }))
