-- ===== src/Kubelet/Kubeconfig/Tests.antt =====
-- A file that holds the data of a client certificate, in a world that is the file.
use kucero.Base.{Text, ◌≡◌, refl, false, none, [], ◌∷◌, ◌++◌, bytes}
use kucero.Api.Error.{ok}
use kucero.Host.Run.{Host, done, write_file}
use kucero.Kubelet.Files.{KubeConfig, Files}
use kucero.Kubelet.Kubeconfig.{updated_config, check_etc, update_etc}
use kucero.Kubelet.Kubeconfig.Laws.{update_etc_settles}

abbrev with_data : KubeConfig
with_data = record {
  auth_infos =
      (
        bytes "node",
        record {
          client_certificate = [];
          client_certificate_data = bytes "pem";
          client_key = [];
          client_key_data = bytes "pem";
          others = [];
        },
      )
      ∷ [];
  others = [];
}

abbrev one_file : Files KubeConfig
one_file = record {
  load_from_file = λ p w. ok w;
  write_to_file = λ c p w. record { error = none; world = c };
  read_file = λ p w. ok [];
  unmarshal = λ s. ok (record { rotate_certificates = false; server_tls_bootstrap = false });
  stat = λ p w. ok 420;
  write = λ p s mode w. record { error = none; world = w };
}

abbrev before_update : Host KubeConfig
before_update = record { world = with_data; effects = [] }

abbrev conf : Text
conf = bytes "kubelet.conf"

update_etc_settles_example :
    (c : KubeConfig) × (one_file.load_from_file conf with_data ≡ ok c)
    × (one_file.load_from_file conf (updated_config with_data) ≡ ok (updated_config c))
    × (check_etc one_file conf
          (record { world = updated_config with_data; effects = write_file conf ∷ [] })
        ≡ (
          done (false, none),
          record { world = updated_config with_data; effects = write_file conf ∷ [] },
        ))
    × ((write_file conf ∷ []) ≡ [] ++ (write_file conf ∷ []))
unfolding update_etc
update_etc_settles_example =
    update_etc_settles one_file conf before_update
      (record { world = updated_config with_data; effects = write_file conf ∷ [] })
      (λ c w written. refl) refl
