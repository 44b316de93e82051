-- ===== src/Kubelet/ConfigYaml/Tests.antt =====
-- The text of a configuration file, edited, and one whose form the edit does not know.
use kucero.Base.{Text, ◌≡◌, refl, true, false, none, [], ◌∷◌, ◌++◌, bytes, text_eq, nat_eq}
use kucero.Api.Error.{ok}
use kucero.Host.Run.{Host, done, write_file}
use kucero.Kubeadm.Table.{contains_text}
use kucero.Kubelet.Files.{KubeletConfiguration, Files}
use kucero.Kubelet.ConfigYaml.{set_key, rotate_key, check_var_lib, update_var_lib}
use kucero.Kubelet.ConfigYaml.Laws.{KeySet, set_key-KeySet, update_var_lib_stale}

replaces_one :
    set_key rotate_key false true
      (bytes "a: 1\nrotateCertificates: false\nrotateCertificates: false\n")
    ≡ bytes "a: 1\nrotateCertificates: true\nrotateCertificates: false\n"
unfolding set_key contains_text nat_eq
replaces_one = refl

adds_a_line :
    set_key rotate_key false true (bytes "a: 1\n") ≡ bytes "a: 1\nrotateCertificates: true\n"
unfolding set_key contains_text nat_eq
adds_a_line = refl

set_key-KeySet_example :
    KeySet rotate_key false true (bytes "a: 1\n") (set_key rotate_key false true (bytes "a: 1\n"))
set_key-KeySet_example = set_key-KeySet rotate_key false true (bytes "a: 1\n")

abbrev two_spaces : Text
two_spaces = bytes "rotateCertificates:  false\n"

abbrev decoded : KubeletConfiguration
decoded = record { rotate_certificates = false; server_tls_bootstrap = true }

abbrev disk : Files Text
disk = record {
  load_from_file = λ p w. ok (record { auth_infos = []; others = [] });
  write_to_file = λ c p w. record { error = none; world = w };
  read_file = λ p w. ok w;
  unmarshal = λ s. ok decoded;
  stat = λ p w. ok 420;
  write = λ p s mode w. record { error = none; world = s };
}

abbrev yaml : Text
yaml = bytes "config.yaml"

abbrev before_update : Host Text
before_update = record { world = two_spaces; effects = [] }

update_var_lib_stale_example :
    (h' : Host Text) × (update_var_lib true true disk yaml yaml before_update ≡ (done none, h'))
    × (h'.effects ≡ [] ++ (write_file yaml ∷ []))
    × (disk.read_file yaml h'.world ≡ ok two_spaces)
    × (check_var_lib true true disk yaml h' ≡ (done (true, none), h'))
unfolding contains_text nat_eq
update_var_lib_stale_example =
    update_var_lib_stale disk true yaml two_spaces decoded 420 before_update refl refl refl refl
      refl refl refl refl refl
