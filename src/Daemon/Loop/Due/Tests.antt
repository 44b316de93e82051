-- ===== src/Daemon/Loop/Due/Tests.antt =====
-- A control plane node with two certificates that are due, of which the first cannot be copied.
use kucero.Base.{
  Text, ◌≡◌, refl, true, false, Option, none, List, [], ◌∷◌, ◌++◌, bytes, text_eq, nat_eq, words_eq,
}
use mathlib.Core.List.Perm.{refl as Perm_refl}
use kucero.Api.Time.{minutes}
use kucero.Api.Error.{Error}
use kucero.Host.Run.{Effect, command, lock_acquired, Host, done}
use kucero.Kubelet.Kubeconfig.{check_etc}
use kucero.Kubelet.ConfigYaml.{check_var_lib}
use kucero.Kubelet.Config.{etc_path, var_lib_path, check_config}
use kucero.Kubeadm.Table.{is_space, parse_check_expiration}
use kucero.Kubeadm.Expiry.{expires_at}
use kucero.Kubeadm.Certificates.{certificate_path, trim_newline, version_command, check_command}
use kucero.Kubeadm.Certificates.Attempts.{Round}
use kucero.Daemon.Node.{NodeTools, new_node}
use kucero.Daemon.Lock.{NodeMeta}
use kucero.Daemon.Loop.{check_and_rotate}
use kucero.Daemon.Loop.Due.{tick_attempts}
use kucero.Samples.{kubelet_tools, faulty_tools, idle, free_drainer, open_lock}

abbrev faulty : NodeTools Unit
faulty = record { kubelet = kubelet_tools; kubeadm = faulty_tools }

abbrev fresh : NodeMeta
fresh = record { unschedulable = false }

abbrev api_path : Text
api_path = bytes "/etc/kubernetes/pki/apiserver.crt"

tick_attempts_example :
    (meta' : NodeMeta) × (h' : Host Unit) × (before k after : List Effect) × (v v' : Unit {0})
    × (o : Option Error) × (check_and_rotate
          (new_node faulty true "a" (minutes 10) true true)
          free_drainer
          open_lock
          fresh
          idle
        ≡ (done meta', h'))
    × (h'.effects
        ≡ []
          ++ (command version_command
              ∷ command (check_command true)
              ∷ lock_acquired
              ∷ (before ++ (k ++ after))))
    × Round faulty_tools v (bytes "apiserver") api_path k o v'
unfolding check_config check_etc check_var_lib nat_eq text_eq words_eq version_command check_command
    trim_newline certificate_path parse_check_expiration is_space expires_at
tick_attempts_example =
    tick_attempts free_drainer open_lock faulty (λ w fine. (true, refl)) "a" (minutes 10) true true
      (minutes 1) (λ w. refl) Perm_refl fresh idle idle (var_lib_path ∷ etc_path ∷ []) none
      (faulty_tools.shell.exec version_command tt) (faulty_tools.shell.exec (check_command true) tt)
      true (bytes "apiserver") api_path refl refl refl refl refl refl refl refl refl
