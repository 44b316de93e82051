-- ===== src/Kubelet/Config/Tests.antt =====
-- A node whose two files need an update.
use kucero.Base.{
  Text, ◌≡◌, refl, ◌↔◌, true, Option, none, List, [], ◌∷◌, ◌++◌, map, contains, text_eq, nat_eq,
}
use kucero.Api.Error.{Error}
use kucero.Host.Run.{Host, done, command, write_file}
use kucero.Host.Commands.{restart_command, restart_kubelet}
use kucero.Kubelet.Kubeconfig.{update_etc}
use kucero.Kubelet.ConfigYaml.{update_var_lib}
use kucero.Kubelet.Config.{
  Kubelet, new, etc_path, var_lib_path, action_of, check_config, update_loop, update_config,
}
use kucero.Kubelet.Config.Writes.{AllWritten}
use kucero.Kubelet.Config.Exact.{update_config_iff}
use kucero.Kubelet.Config.Check.{etc_check, var_lib_check, check_config_lem}
use kucero.Samples.{kubelet_tools, idle}

abbrev k : Kubelet
k = new "node-a" true true

abbrev both_paths : List Text
both_paths = etc_path ∷ var_lib_path ∷ []

abbrev restarted : Host Unit
restarted = record {
  world = tt;
  effects = write_file etc_path ∷ write_file var_lib_path ∷ command restart_command ∷ [];
}

update_config_iff_example :
    (update_config kubelet_tools k both_paths idle ≡ (done none, restarted)) ↔ (
      (w : Unit) × AllWritten kubelet_tools k tt both_paths w
      × (restarted.effects ≡ [] ++ (map write_file both_paths ++ (command restart_command ∷ [])))
      × ((kubelet_tools.shell.exec restart_command w).error ≡ none)
      × (tt ≡ (kubelet_tools.shell.exec restart_command w).world))
update_config_iff_example = update_config_iff kubelet_tools k both_paths idle restarted

updates_both : update_config kubelet_tools k both_paths idle ≡ (done none, restarted)
unfolding update_config update_loop action_of text_eq nat_eq update_etc update_var_lib
    restart_kubelet
updates_both = refl

check_config_lem_example :
    (names : List Text) × (errs : Option Error) × (check_config kubelet_tools k idle
      ≡ (done (names, errs), idle))
    × (contains names etc_path ≡ (etc_check kubelet_tools k idle).0)
    × (contains names var_lib_path ≡ (var_lib_check kubelet_tools k idle).0)
    × ((errs ≡ none) ↔ (
        ((etc_check kubelet_tools k idle).1 ≡ none)
        × ((var_lib_check kubelet_tools k idle).1 ≡ none)))
check_config_lem_example = check_config_lem kubelet_tools k idle
