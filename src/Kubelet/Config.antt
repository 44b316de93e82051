-- ===== src/Kubelet/Config.antt =====
-- `Kubelet` of pkg/pki/conf/kubelet/kubelet.go and the table `configs` of exec.go.
pub mod Writes
pub mod Update
pub mod Exact
pub mod Check
pub mod Ends
pub mod Disk
pub mod Settle
mod Tests
use kucero.Base.{
  String, Text, List, [], ◌∷◌, ◌++◌, Option, none, some, Bool, true, false, text_eq, bytes, lookup,
  if◌then◌else◌,
}
use kucero.Api.Error.{Error, about_text, noted, Result, ok, err}
use kucero.Host.Run.{Exec, done, pure, ◌>>=◌}
use kucero.Host.Commands.{Shell, restart_kubelet}
use kucero.Kubelet.Files.{Files}
use kucero.Kubelet.Kubeconfig.{check_etc, update_etc}
use kucero.Kubelet.ConfigYaml.{check_var_lib, update_var_lib}

pub record Kubelet : Type 0 where
  pub node_name : String
  pub enable_kubelet_client_cert_rotation : Bool
  pub enable_kubelet_server_cert_rotation : Bool

-- `New`.
abbrev pub new : String → Bool → Bool → Kubelet
new node_name enable_client enable_server = record {
  node_name = node_name;
  enable_kubelet_client_cert_rotation = enable_client;
  enable_kubelet_server_cert_rotation = enable_server;
}

pub record Action (W : Type 0) : Type 0 where
  pub check : Kubelet → Text → Exec W (Bool × Option Error)
  pub update : Kubelet → Text → Text → Exec W (Option Error)

abbrev pub etc_path : Text
etc_path = bytes "/etc/kubernetes/kubelet.conf"

abbrev pub var_lib_path : Text
var_lib_path = bytes "/var/lib/kubelet/config.yaml"

-- What the component takes from outside; `etc_first` tells in which of the two orders Go visits
-- the map of two entries.
pub record Tools (W : Type 0) : Type 0 where
  pub shell : Shell W
  pub files : Files W
  pub etc_first : W → Bool

module _ {W : Type 0} (x : Tools W) where
  abbrev pub etc_action : Action W
  etc_action = record {
    check = λ k filepath. check_etc x.files filepath;
    update = λ k old_filepath new_filepath. update_etc x.files old_filepath new_filepath;
  }

  abbrev pub var_lib_action : Action W
  var_lib_action = record {
    check = λ k filepath.
        check_var_lib k.enable_kubelet_client_cert_rotation k.enable_kubelet_server_cert_rotation
          x.files filepath;
    update = λ k old_filepath new_filepath.
        update_var_lib k.enable_kubelet_client_cert_rotation k.enable_kubelet_server_cert_rotation
          x.files old_filepath new_filepath;
  }

  abbrev pub configs : List (Text × Action W)
  configs = (etc_path, etc_action) ∷ (var_lib_path, var_lib_action) ∷ []

  abbrev pub visited : Bool → List (Text × Action W)
  visited true = configs
  visited false = (var_lib_path, var_lib_action) ∷ (etc_path, etc_action) ∷ []

  -- `configs[configToBeUpdate]`.
  unfoldable pub action_of : Text → Option (Action W)
  action_of path = lookup path configs

  module _ (k : Kubelet) where
    -- A check that fails reports nothing.
    abbrev pub with_checked : Text → List Text → Bool × Option Error → List Text
    with_checked filepath found (to_update, some e) = found
    with_checked filepath found (to_update, none) =
        if to_update then found ++ (filepath ∷ []) else found

    abbrev pub check_loop :
        List (Text × Action W) → List Text → Option Error → Exec W (List Text × Option Error)
    check_loop [] found errs = pure (found, errs)
    check_loop ((filepath, a) ∷ rest) found errs = do
      r ← a.check k filepath
      check_loop rest (with_checked filepath found r) (noted errs r.1)

    unfoldable pub check_config : Exec W (List Text × Option Error)
    check_config h = check_loop (visited (x.etc_first h.world)) [] none h

    -- A path that the table lacks ends `UpdateConfig` at once (`err`).
    unfoldable pub update_loop : List Text → Option Error → Exec W (Result (Option Error))
    update_loop [] errs = pure (ok errs)
    update_loop (path ∷ paths) errs = elim (action_of path) [
      | none ↦ pure (err (about_text "map key %s does not exist" path))
      | some a ↦ do e ← a.update k path path; update_loop paths (noted errs e)
    ]

    abbrev pub restart_after : Result (Option Error) → Exec W (Option Error)
    restart_after (err e) = pure (some e)
    restart_after (ok (some errs)) = pure (some errs)
    restart_after (ok none) = do e ← restart_kubelet x.shell; pure (noted none e)

    unfoldable pub update_config : List Text → Exec W (Option Error)
    update_config paths = do r ← update_loop paths none; restart_after r
