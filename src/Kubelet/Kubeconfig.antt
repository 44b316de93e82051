-- ===== src/Kubelet/Kubeconfig.antt =====
-- `checkEtcKubernetesKubeletConf` and `updateEtcKubernetesKubeletConf` of
-- pkg/pki/conf/kubelet/exec.go. The entries of `AuthInfos` are visited independently of each other,
-- so that the order of the visit does not show.
pub mod Laws
mod Tests
use kucero.Base.{
  Text, Bool, true, false, Option, none, some, List, [], ◌∷◌, ◌||◌, ltb, length, any, map, bytes,
  if◌then◌else◌,
}
use kucero.Api.Error.{Error, about_text, Result, ok, err}
use kucero.Host.Run.{Exec, done, pure}
use kucero.Kubelet.Files.{AuthInfo, KubeConfig, Written, Files, ended_write}

abbrev pub current_pem : Text
current_pem = bytes "/var/lib/kubelet/pki/kubelet-client-current.pem"

unfoldable pub has_data : AuthInfo → Bool
has_data a = ltb 0 (length a.client_key_data) || ltb 0 (length a.client_certificate_data)

unfoldable pub updated : AuthInfo → AuthInfo
unfolding has_data
updated a =
    if has_data a
    then record a {
      client_key_data = [];
      client_certificate_data = [];
      client_key = current_pem;
      client_certificate = current_pem;
    }
    else a

unfoldable pub updated_config : KubeConfig → KubeConfig
unfolding updated
updated_config c = record c { auth_infos = map (λ e. (e.0, updated e.1)) c.auth_infos }

module _ {W : Type 0} (x : Files W) where
  abbrev pub needs_update : Result KubeConfig → Bool × Option Error
  needs_update (err e) = (false, some e)
  needs_update (ok c) = (any (λ e. has_data e.1) c.auth_infos, none)

  unfoldable pub check_etc : Text → Exec W (Bool × Option Error)
  unfolding has_data
  check_etc filepath h = (done (needs_update (x.load_from_file filepath h.world)), h)

  -- The error of a failed write names the file and drops the cause.
  abbrev pub serialized : Text → Option Error → Option Error
  serialized filepath none = none
  serialized filepath (some e) = some (about_text "failed to serialize %q" filepath)

  abbrev pub write_updated : Text → Result KubeConfig → Exec W (Option Error)
  write_updated new_filepath (err e) = pure (some e)
  write_updated new_filepath (ok c) = λ h.
      let r = x.write_to_file (updated_config c) new_filepath h.world in
      ended_write new_filepath (record r { error = serialized new_filepath r.error }) h

  unfoldable pub update_etc : Text → Text → Exec W (Option Error)
  unfolding updated_config
  update_etc old_filepath new_filepath h =
      write_updated new_filepath (x.load_from_file old_filepath h.world) h
