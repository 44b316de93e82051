-- ===== src/Kubelet/ConfigYaml.antt =====
-- `checkVarLibKubeletConfigYaml` and `updateVarLibKubeletConfigYaml` of
-- pkg/pki/conf/kubelet/exec.go. The file's text is edited, not printed again.
pub mod Laws
mod Tests
use kucero.Base.{
  Text, Bool, true, false, not, Option, none, some, List, [], ◌∷◌, ◌++◌, ◌==◌, ◌||◌, bytes,
  if◌then◌else◌, ℕ,
}
use kucero.Api.Error.{Error, Result, ok, err}
use kucero.Host.Run.{Exec, done, pure}
use kucero.Kubeadm.Table.{has_prefix, contains_text}
use kucero.Kubelet.Files.{KubeletConfiguration, Written, Files, ended_write}

-- The text after a prefix of it.
unfoldable pub after_prefix : Text → Text → Text
after_prefix s [] = s
after_prefix [] (p ∷ ps) = []
after_prefix (c ∷ cs) (p ∷ ps) = after_prefix cs ps

-- `bytes.Replace(s, old, new, 1)` for an `old` that is not empty.
unfoldable pub replace_first : Text → Text → Text → Text
unfolding after_prefix
replace_first [] old new = []
replace_first (c ∷ cs) old new =
    let rest = replace_first cs old new in
    if has_prefix (c ∷ cs) old then new ++ after_prefix (c ∷ cs) old else c ∷ rest

-- `%t`.
abbrev pub printed : Bool → Text
printed true = bytes "true"
printed false = bytes "false"

abbrev pub setting : Text → Bool → Text
setting key b = key ++ (bytes ": " ++ printed b)

abbrev pub differ : Bool → Bool → Bool
differ true b = not b
differ false b = b

-- The text with the key set, where the value that was decoded is `old`.
unfoldable pub set_key : Text → Bool → Bool → Text → Text
unfolding replace_first
set_key key old new s =
    if contains_text s (key ++ bytes ":")
    then replace_first s (setting key old) (setting key new)
    else s ++ (setting key new ++ bytes "\n")

abbrev pub rotate_key : Text
rotate_key = bytes "rotateCertificates"

abbrev pub bootstrap_key : Text
bootstrap_key = bytes "serverTLSBootstrap"

module _ (enable_client enable_server : Bool) where
  unfoldable pub edited : KubeletConfiguration → Text → Text
  edited kc s =
      let s' =
        if differ kc.rotate_certificates enable_client
        then set_key rotate_key kc.rotate_certificates enable_client s
        else s in
      if differ kc.server_tls_bootstrap enable_server
      then set_key bootstrap_key kc.server_tls_bootstrap enable_server s'
      else s'

  module _ {W : Type 0} (x : Files W) where
    abbrev pub mismatch : Result KubeletConfiguration → Bool × Option Error
    mismatch (err e) = (false, some e)
    mismatch (ok kc) =
        if differ kc.rotate_certificates enable_client
        then (true, none)
        else if differ kc.server_tls_bootstrap enable_server
        then (true, none)
        else (false, none)

    abbrev pub check_text : Result Text → Bool × Option Error
    check_text (err e) = (false, some e)
    check_text (ok s) = mismatch (x.unmarshal s)

    unfoldable pub check_var_lib : Text → Exec W (Bool × Option Error)
    check_var_lib filepath h = (done (check_text (x.read_file filepath h.world)), h)

    abbrev pub write_with_mode : Text → Text → Result ℕ → Exec W (Option Error)
    write_with_mode new_filepath s (err e) = pure (some e)
    write_with_mode new_filepath s (ok mode) =
        λ h. ended_write new_filepath (x.write new_filepath s mode h.world) h

    abbrev pub update_decoded :
        Text → Text → Text → Result KubeletConfiguration → Exec W (Option Error)
    update_decoded old_filepath new_filepath s (err e) = pure (some e)
    update_decoded old_filepath new_filepath s (ok kc) =
        λ h. write_with_mode new_filepath (edited kc s) (x.stat old_filepath h.world) h

    abbrev pub update_text : Text → Text → Result Text → Exec W (Option Error)
    update_text old_filepath new_filepath (err e) = pure (some e)
    update_text old_filepath new_filepath (ok s) =
        update_decoded old_filepath new_filepath s (x.unmarshal s)

    unfoldable pub update_var_lib : Text → Text → Exec W (Option Error)
    update_var_lib old_filepath new_filepath h =
        update_text old_filepath new_filepath (x.read_file old_filepath h.world) h
