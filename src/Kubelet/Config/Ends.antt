-- ===== src/Kubelet/Config/Ends.antt =====
-- How the operations of `Kubelet` in pkg/pki/conf/kubelet end.
use mathlib.Core.Path.{subst}
use kucero.Base.{
  ℕ, Text, ◌≡◌, refl, inl, inr, Bool, Option, none, some, List, [], ◌∷◌, ◌==◌, text_eq, arith,
  Option-cases, Bool-cases,
}
use kucero.Api.Error.{Error, noted, about_text, Result, ok, err}
use kucero.Host.Commands.{restart_kubelet, restart_command}
use kucero.Kubelet.Files.{Files, KubeConfig, KubeletConfiguration}
use kucero.Kubelet.Kubeconfig.{write_updated, update_etc}
use kucero.Kubelet.ConfigYaml.{edited, write_with_mode, update_decoded, update_text, update_var_lib}
use kucero.Kubelet.Config.{
  Kubelet, Tools, Action, etc_path, var_lib_path, etc_action, var_lib_action, action_of,
  check_config, update_loop, restart_after, update_config,
}
use kucero.Kubelet.Config.Check.{check_config_lem}
use kucero.Host.Ends.{Ends, pure-Ends, bind-Ends, run-Ends}

module _ {W : Type 0} (x : Files W) where
  write_updated-Ends : (p : Text) (r : Result KubeConfig) → Ends (write_updated x p r)
  write_updated-Ends p (err e) = pure-Ends (some e)
  write_updated-Ends p (ok c) = record { ends = λ h. (_, _, refl) }

  update_etc-Ends : (p : Text) → Ends (update_etc x p p)
  unfolding update_etc
  update_etc-Ends p = record {
    ends = λ h. (write_updated-Ends p (x.load_from_file p h.world)).ends h;
  }

  module _ (c s : Bool) (p : Text) where
    write_with_mode-Ends : (t : Text) (r : Result ℕ) → Ends (write_with_mode c s x p t r)
    write_with_mode-Ends t (err e) = pure-Ends (some e)
    write_with_mode-Ends t (ok mode) = record { ends = λ h. (_, _, refl) }

    update_decoded-Ends :
        (t : Text) (r : Result KubeletConfiguration) → Ends (update_decoded c s x p p t r)
    update_decoded-Ends t (err e) = pure-Ends (some e)
    update_decoded-Ends t (ok kc) = record {
      ends = λ h. (write_with_mode-Ends (edited c s kc t) (x.stat p h.world)).ends h;
    }

    update_text-Ends : (r : Result Text) → Ends (update_text c s x p p r)
    update_text-Ends (err e) = pure-Ends (some e)
    update_text-Ends (ok t) = update_decoded-Ends t (x.unmarshal t)

    update_var_lib-Ends : Ends (update_var_lib c s x p p)
    unfolding update_var_lib
    update_var_lib-Ends = record { ends = λ h. (update_text-Ends (x.read_file p h.world)).ends h }

module _ {W : Type 0} (x : Tools W) (k : Kubelet) where
  pub action-Ends : (p : Text) (a : Action W) → action_of x p ≡ some a → Ends (a.update k p p)
  unfolding action_of
  action-Ends p a known = elim (Bool-cases (p == etc_path)) [
    | inl etc ↦
        let same : etc_action x ≡ a = ground arith in
        subst (λ (b : Action W). Ends (b.update k p p)) same (update_etc-Ends x.files p)
    | inr not_etc ↦ elim (Bool-cases (p == var_lib_path)) [
      | inl var_lib ↦
          let same : var_lib_action x ≡ a = ground arith in
          subst (λ (b : Action W). Ends (b.update k p p)) same
            (update_var_lib-Ends x.files k.enable_kubelet_client_cert_rotation
              k.enable_kubelet_server_cert_rotation p)
      | inr unknown ↦ absurd (ground arith)
    ]
  ]

  update_loop-Ends : (paths : List Text) (errs : Option Error) → Ends (update_loop x k paths errs)
  unfolding update_loop
  update_loop-Ends [] errs = pure-Ends (ok errs)
  update_loop-Ends (p ∷ paths) errs = elim (Option-cases (action_of x p)) [
    | inl unknown ↦
        rw (unknown, update_loop) (pure-Ends (err (about_text "map key %s does not exist" p)))
    | inr (a, known) ↦
        rw (known, update_loop)
          (bind-Ends (action-Ends p a known) (λ e. update_loop-Ends paths (noted errs e)))
  ]

  restart_after-Ends : (r : Result (Option Error)) → Ends (restart_after x k r)
  unfolding restart_kubelet
  restart_after-Ends (err e) = pure-Ends (some e)
  restart_after-Ends (ok (some e)) = pure-Ends (some e)
  restart_after-Ends (ok none) =
      bind-Ends (run-Ends x.shell restart_command) (λ e. pure-Ends (noted none e))

  pub update_config-Ends : (paths : List Text) → Ends (update_config x k paths)
  unfolding update_config
  update_config-Ends paths = bind-Ends (update_loop-Ends paths none) restart_after-Ends

  pub check_config-Ends : Ends (check_config x k)
  check_config-Ends = record {
    ends = λ h. let (names, errs, ran, _, _, _) = check_config_lem x k h in ((names, errs), h, ran);
  }
