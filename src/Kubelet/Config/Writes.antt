-- ===== src/Kubelet/Config/Writes.antt =====
-- What a successful update of a file writes, in `updateEtcKubeletConf` and `updateVarLibKubeletConfig`
-- of pkg/pki/conf/kubelet/exec.go.
use mathlib.Core.Path.{subst}
use kucero.Base.{
  ◌==◌, Text, ◌≡◌, ap, ◌∙◌, inl, inr, none, some, List, [], ◌∷◌, ◌++◌, text_eq, nat_eq, arith,
  Bool-cases, ℕ,
}
use kucero.Api.Error.{ok, Result-cases}
use kucero.Host.Run.{write_file, Host, done}
use kucero.Kubelet.Files.{KubeConfig, KubeletConfiguration}
use kucero.Kubelet.Kubeconfig.{update_etc, updated_config}
use kucero.Kubelet.ConfigYaml.{update_var_lib, edited}
use kucero.Kubelet.Config.{
  Kubelet, Tools, Action, etc_path, var_lib_path, etc_action, var_lib_action, action_of,
}

module _ {W : Type 0} (x : Tools W) (k : Kubelet) where
  -- The text of config.yaml after the edit.
  abbrev pub new_text : KubeletConfiguration → Text → Text
  new_text = edited k.enable_kubelet_client_cert_rotation k.enable_kubelet_server_cert_rotation

  -- A write to the file of a path that the table has, with success, from the one world to the
  -- other: kubelet.conf gets what it holds with its entries updated, config.yaml its text with the
  -- settings edited, in the mode that it has.
  pub data Writes : W → Text → W → Type 0 where
    of_kubeconfig :
        {w : W} {p : Text} (c : KubeConfig)
        → p ≡ etc_path
        → x.files.load_from_file p w ≡ ok c
        → (x.files.write_to_file (updated_config c) p w).error ≡ none
        → Writes w p (x.files.write_to_file (updated_config c) p w).world
    of_yaml :
        {w : W} {p : Text} (t : Text) (kc : KubeletConfiguration) (mode : ℕ)
        → p ≡ var_lib_path
        → x.files.read_file p w ≡ ok t
        → x.files.unmarshal t ≡ ok kc
        → x.files.stat p w ≡ ok mode
        → (x.files.write p (new_text kc t) mode w).error ≡ none
        → Writes w p (x.files.write p (new_text kc t) mode w).world

  -- The files of the paths are written so one after another.
  pub data AllWritten : W → List Text → W → Type 0 where
    nothing : {w : W} → AllWritten w [] w
    next :
        {w w₁ w' : W} {p : Text} {paths : List Text}
        → Writes w p w₁
        → AllWritten w₁ paths w'
        → AllWritten w (p ∷ paths) w'

  update_etc-Writes :
      (p : Text) (h h' : Host W)
      → p ≡ etc_path
      → update_etc x.files p p h ≡ (done none, h')
      → (h'.effects ≡ h.effects ++ (write_file p ∷ [])) × Writes h.world p h'.world
  unfolding update_etc
  update_etc-Writes p h h' is_etc q = elim (Result-cases (x.files.load_from_file p h.world)) [
    | inr (e, failed) ↦ absurd (ground arith)
    | inl (c, loaded) ↦
        let r = x.files.write_to_file (updated_config c) p h.world in
        let fine : r.error ≡ none = ground arith in
        let there : r.world ≡ h'.world = ground arith in
        (ground arith, subst (λ w. Writes h.world p w) there (of_kubeconfig c is_etc loaded fine))
  ]

  update_var_lib-Writes :
      (p : Text) (h h' : Host W)
      → p ≡ var_lib_path
      → update_var_lib k.enable_kubelet_client_cert_rotation k.enable_kubelet_server_cert_rotation
          x.files p p h
        ≡ (done none, h')
      → (h'.effects ≡ h.effects ++ (write_file p ∷ [])) × Writes h.world p h'.world
  unfolding update_var_lib
  update_var_lib-Writes p h h' is_yaml q = elim (Result-cases (x.files.read_file p h.world)) [
    | inr (e, failed) ↦ absurd (ground arith)
    | inl (t, there) ↦ elim (Result-cases (x.files.unmarshal t)) [
      | inr (e, failed) ↦ absurd (ground arith)
      | inl (kc, decoded) ↦ elim (Result-cases (x.files.stat p h.world)) [
        | inr (e, failed) ↦ absurd (ground arith)
        | inl (mode, known) ↦
            let r = x.files.write p (new_text kc t) mode h.world in
            let fine : r.error ≡ none = ground arith in
            let next_world : r.world ≡ h'.world = ground arith in
            (
              ground arith,
              subst (λ w. Writes h.world p w) next_world
                  (of_yaml t kc mode is_yaml there decoded known fine),
            )
      ]
    ]
  ]

  pub action-Writes :
      (p : Text) (a : Action W) (h h' : Host W)
      → action_of x p ≡ some a
      → a.update k p p h ≡ (done none, h')
      → (h'.effects ≡ h.effects ++ (write_file p ∷ [])) × Writes h.world p h'.world
  unfolding action_of
  action-Writes p a h h' known q = elim (Bool-cases (p == etc_path)) [
    | inl etc ↦
        let same : etc_action x ≡ a = ground arith in
        update_etc-Writes p h h' (ground arith) (ap (λ (b : Action W). b.update k p p h) same ∙ q)
    | inr not_etc ↦ elim (Bool-cases (p == var_lib_path)) [
      | inl var_lib ↦
          let same : var_lib_action x ≡ a = ground arith in
          update_var_lib-Writes p h h' (ground arith)
            (ap (λ (b : Action W). b.update k p p h) same ∙ q)
      | inr unknown ↦ absurd (ground arith)
    ]
  ]
