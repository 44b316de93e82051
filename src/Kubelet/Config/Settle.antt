-- ===== src/Kubelet/Config/Settle.antt =====
-- The files of the kubelet after `UpdateConfig` of pkg/pki/conf/kubelet/kubelet.go, on a disk.
use kucero.Base.{
  String, Text, ◌≡◌, ◌∙◌, sym, ap, ◌⊎◌, inl, inr, Bool, true, false, Option, none, some, List, [],
  ◌∷◌, arith, Bool-cases, Option-cases, text_eq, ◌==◌, contains,
}
use mathlib.Core.Path.{subst}
use kucero.Api.Error.{Error, wrap, Result, ok, err}
use kucero.Host.Run.{Host, done, after-done}
use kucero.Host.Commands.{restart_kubelet, restart_command, run}
use kucero.Kubelet.Kubeconfig.{update_etc}
use kucero.Kubelet.ConfigYaml.{update_var_lib}
use kucero.Kubelet.Config.Check.{check_config_lem, etc_check, var_lib_check}
use kucero.Kubelet.Config.Update.{rounds, loop_known, loop_unknown, update_loop-some}
use kucero.Kubelet.Config.Disk.{
  IsDisk, IsEtcClean, IsVarLibClean, IsEditable, Steps, kept-IsEditable, kept-IsEtcClean,
  kept-IsVarLibClean, etc-Steps, var_lib-Steps,
}
use kucero.Kubelet.Config.{
  restart_after, check_config, new, etc_action, var_lib_action, Kubelet, Tools, Action, etc_path,
  var_lib_path, action_of, update_loop, update_config,
}

answer_no : (r : Bool × Option Error) → r.0 ≡ false → r.1 ≡ none → r ≡ (false, none)
answer_no (b, o) p q = cc

module _ {W : Type 0} (x : Tools W) (c s : Bool) (disk : IsDisk x c s) (name : String) where
  abbrev k : Kubelet
  k = new name c s

  action-Steps :
      (p : Text) (a : Action W) (h h' : Host W)
      → action_of x p ≡ some a
      → IsEditable x c s h.world
      → a.update k p p h ≡ (done none, h')
      → Steps x c s disk p h.world h'.world
  unfolding action_of
  action-Steps p a h h' known editable ran = elim (Bool-cases (p == etc_path)) [
    | inl etc ↦
        let same : etc_action x ≡ a = ground arith in
        let here : p ≡ etc_path = ground arith in
        subst (λ (q : Text). Steps x c s disk q h.world h'.world) (sym here)
          (etc-Steps x c s disk h h' editable (
            subst (λ (q : Text). update_etc x.files q q h ≡ (done none, h')) here
              (ap (λ (b : Action W). b.update k p p h) same ∙ ran)))
    | inr not_etc ↦ elim (Bool-cases (p == var_lib_path)) [
      | inl var_lib ↦
          let same : var_lib_action x ≡ a = ground arith in
          let here : p ≡ var_lib_path = ground arith in
          subst (λ (q : Text). Steps x c s disk q h.world h'.world) (sym here)
            (var_lib-Steps x c s disk h h' editable (
              subst (λ (q : Text). update_var_lib c s x.files q q h ≡ (done none, h')) here
                (ap (λ (b : Action W). b.update k p p h) same ∙ ran)))
      | inr unknown ↦ absurd (ground arith)
    ]
  ]

  -- What a whole loop makes of the two files.
  abbrev Loops : List Text → W → W → Type 0
  Loops paths w w' =
      IsEditable x c s w'
      × ((IsEtcClean x c s w ⊎ (contains paths etc_path ≡ true)) → IsEtcClean x c s w')
      × ((IsVarLibClean x c s w ⊎ (contains paths var_lib_path ≡ true)) → IsVarLibClean x c s w')

  cons-Loops :
      (p : Text) (paths : List Text) (w w₁ w' : W)
      → Steps x c s disk p w w₁
      → Loops paths w₁ w'
      → Loops (p ∷ paths) w w'
  cons-Loops p paths w w₁ w' (e₁, etc₁, var₁) (e', etc', var') = (
    e',
    (λ either. elim either [
      | inl before ↦ etc' (inl (etc₁ (inl before)))
      | inr named ↦ elim (Bool-cases (etc_path == p)) [
        | inl here ↦ etc' (inl (etc₁ (inr (ground arith))))
        | inr other ↦ etc' (inr (ground arith))
      ]
    ]),
    (λ either. elim either [
      | inl before ↦ var' (inl (var₁ (inl before)))
      | inr named ↦ elim (Bool-cases (var_lib_path == p)) [
        | inl here ↦ var' (inl (var₁ (inr (ground arith))))
        | inr other ↦ var' (inr (ground arith))
      ]
    ]),
  )

  here_or : {A : Type 0} → A ⊎ (false ≡ true) → A
  here_or (inl a) = a
  here_or (inr f) = absurd (ground arith)

  cons_step :
      (p : Text) (paths : List Text) (a : Action W) (h h₁ h' : Host W) (o : Option Error)
      → action_of x p ≡ some a
      → IsEditable x c s h.world
      → a.update k p p h ≡ (done o, h₁)
      → rounds x k paths none o h₁ ≡ (done (ok none), h')
      → (IsEditable x c s h₁.world
          → update_loop x k paths none h₁ ≡ (done (ok none), h')
          → Loops paths h₁.world h'.world)
      → Loops (p ∷ paths) h.world h'.world
  cons_step p paths a h h₁ h' none known editable ran q ih =
      let first = action-Steps p a h h₁ known editable ran in
      cons-Loops p paths h.world h₁.world h'.world first (ih first.0 q)
  cons_step p paths a h h₁ h' (some e) known editable ran q ih =
      absurd (update_loop-some x k paths (wrap "%w; " e) h₁ h' q)

  update_loop-Loops :
      (paths : List Text) (h h' : Host W)
      → IsEditable x c s h.world
      → update_loop x k paths none h ≡ (done (ok none), h')
      → Loops paths h.world h'.world
  update_loop-Loops [] h h' editable q =
      let same : h ≡ h' = unfold update_loop in cc in
      subst (λ (g : Host W). Loops [] h.world g.world) same (editable, here_or, here_or)
  update_loop-Loops (p ∷ paths) h h' editable q = elim (Option-cases (action_of x p)) [
    | inl unknown ↦ absurd (loop_unknown x k p paths none h h' unknown q)
    | inr (a, known) ↦
        let (o, h₁, ran, q₁) =
          after-done (a.update k p p h) (rounds x k paths none)
            (sym (loop_known x k p paths none a h known) ∙ q) in
        cons_step p paths a h h₁ h' o known editable ran q₁
          (λ e q'. update_loop-Loops paths h₁ h' e q')
  ]

  Loops-kept :
      (paths : List Text) (w w₁ w' : W)
      → x.files.load_from_file etc_path w' ≡ x.files.load_from_file etc_path w₁
      → x.files.read_file var_lib_path w' ≡ x.files.read_file var_lib_path w₁
      → Loops paths w w₁
      → Loops paths w w'
  Loops-kept paths w w₁ w' etc var (e, etc₁, var₁) = (
    kept-IsEditable x c s disk w₁ w' var e,
    (λ either. kept-IsEtcClean x c s disk w₁ w' etc (etc₁ either)),
    (λ either. kept-IsVarLibClean x c s disk w₁ w' var (var₁ either)),
  )

  restarted :
      (h h' : Host W)
      → restart_after x k (ok none) h ≡ (done none, h')
      → h'.world ≡ (x.shell.exec restart_command h.world).world
  unfolding restart_kubelet run
  restarted h h' q = ground arith

  last_step :
      (paths : List Text) (h h₁ h' : Host W) (r : Result (Option Error))
      → IsEditable x c s h.world
      → update_loop x k paths none h ≡ (done r, h₁)
      → restart_after x k r h₁ ≡ (done none, h')
      → Loops paths h.world h'.world
  last_step paths h h₁ h' (err e) editable ran q = absurd (cc)
  last_step paths h h₁ h' (ok (some e)) editable ran q = absurd (cc)
  last_step paths h h₁ h' (ok none) editable ran q =
      let w = restarted h₁ h' q in
      Loops-kept paths h.world h₁.world h'.world (rw w (disk.load_run restart_command h₁.world))
        (rw w (disk.read_run restart_command h₁.world)) (update_loop-Loops paths h h₁ editable ran)

  -- What `UpdateConfig` makes of the files, with the restart of the kubelet.
  update_config-Loops :
      (paths : List Text) (h h' : Host W)
      → IsEditable x c s h.world
      → update_config x k paths h ≡ (done none, h')
      → Loops paths h.world h'.world
  unfolding update_config
  update_config-Loops paths h h' editable q =
      let (r, h₁, ran, q₁) = after-done (update_loop x k paths none h) (restart_after x k) q in
      last_step paths h h₁ h' r editable ran q₁

  -- On a disk, when `CheckConfig` finds without an error which files need an update, then nothing
  -- changes the two files up to an update of these that returns no error, and the edited text of
  -- config.yaml decodes to what is wanted, then both files are as they should be.
  pub update_config_settles :
      (paths : List Text) (h h₁ h' : Host W)
      → IsEditable x c s h.world
      → check_config x k h ≡ (done (paths, none), h)
      → x.files.load_from_file etc_path h₁.world ≡ x.files.load_from_file etc_path h.world
      → x.files.read_file var_lib_path h₁.world ≡ x.files.read_file var_lib_path h.world
      → update_config x k paths h₁ ≡ (done none, h')
      → IsEtcClean x c s h'.world × IsVarLibClean x c s h'.world
  update_config_settles paths h h₁ h' editable checked etc var ran =
      let (names, errs, summed, in_etc, in_var, errors) = check_config_lem x k h in
      let same : names ≡ paths = cc in
      let fine : errs ≡ none = cc in
      let (etc_fine, var_fine) = errors.0 fine in
      let (_, settles_etc, settles_var) =
        update_config-Loops paths h₁ h' (kept-IsEditable x c s disk h.world h₁.world var editable)
          ran in
      (
        settles_etc (elim (Bool-cases (contains paths etc_path)) [
          | inl named ↦ inr named
          | inr other ↦ inl (
              kept-IsEtcClean x c s disk h.world h₁.world etc (
                answer_no (etc_check x k h)
                  (sym in_etc ∙ ap (λ l. contains l etc_path) same ∙ other) etc_fine))
        ]),
        settles_var (elim (Bool-cases (contains paths var_lib_path)) [
          | inl named ↦ inr named
          | inr other ↦ inl (
              kept-IsVarLibClean x c s disk h.world h₁.world var (
                answer_no (var_lib_check x k h)
                  (sym in_var ∙ ap (λ l. contains l var_lib_path) same ∙ other) var_fine))
        ]),
      )
