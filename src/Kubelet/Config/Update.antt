-- ===== src/Kubelet/Config/Update.antt =====
-- The writes of `UpdateConfig` in pkg/pki/conf/kubelet/kubelet.go.
use kucero.Base.{
  ◌==◌, Text, ◌≡◌, sym, ap, ◌∙◌, ◌⊎◌, inl, inr, Bool, Option, none, some, List, [], ◌∷◌, ◌++◌, map,
  text_eq, nat_eq, arith, Option-cases, Bool-cases, append_trans,
}
use mathlib.Core.List.{append-nil, append_assoc}
use kucero.Api.Error.{Error, wrap, noted, Result, ok, err, Result-cases}
use kucero.Host.Run.{command, write_file, Host, Ended, done, after, after-done}
use kucero.Host.Commands.{restart_command, restart_kubelet, run}
use kucero.Kubelet.Files.{Files}
use kucero.Kubelet.Kubeconfig.{update_etc}
use kucero.Kubelet.ConfigYaml.{update_var_lib}
use kucero.Kubelet.Config.Writes.{AllWritten, nothing, next, action-Writes}
use kucero.Kubelet.Config.{
  Kubelet, Tools, Action, etc_path, var_lib_path, etc_action, var_lib_action, action_of,
  update_loop, restart_after, update_config,
}

-- An update of a file wrote it, or failed and wrote nothing.
abbrev pub Wrote : {W : Type 0} → Text → Host W → Option Error → Host W → Type 0
Wrote p h o h' =
    (h'.effects ≡ h.effects ++ (write_file p ∷ []))
    ⊎ ((h'.effects ≡ h.effects) × (e : Error) × (o ≡ some e))

module _ {W : Type 0} (x : Files W) where
  update_etc-Wrote :
      (p : Text) (h h' : Host W) (o : Option Error)
      → update_etc x p p h ≡ (done o, h')
      → Wrote p h o h'
  unfolding update_etc
  update_etc-Wrote p h h' o q = elim (Result-cases (x.load_from_file p h.world)) [
    | inl (c, loaded) ↦ inl (ground arith)
    | inr (e, failed) ↦ inr (ground arith, e, ground arith)
  ]

  update_var_lib-Wrote :
      (c s : Bool) (p : Text) (h h' : Host W) (o : Option Error)
      → update_var_lib c s x p p h ≡ (done o, h')
      → Wrote p h o h'
  unfolding update_var_lib
  update_var_lib-Wrote c s p h h' o q = elim (Result-cases (x.read_file p h.world)) [
    | inr (e, failed) ↦ inr (ground arith, e, ground arith)
    | inl (t, there) ↦ elim (Result-cases (x.unmarshal t)) [
      | inr (e, failed) ↦ inr (ground arith, e, ground arith)
      | inl (kc, decoded) ↦ elim (Result-cases (x.stat p h.world)) [
        | inr (e, failed) ↦ inr (ground arith, e, ground arith)
        | inl (mode, known) ↦ inl (ground arith)
      ]
    ]
  ]

module _ {W : Type 0} (x : Tools W) (k : Kubelet) where
  pub action-Wrote :
      (p : Text) (a : Action W) (h h' : Host W) (o : Option Error)
      → action_of x p ≡ some a
      → a.update k p p h ≡ (done o, h')
      → Wrote p h o h'
  unfolding action_of
  action-Wrote p a h h' o known q = elim (Bool-cases (p == etc_path)) [
    | inl etc ↦
        let same : etc_action x ≡ a = ground arith in
        update_etc-Wrote x.files p h h' o (ap (λ (b : Action W). b.update k p p h) same ∙ q)
    | inr not_etc ↦ elim (Bool-cases (p == var_lib_path)) [
      | inl var_lib ↦
          let same : var_lib_action x ≡ a = ground arith in
          update_var_lib-Wrote x.files k.enable_kubelet_client_cert_rotation
            k.enable_kubelet_server_cert_rotation p h h' o
            (ap (λ (b : Action W). b.update k p p h) same ∙ q)
      | inr unknown ↦ absurd (ground arith)
    ]
  ]

  -- The rounds after that of a path that the table has.
  abbrev pub rounds :
      List Text → Option Error → Option Error → Host W → Ended (Result (Option Error)) × Host W
  rounds paths errs e = update_loop x k paths (noted errs e)

  pub loop_known :
      (p : Text) (paths : List Text) (errs : Option Error) (a : Action W) (h : Host W)
      → action_of x p ≡ some a
      → update_loop x k (p ∷ paths) errs h ≡ after (a.update k p p h) (rounds paths errs)
  unfolding update_loop
  loop_known p paths errs a h known = rw (known, update_loop)

  pub loop_unknown :
      (p : Text) (paths : List Text) (errs : Option Error) (h : Host W) (h' : Host W)
      → action_of x p ≡ none
      → update_loop x k (p ∷ paths) errs h ≡ (done (ok none), h')
      → ⊥
  unfolding update_loop
  loop_unknown p paths errs h h' unknown q = ground arith

  -- An error that was noted is not forgotten.
  pub update_loop-some :
      (paths : List Text) (e : Error) (h h' : Host W)
      → update_loop x k paths (some e) h ≡ (done (ok none), h')
      → ⊥
  unfolding update_loop
  update_loop-some [] e h h' q = cc
  update_loop-some (p ∷ paths) e h h' q = elim (Option-cases (action_of x p)) [
    | inl unknown ↦ loop_unknown p paths (some e) h h' unknown q
    | inr (a, known) ↦
        let (o, h₁, _, q₁) =
          after-done (a.update k p p h) (rounds paths (some e))
            (sym (loop_known p paths (some e) a h known) ∙ q) in
        still o h₁ (λ e' q'. update_loop-some paths e' h₁ h' q') q₁
  ]
    where
      still :
          (o : Option Error) (h₁ : Host W)
          → ((e' : Error) → update_loop x k paths (some e') h₁ ≡ (done (ok none), h') → ⊥)
          → rounds paths (some e) o h₁ ≡ (done (ok none), h')
          → ⊥
      still none h₁ ih q' = ih e q'
      still (some e') h₁ ih q' = ih (wrap "%w; " e') q'

  update_loop-AllWritten :
      (paths : List Text) (h h' : Host W)
      → update_loop x k paths none h ≡ (done (ok none), h')
      → (h'.effects ≡ h.effects ++ map write_file paths) × AllWritten x k h.world paths h'.world
  update_loop-AllWritten [] h h' q =
      let same : h ≡ h' = unfold update_loop in cc in
      rw (← same) (sym (append-nil h.effects), nothing)
  update_loop-AllWritten (p ∷ paths) h h' q = elim (Option-cases (action_of x p)) [
    | inl unknown ↦ absurd (loop_unknown p paths none h h' unknown q)
    | inr (a, known) ↦
        let (o, h₁, ran, q₁) =
          after-done (a.update k p p h) (rounds paths none)
            (sym (loop_known p paths none a h known) ∙ q) in
        both o h₁ a known ran (λ q'. update_loop-AllWritten paths h₁ h' q') q₁
  ]
    where
      both :
          (o : Option Error) (h₁ : Host W) (a : Action W)
          → action_of x p ≡ some a
          → a.update k p p h ≡ (done o, h₁)
          → (update_loop x k paths none h₁ ≡ (done (ok none), h')
              → (h'.effects ≡ h₁.effects ++ map write_file paths)
                × AllWritten x k h₁.world paths h'.world)
          → rounds paths none o h₁ ≡ (done (ok none), h')
          → (h'.effects ≡ h.effects ++ (write_file p ∷ map write_file paths))
            × AllWritten x k h.world (p ∷ paths) h'.world
      both (some e) h₁ a known ran ih q' = absurd (update_loop-some paths (wrap "%w; " e) h₁ h' q')
      both none h₁ a known ran ih q' =
          let (same, all) = ih q' in
          let (wrote, writes) = action-Writes x k p a h h₁ known ran in
          (
            append_trans h.effects (write_file p ∷ []) (map write_file paths) wrote same,
            next writes all,
          )

  pub update_config_writes :
      (paths : List Text) (h h' : Host W)
      → update_config x k paths h ≡ (done none, h')
      → (w : W) × AllWritten x k h.world paths w
        × (h'.effects ≡ h.effects ++ (map write_file paths ++ (command restart_command ∷ [])))
        × ((x.shell.exec restart_command w).error ≡ none)
        × (h'.world ≡ (x.shell.exec restart_command w).world)
  unfolding update_config restart_kubelet run
  update_config_writes paths h h' q =
      let (r, h₁, ran, q₁) = after-done (update_loop x k paths none h) (restart_after x k) q in
      last r h₁ ran q₁
    where
      last :
          (r : Result (Option Error)) (h₁ : Host W)
          → update_loop x k paths none h ≡ (done r, h₁)
          → restart_after x k r h₁ ≡ (done none, h')
          → (w : W) × AllWritten x k h.world paths w
            × (h'.effects ≡ h.effects ++ (map write_file paths ++ (command restart_command ∷ [])))
            × ((x.shell.exec restart_command w).error ≡ none)
            × (h'.world ≡ (x.shell.exec restart_command w).world)
      last (err e) h₁ ran q' = absurd (cc)
      last (ok (some e)) h₁ ran q' = absurd (cc)
      last (ok none) h₁ ran q' =
          let (wrote, all) = update_loop-AllWritten paths h h₁ ran in
          elim (Option-cases (x.shell.exec restart_command h₁.world).error) [
            | inr (e, bad) ↦ absurd (ground arith)
            | inl fine ↦ (
              h₁.world,
              all,
              ground (
                arith,
                wrote,
                append_assoc h.effects (map write_file paths) (command restart_command ∷ []),
              ),
              fine,
              ground arith,
            )
          ]
