-- ===== src/Kubelet/Config/Exact.antt =====
-- Exactly when `UpdateConfig` of pkg/pki/conf/kubelet/kubelet.go succeeds, and what it did then.
use kucero.Base.{
  Text, ◌≡◌, sym, ap, ◌∙◌, ◌↔◌, none, some, List, [], ◌∷◌, ◌++◌, map, text_eq, nat_eq, arith,
}
use mathlib.Core.List.{append-nil, append_assoc}
use kucero.Api.Error.{ok}
use kucero.Host.Run.{Effect, command, write_file, Host, done, after}
use kucero.Host.Commands.{restart_command, restart_kubelet, run}
use kucero.Kubelet.Kubeconfig.{update_etc}
use kucero.Kubelet.ConfigYaml.{update_var_lib}
use kucero.Kubelet.Config.Writes.{Writes, of_kubeconfig, of_yaml, AllWritten, nothing, next}
use kucero.Kubelet.Config.Update.{rounds, loop_known, update_config_writes}
use kucero.Kubelet.Config.{
  Kubelet, Tools, Action, etc_action, var_lib_action, action_of, update_loop, restart_after,
  update_config,
}

module _ {W : Type 0} (x : Tools W) (k : Kubelet) where
  -- A write with success is what the update of its path does.
  Writes-update :
      {w : W} {p : Text} {w₁ : W} (l : List Effect)
      → Writes x k w p w₁
      → (a : Action W) × (action_of x p ≡ some a)
        × (a.update k p p (record { world = w; effects = l })
            ≡ (done none, record { world = w₁; effects = l ++ (write_file p ∷ []) }))
  unfolding action_of update_etc update_var_lib
  Writes-update l (of_kubeconfig c is_etc loaded fine) =
      (etc_action x, ground arith, ground (arith, loaded, fine))
  Writes-update l (of_yaml t kc mode is_yaml there decoded known fine) =
      (var_lib_action x, ground arith, ground (arith, there, decoded, known, fine))

  AllWritten-update_loop :
      {w : W} {paths : List Text} {w' : W} (l : List Effect)
      → AllWritten x k w paths w'
      → update_loop x k paths none (record { world = w; effects = l })
        ≡ (done (ok none), record { world = w'; effects = l ++ map write_file paths })
  AllWritten-update_loop {w} l nothing =
      unfold update_loop in
      ap (λ (e : List Effect). (done (ok none), record { world = w; effects = e }))
        (sym (append-nil l))
  AllWritten-update_loop {w} {w' = w'} l (next {w₁ = w₁} {p = p} {paths = paths} first rest) =
      let (a, known, wrote) = Writes-update l first in
      let later = AllWritten-update_loop (l ++ (write_file p ∷ [])) rest in
      loop_known x k p paths none a (record { world = w; effects = l }) known
      ∙ ap (λ r. after r (rounds x k paths none)) wrote
      ∙ later
      ∙ ap (λ (e : List Effect). (done (ok none), record { world = w'; effects = e }))
          (append_assoc l (write_file p ∷ []) (map write_file paths))

  AllWritten-update_config :
      (paths : List Text) (h h' : Host W) (w : W)
      → AllWritten x k h.world paths w
      → h'.effects ≡ h.effects ++ (map write_file paths ++ (command restart_command ∷ []))
      → (x.shell.exec restart_command w).error ≡ none
      → h'.world ≡ (x.shell.exec restart_command w).world
      → update_config x k paths h ≡ (done none, h')
  unfolding update_config restart_kubelet run
  AllWritten-update_config paths h h' w all did fine there =
      let looped = AllWritten-update_loop h.effects all in
      ap (λ r. after r (restart_after x k)) looped
      ∙ ground (
        arith,
        did,
        fine,
        there,
        append_assoc h.effects (map write_file paths) (command restart_command ∷ []),
      )

  -- `UpdateConfig` returns no error exactly if each file that is named is one of the two of the table
  -- and, in the order of the names, is written with success from what it holds when its turn comes,
  -- kubelet.conf with its entries updated, config.yaml with its settings edited and its mode kept,
  -- and if the kubelet is restarted with success after that. These writes, once each, and the restart
  -- are then all that was done.
  pub update_config_iff :
      (paths : List Text) (h h' : Host W)
      → (update_config x k paths h ≡ (done none, h')) ↔ (
          (w : W) × AllWritten x k h.world paths w
          × (h'.effects ≡ h.effects ++ (map write_file paths ++ (command restart_command ∷ [])))
          × ((x.shell.exec restart_command w).error ≡ none)
          × (h'.world ≡ (x.shell.exec restart_command w).world))
  update_config_iff paths h h' = (
    update_config_writes x k paths h h',
    λ (w, all, did, fine, there). AllWritten-update_config paths h h' w all did fine there,
  )
