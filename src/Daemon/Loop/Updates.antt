-- ===== src/Daemon/Loop/Updates.antt =====
-- The effects of the operations of pkg/pki/conf/kubelet, by stage.
use kucero.Base.{Text, ◌≡◌, inl, inr, Option, none, some, List, [], ◌∷◌, ◌++◌, arith, Option-cases}
use kucero.Api.Error.{Error, noted, about_text, Result, ok, err}
use kucero.Host.Run.{Effect, command, write_file, Host}
use kucero.Host.Commands.{restart_kubelet, restart_command}
use kucero.Kubelet.Config.{
  Kubelet, Tools, Action, action_of, check_config, update_loop, restart_after, update_config,
}
use kucero.Kubelet.Config.Update.{action-Wrote, Wrote}
use kucero.Kubelet.Config.Check.{check_config_lem}
use kucero.Kubelet.Config.Ends.{check_config-Ends, action-Ends}
use kucero.Daemon.Loop.Stage.{
  Stage, step, stage_after, Leads, silent, one_effect, Ends-Leads, pure-Leads, bind-Leads,
}
use kucero.Daemon.Loop.Commands.{run-Leads}

module _ {W : Type 0} (x : Tools W) (k : Kubelet) (s : Stage) where
  -- `CheckConfig` leaves the host alone.
  pub check_config-Leads : Leads s s (check_config x k)
  check_config-Leads = Ends-Leads (check_config-Ends x k) (λ h h' a q.
      let (names, errs, ran, _, _, _) = check_config_lem x k h in
      silent s h h' (ground (arith, ran)))

  module _ (works : (args : List Text) → step s (command args) ≡ some s)
      (writes : (p : Text) → step s (write_file p) ≡ some s) where
    wrote :
        (p : Text) (h h' : Host W) (o : Option Error)
        → Wrote p h o h'
        → (l : List Effect) × (h'.effects ≡ h.effects ++ l) × (stage_after s l ≡ some s)
    wrote p h h' o (inl once) = one_effect s (write_file p) h h' (writes p) once
    wrote p h h' o (inr (same, e, failed)) = silent s h h' same

    update-Leads : (p : Text) (a : Action W) → action_of x p ≡ some a → Leads s s (a.update k p p)
    update-Leads p a known =
        Ends-Leads (action-Ends x k p a known)
          (λ h h' o q. wrote p h h' o (action-Wrote x k p a h h' o known q))

    update_loop-Leads :
        (paths : List Text) (errs : Option Error) → Leads s s (update_loop x k paths errs)
    unfolding update_loop
    update_loop-Leads [] errs = pure-Leads s (ok errs)
    update_loop-Leads (p ∷ paths) errs = elim (Option-cases (action_of x p)) [
      | inl unknown ↦
          rw (unknown, update_loop) (pure-Leads s (err (about_text "map key %s does not exist" p)))
      | inr (a, known) ↦
          rw (known, update_loop)
            (bind-Leads (update-Leads p a known) (λ e. update_loop-Leads paths (noted errs e)))
    ]

    restart_after-Leads : (r : Result (Option Error)) → Leads s s (restart_after x k r)
    unfolding restart_kubelet
    restart_after-Leads (err e) = pure-Leads s (some e)
    restart_after-Leads (ok (some e)) = pure-Leads s (some e)
    restart_after-Leads (ok none) =
        bind-Leads (run-Leads x.shell s restart_command (works _))
          (λ e. pure-Leads s (noted none e))

    -- `UpdateConfig` stays in a stage that allows every command and every write.
    pub update_config-Leads : (paths : List Text) → Leads s s (update_config x k paths)
    unfolding update_config
    update_config-Leads paths = bind-Leads (update_loop-Leads paths none) restart_after-Leads
