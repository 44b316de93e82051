-- ===== src/Daemon/Loop/Discipline.antt =====
-- The loop of cmd/kucero/main.go and the discipline of the lock.
use mathlib.Core.List.{append_assoc}
use kucero.Base.{
  String, Text, ◌≡◌, refl, ◌∙◌, inl, inr, Bool, true, false, Option, none, List, [], ◌∷◌, ◌++◌,
  ◌||◌, ltb, length, arith, Bool-cases, if◌then◌else◌,
}
use kucero.Api.Time.{Duration}
use kucero.Api.Error.{Error}
use kucero.Host.Run.{
  panicked, set_unschedulable, lock_acquired, lock_released, drain as drain_effect, Host, done,
  Exec, pure,
}
use kucero.Host.Kubectl.{Drainer, cordon, drain, uncordon}
use kucero.Daemon.Node.{Node, NodeTools, new_node}
use kucero.Daemon.Lock.{lock_ttl, NodeMeta, DaemonSetLock, took, acquire, release}
use kucero.Daemon.Loop.{
  Event, quit, tick, shut_out, update_some, rotate_some, let_in, maintain, take, if_needed,
  check_and_rotate, loop,
}
use kucero.Host.Ends.{cordon-Ends, drain-Ends, uncordon-Ends}
use kucero.Daemon.Lock.Ends.{release-Ends}
use kucero.Daemon.Loop.Stage.{
  Stage, free, held, shut, step, stage_after, Leads, silent, one_effect, Ends-Leads, pure-Leads,
  bind-Leads,
}
use kucero.Daemon.Loop.Commands.{rotate-Leads, check_expiration-Leads}
use kucero.Daemon.Loop.Updates.{check_config-Leads, update_config-Leads}

-- The operations of a node: checks that only ask, and work that stays under the lock.
pub record Works {W : Type 0} (n : Node W) : Type 0 where
  pub checks_config : Leads free free n.config.check_config
  pub checks_expiration : Leads free free n.certificate.check_expiration
  pub updates_held : (paths : List Text) → Leads held held (n.config.update_config paths)
  pub updates_shut : (paths : List Text) → Leads shut shut (n.config.update_config paths)
  pub rotates_held : (names : List Text) → Leads held held (n.certificate.rotate names)
  pub rotates_shut : (names : List Text) → Leads shut shut (n.certificate.rotate names)

module _ {W : Type 0} (x : NodeTools W) (name : String) (d : Duration) (c s : Bool) where
  -- Both kinds of node work so.
  pub new_node-Works : (is_control_plane : Bool) → Works (new_node x is_control_plane name d c s)
  unfolding new_node step
  new_node-Works true = record {
    checks_config = check_config-Leads x.kubelet _ free;
    checks_expiration = check_expiration-Leads x.kubeadm d;
    updates_held = update_config-Leads x.kubelet _ held (λ args. refl) (λ p. refl);
    updates_shut = update_config-Leads x.kubelet _ shut (λ args. refl) (λ p. refl);
    rotates_held = rotate-Leads x.kubeadm held (λ args. refl);
    rotates_shut = rotate-Leads x.kubeadm shut (λ args. refl);
  }
  new_node-Works false = record {
    checks_config = check_config-Leads x.kubelet _ free;
    checks_expiration = pure-Leads free ([], none);
    updates_held = update_config-Leads x.kubelet _ held (λ args. refl) (λ p. refl);
    updates_shut = update_config-Leads x.kubelet _ shut (λ args. refl) (λ p. refl);
    rotates_held = λ names. pure-Leads held none;
    rotates_shut = λ names. pure-Leads shut none;
  }

module _ {W : Type 0} (n : Node W) (drainer : Drainer W) (lock : DaemonSetLock W) where
  -- The stage of the work under the lock.
  unfoldable pub stage_of : NodeMeta → Stage
  stage_of meta = if meta.unschedulable then held else shut

  pub release-Leads : Leads held free (release lock)
  unfolding release step
  release-Leads =
      Ends-Leads (release-Ends lock)
        (λ h h' a q. one_effect held lock_released h h' refl (ground arith))

  cordon-Leads : Leads held shut (cordon drainer)
  unfolding cordon step
  cordon-Leads =
      Ends-Leads (cordon-Ends drainer)
        (λ h h' a q. one_effect held (set_unschedulable true) h h' refl (ground arith))

  drain-Leads : Leads shut shut (drain drainer)
  unfolding drain step
  drain-Leads =
      Ends-Leads (drain-Ends drainer)
        (λ h h' a q. one_effect shut drain_effect h h' refl (ground arith))

  uncordon-Leads : Leads shut held (uncordon drainer)
  unfolding uncordon step
  uncordon-Leads =
      Ends-Leads (uncordon-Ends drainer)
        (λ h h' a q. one_effect shut (set_unschedulable false) h h' refl (ground arith))

  pub shut_out-Leads :
      (b : Bool)
      → Leads held
          (stage_of (record { unschedulable = b }))
          (shut_out n drainer lock (record { unschedulable = b }))
  unfolding stage_of
  shut_out-Leads true = pure-Leads held none
  shut_out-Leads false = bind-Leads cordon-Leads (λ e. drain-Leads)

  pub let_in-Leads :
      (b : Bool)
      → Leads
          (stage_of (record { unschedulable = b }))
          held
          (let_in n drainer lock (record { unschedulable = b }))
  unfolding stage_of
  let_in-Leads true = pure-Leads held none
  let_in-Leads false = uncordon-Leads

  module _ (w : Works n) where
    some_work :
        (b : Bool) (m : Exec W (Option Error)) (s : Stage)
        → Leads s s m
        → Leads s s (if b then m else pure none)
    some_work true m s leads = leads
    some_work false m s leads = pure-Leads s none

    pub update_some-Leads :
        (b : Bool) (paths : List Text)
        → Leads
            (stage_of (record { unschedulable = b }))
            (stage_of (record { unschedulable = b }))
            (update_some n drainer lock paths)
    unfolding stage_of
    update_some-Leads true paths = some_work _ _ held (w.updates_held paths)
    update_some-Leads false paths = some_work _ _ shut (w.updates_shut paths)

    rotate_some-Leads :
        (b : Bool) (names : List Text)
        → Leads
            (stage_of (record { unschedulable = b }))
            (stage_of (record { unschedulable = b }))
            (rotate_some n drainer lock names)
    unfolding stage_of
    rotate_some-Leads true names = some_work _ _ held (w.rotates_held names)
    rotate_some-Leads false names = some_work _ _ shut (w.rotates_shut names)

    maintain-Leads :
        (meta : NodeMeta) (paths names : List Text)
        → Leads held free (maintain n drainer lock meta paths names)
    unfolding maintain
    maintain-Leads meta paths names =
        let b = meta.unschedulable in
        bind-Leads (shut_out-Leads b) (λ shut. bind-Leads (update_some-Leads b paths) (λ updated.
          bind-Leads (rotate_some-Leads b names) (λ rotated.
            bind-Leads (let_in-Leads b)
              (λ opened. bind-Leads release-Leads (λ released. pure-Leads free meta)))))

    take-Leads :
        (meta : NodeMeta) (paths names : List Text)
        → Leads free free (take n drainer lock meta paths names)
    unfolding acquire stage_after step
    take-Leads meta paths names = record {
      leads = λ h h' a q.
          let r = lock.acquire meta lock_ttl h.world in
          let h₁ : Host W = record {
            world = r.world;
            effects = h.effects ++ (lock_acquired ∷ []);
          } in
          elim (Bool-cases (took lock r)) [
            | inl taken ↦
                let q' : maintain n drainer lock r.metadata paths names h₁ ≡ (done a, h') =
                  ground arith in
                let (l, same, goes) = (maintain-Leads r.metadata paths names).leads h₁ h' a q' in
                (lock_acquired ∷ l, same ∙ append_assoc h.effects (lock_acquired ∷ []) l, goes)
            | inr refused ↦ silent free h h' (ground arith)
          ];
      panics = λ h h' q.
          let r = lock.acquire meta lock_ttl h.world in
          let h₁ : Host W = record {
            world = r.world;
            effects = h.effects ++ (lock_acquired ∷ []);
          } in
          elim (Bool-cases (took lock r)) [
            | inl taken ↦
                let q' : maintain n drainer lock r.metadata paths names h₁ ≡ (panicked, h') =
                  ground arith in
                let (l, u, same, goes) = (maintain-Leads r.metadata paths names).panics h₁ h' q' in
                (lock_acquired ∷ l, u, same ∙ append_assoc h.effects (lock_acquired ∷ []) l, goes)
            | inr refused ↦ absurd (ground arith)
          ];
    }

    if_needed-Leads :
        (meta : NodeMeta) (paths names : List Text)
        → Leads free free (if_needed n drainer lock meta paths names)
    if_needed-Leads meta paths names =
        elim (ltb 0 (length paths) || ltb 0 (length names))
          as (λ b.
            Leads free free (if b then take n drainer lock meta paths names else pure meta)) [
              | true ↦ take-Leads meta paths names
              | false ↦ pure-Leads free meta
            ]

    check_and_rotate-Leads :
        (meta : NodeMeta) → Leads free free (check_and_rotate n drainer lock meta)
    unfolding check_and_rotate
    check_and_rotate-Leads meta =
        bind-Leads w.checks_config
          (λ c. bind-Leads w.checks_expiration (λ e. if_needed-Leads meta c.0 e.0))

    pub loop-Leads :
        (events : List Event) (meta : NodeMeta) → Leads free free (loop n drainer lock events meta)
    unfolding loop
    loop-Leads [] meta = pure-Leads free meta
    loop-Leads (quit ∷ events) meta = pure-Leads free meta
    loop-Leads (tick ∷ events) meta = bind-Leads (check_and_rotate-Leads meta) (loop-Leads events)
