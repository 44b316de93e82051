-- ===== src/Daemon/Loop/Endings.antt =====
-- How the loop of cmd/kucero/main.go ends.
use kucero.Base.{
  String, Text, ◌≡◌, Bool, true, false, none, List, [], ◌∷◌, ◌||◌, ◌++◌, some, text_eq, ltb, length,
  if◌then◌else◌,
}
use kucero.Api.Time.{Duration}
use kucero.Host.Run.{Effect, Host, done, Exec}
use kucero.Host.Kubectl.{Drainer}
use kucero.Daemon.Node.{Node, NodeTools, new_node}
use kucero.Daemon.Lock.{NodeMeta, DaemonSetLock}
use kucero.Daemon.Loop.{
  Event, quit, tick, maintain, if_taken, check_and_rotate, loop, rotate_certificate_when_needed,
}
use kucero.Host.Ends.{Ends, pure-Ends, bind-Ends, cordon-Ends, drain-Ends, uncordon-Ends}
use kucero.Daemon.Loop.Stage.{free, stage_after}
use kucero.Daemon.Loop.Runs.{first_stage, fresh_meta, run_ends_free}
use kucero.Daemon.Lock.Ends.{release-Ends, acquire-Ends, holding-Ends}
use kucero.Kubelet.Config.Ends.{check_config-Ends, update_config-Ends}
use kucero.Kubeadm.Certificates.Ends.{PrintsVersion, rotate-Ends, check_expiration-Ends}

-- The four operations of a node end.
record NodeEnds {W : Type 0} (n : Node W) : Type 0 where
  checks_config : Ends n.config.check_config
  checks_expiration : Ends n.certificate.check_expiration
  updates : (paths : List Text) → Ends (n.config.update_config paths)
  rotates : (names : List Text) → Ends (n.certificate.rotate names)

new_node-NodeEnds :
    {W : Type 0} (x : NodeTools W) (is_control_plane : Bool) (name : String) (d : Duration)
    (c s : Bool)
    → ((w : W) → PrintsVersion x.kubeadm w)
    → NodeEnds (new_node x is_control_plane name d c s)
unfolding new_node
new_node-NodeEnds x true name d c s prints = record {
  checks_config = check_config-Ends x.kubelet _;
  checks_expiration = check_expiration-Ends x.kubeadm prints d;
  updates = update_config-Ends x.kubelet _;
  rotates = rotate-Ends x.kubeadm prints;
}
new_node-NodeEnds x false name d c s prints = record {
  checks_config = check_config-Ends x.kubelet _;
  checks_expiration = pure-Ends ([], none);
  updates = update_config-Ends x.kubelet _;
  rotates = λ names. pure-Ends none;
}

module _ {W : Type 0} (n : Node W) (drainer : Drainer W) (lock : DaemonSetLock W) where
  pub if-Ends :
      {A : Type 0} (b : Bool) {m k : Exec W A} → Ends m → Ends k → Ends (if b then m else k)
  if-Ends true m k = m
  if-Ends false m k = k

  module _ (w : NodeEnds n) where
    maintain-Ends :
        (meta : NodeMeta) (paths names : List Text)
        → Ends (maintain n drainer lock meta paths names)
    unfolding maintain
    maintain-Ends meta paths names =
        bind-Ends
          (if-Ends meta.unschedulable (pure-Ends none)
            (bind-Ends (cordon-Ends drainer) (λ e. drain-Ends drainer)))
          (λ shut.
            bind-Ends (if-Ends (ltb 0 (length paths)) (w.updates paths) (pure-Ends none))
              (λ updated.
                bind-Ends (if-Ends (ltb 0 (length names)) (w.rotates names) (pure-Ends none))
                  (λ rotated.
                    bind-Ends (if-Ends meta.unschedulable (pure-Ends none) (uncordon-Ends drainer))
                      (λ opened. bind-Ends (release-Ends lock) (λ released. pure-Ends meta)))))

    if_taken-Ends :
        (paths names : List Text) (got : Bool × NodeMeta)
        → Ends (if_taken n drainer lock paths names got)
    if_taken-Ends paths names (true, meta) = maintain-Ends meta paths names
    if_taken-Ends paths names (false, meta) = pure-Ends meta

    check_and_rotate-Ends : (meta : NodeMeta) → Ends (check_and_rotate n drainer lock meta)
    unfolding check_and_rotate
    check_and_rotate-Ends meta = bind-Ends w.checks_config (λ c. bind-Ends w.checks_expiration (λ e.
        if-Ends (ltb 0 (length c.0) || ltb 0 (length e.0))
          (bind-Ends (acquire-Ends lock meta) (if_taken-Ends c.0 e.0)) (pure-Ends meta)))

    loop-Ends : (events : List Event) (meta : NodeMeta) → Ends (loop n drainer lock events meta)
    unfolding loop
    loop-Ends [] meta = pure-Ends meta
    loop-Ends (quit ∷ events) meta = pure-Ends meta
    loop-Ends (tick ∷ events) meta = bind-Ends (check_and_rotate-Ends meta) (loop-Ends events)

    run-NodeEnds :
        (events : List Event) → Ends (rotate_certificate_when_needed n drainer lock events)
    unfolding rotate_certificate_when_needed
    run-NodeEnds events = bind-Ends (holding-Ends lock (record { unschedulable = false })) (λ held.
        bind-Ends (if-Ends held.0 (release-Ends lock) (pure-Ends none))
          (λ released. loop-Ends events held.1))

-- When `kubeadm version`, wherever it does not fail, prints a version, a run of the daemon ends with a
-- value, not with a panic, on a node of either kind, over any events, and whichever of the commands,
-- the writes and the calls of the lock fail. Its calls then obey the discipline of the lock from the
-- stage that the first test of the lock tells, and after the last of them the calls that open the node
-- and give the lock back have been made.
pub run_ends :
    {W : Type 0} (drainer : Drainer W) (lock : DaemonSetLock W) (x : NodeTools W)
    (is_control_plane : Bool) (name : String) (d : Duration) (c s : Bool) (events : List Event)
    (h : Host W)
    → ((w : W) → PrintsVersion x.kubeadm w)
    → (meta : NodeMeta) × (h' : Host W) × (rotate_certificate_when_needed
          (new_node x is_control_plane name d c s)
          drainer
          lock
          events
          h
        ≡ (done meta, h'))
      × (l : List Effect) × (h'.effects ≡ h.effects ++ l)
      × (stage_after (first_stage (lock.test fresh_meta h.world).holding) l ≡ some free)
run_ends drainer lock x is_control_plane name d c s events h prints =
    let (meta, h', ran) =
      (run-NodeEnds (new_node x is_control_plane name d c s) drainer lock
          (new_node-NodeEnds x is_control_plane name d c s prints) events).ends
        h in
    let (l, did, at_rest) =
      run_ends_free drainer lock x is_control_plane name d c s events h h' meta ran in
    (meta, h', ran, l, did, at_rest)
