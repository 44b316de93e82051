-- ===== src/Daemon/Loop/Settle.antt =====
-- A worker of cmd/kucero/main.go over the tick in which it updates its configuration, and after it.
mod Tests
use kucero.Base.{
  String, Text, ◌≡◌, refl, sym, ap, ◌∙◌, Bool, true, false, Option, none, some, List, [], ◌∷◌,
  arith, ltb, length, inl, inr, Bool-cases,
}
use mathlib.Core.Path.{subst}
use kucero.Api.Time.{Duration}
use kucero.Api.Error.{Error}
use kucero.Host.Run.{Ended, Host, done, emit, lock_acquired}
use kucero.Host.Kubectl.{Drainer, cordon, drain, uncordon}
use kucero.Kubelet.Config.{Tools, Kubelet, new, etc_path, var_lib_path, check_config, update_config}
use kucero.Kubelet.Config.Disk.{IsDisk, IsEditable, IsEtcClean, IsVarLibClean}
use kucero.Kubelet.Config.Settle.{update_config_settles}
use kucero.Kubelet.Kubeconfig.{check_etc}
use kucero.Kubelet.ConfigYaml.{check_var_lib}
use kucero.Daemon.Node.{Node, NodeTools, new_node}
use kucero.Daemon.Lock.{NodeMeta, DaemonSetLock, lock_ttl, took, acquire, release}
use kucero.Daemon.Loop.{Event, tick, quit, shut_out, let_in, maintain, check_and_rotate, loop}
use kucero.Daemon.Loop.Idle.{worker_idle}

module _ {W : Type 0} (x : NodeTools W) (drainer : Drainer W) (lock : DaemonSetLock W) where
  -- The two files read the same.
  pub record AreSame (w w' : W) : Type 0 where
    pub loads :
        x.kubelet.files.load_from_file etc_path w' ≡ x.kubelet.files.load_from_file etc_path w
    pub reads : x.kubelet.files.read_file var_lib_path w' ≡ x.kubelet.files.read_file var_lib_path w

  -- The lock and kubectl leave the two files alone.
  pub record IsApart : Type 0 where
    pub acquiring : (meta : NodeMeta) (w : W) → AreSame w (lock.acquire meta lock_ttl w).world
    pub releasing : (w : W) → AreSame w (lock.release w).world
    pub cordoning : (b : Bool) (w : W) → AreSame w (drainer.run_cordon_or_uncordon b w).world
    pub draining : (w : W) → AreSame w (drainer.run_node_drain w).world

  one_host :
      {m : Ended (Option Error) × Host W} {o o' : Option Error} {h h' : Host W}
      → m ≡ (done o, h)
      → m ≡ (done o', h')
      → h ≡ h'
  one_host p q = ap (λ r. r.1) (sym p ∙ q)

  AreSame-refl : (w : W) → AreSame w w
  AreSame-refl w = record { loads = refl; reads = refl }

  AreSame-then : {w w₁ w' : W} → AreSame w w₁ → AreSame w₁ w' → AreSame w w'
  AreSame-then s t = record { loads = t.loads ∙ s.loads; reads = t.reads ∙ s.reads }

  module _ (n : Node W) (apart : IsApart) where
    shut_out-AreSame :
        (meta : NodeMeta) (h : Host W)
        → (o : Option Error) × (h' : Host W) × (shut_out n drainer lock meta h ≡ (done o, h'))
          × AreSame h.world h'.world
    unfolding cordon drain
    shut_out-AreSame meta h = elim (Bool-cases meta.unschedulable) [
      | inl cordoned ↦ (none, h, rw cordoned refl, AreSame-refl h.world)
      | inr shared ↦
          let w = (drainer.run_cordon_or_uncordon true h.world).world in
          (
            none,
            (drain drainer (cordon drainer h).1).1,
            rw shared refl,
            AreSame-then (apart.cordoning true h.world) (apart.draining w),
          )
    ]

    let_in-AreSame :
        (meta : NodeMeta) (h : Host W)
        → (o : Option Error) × (h' : Host W) × (let_in n drainer lock meta h ≡ (done o, h'))
          × AreSame h.world h'.world
    unfolding uncordon
    let_in-AreSame meta h = elim (Bool-cases meta.unschedulable) [
      | inl cordoned ↦ (none, h, rw cordoned refl, AreSame-refl h.world)
      | inr shared ↦ (none, (uncordon drainer h).1, rw shared refl, apart.cordoning false h.world)
    ]

    maintain-AreSame :
        (meta : NodeMeta) (paths : List Text) (h h₁ h₂ : Host W) (o o' : Option Error)
        → ltb 0 (length paths) ≡ true
        → shut_out n drainer lock meta h ≡ (done o, h₁)
        → n.config.update_config paths h₁ ≡ (done o', h₂)
        → (h' : Host W) × (maintain n drainer lock meta paths [] h ≡ (done meta, h'))
          × AreSame h₂.world h'.world
    unfolding maintain release
    maintain-AreSame meta paths h h₁ h₂ o o' some_path shut updated =
        let (o'', h₃, opened, same) = let_in-AreSame meta h₂ in
        (
          (release lock h₃).1,
          rw (shut, some_path, updated, opened) refl,
          AreSame-then same (apart.releasing h₃.world),
        )

  module _ (name : String) (d : Duration) (c s : Bool) (apart : IsApart) where
    abbrev worker : Node W
    worker = new_node x false name d c s

    abbrev taken : NodeMeta → Host W → Host W
    taken meta h =
        emit lock_acquired (record h { world = (lock.acquire meta lock_ttl h.world).world })

    tick_settles :
        (meta : NodeMeta) (h h₁ h₂ : Host W) (paths : List Text) (o : Option Error)
        → IsDisk x.kubelet c s
        → IsEditable x.kubelet c s h.world
        → check_config x.kubelet (new name c s) h ≡ (done (paths, none), h)
        → ltb 0 (length paths) ≡ true
        → took lock (lock.acquire meta lock_ttl h.world) ≡ true
        → shut_out worker drainer lock (lock.acquire meta lock_ttl h.world).metadata (taken meta h)
          ≡ (done o, h₁)
        → update_config x.kubelet (new name c s) paths h₁ ≡ (done none, h₂)
        → (meta' : NodeMeta) × (h' : Host W) × (check_and_rotate worker drainer lock meta h
            ≡ (done meta', h'))
          × IsEtcClean x.kubelet c s h'.world
          × IsVarLibClean x.kubelet c s h'.world
    unfolding check_and_rotate new_node acquire
    tick_settles meta h h₁ h₂ paths o disk editable checked some_path got shut updated =
        let meta' : NodeMeta = (lock.acquire meta lock_ttl h.world).metadata in
        let (o', h₁', shut', outside) = shut_out-AreSame worker apart meta' (taken meta h) in
        let same : AreSame h.world h₁.world = AreSame-then (apart.acquiring meta h.world) (
          subst (λ (g : Host W). AreSame (taken meta h).world g.world) (one_host shut' shut)
            outside) in
        let (etc, var_lib) =
          update_config_settles x.kubelet c s disk name paths h h₁ h₂ editable checked same.loads
            same.reads updated in
        let (h', ran, after) =
          maintain-AreSame worker apart meta' paths (taken meta h) h₁ h₂ o none some_path shut
            updated in
        (meta', h', rw (checked, some_path, got) ran, rw after.loads etc, rw after.reads var_lib)

    -- The files are a disk that the lock and kubectl leave alone, and the edited text of config.yaml
    -- decodes to what is wanted. When a tick finds without an error that files need an update, gets the
    -- lock, and updates them without an error, then the worker has settled: whatever events follow
    -- this tick, the run ends in the same state as if none followed.
    pub worker_settles :
        (meta : NodeMeta) (h h₁ h₂ : Host W) (paths : List Text) (o : Option Error)
        (events : List Event)
        → IsDisk x.kubelet c s
        → IsEditable x.kubelet c s h.world
        → check_config x.kubelet (new name c s) h ≡ (done (paths, none), h)
        → ltb 0 (length paths) ≡ true
        → took lock (lock.acquire meta lock_ttl h.world) ≡ true
        → shut_out worker drainer lock (lock.acquire meta lock_ttl h.world).metadata (taken meta h)
          ≡ (done o, h₁)
        → update_config x.kubelet (new name c s) paths h₁ ≡ (done none, h₂)
        → (meta' : NodeMeta) × (h' : Host W) × (loop worker drainer lock (tick ∷ []) meta h
            ≡ (done meta', h'))
          × (loop worker drainer lock (tick ∷ events) meta h ≡ (done meta', h'))
    unfolding loop check_etc check_var_lib
    worker_settles meta h h₁ h₂ paths o events disk editable checked some_path got shut updated =
        let (meta', h', ran, etc, var_lib) =
          tick_settles meta h h₁ h₂ paths o disk editable checked some_path got shut updated in
        (
          meta',
          h',
          rw ran refl,
          rw ran (
              worker_idle x drainer lock name d c s events meta' h' none none (rw etc refl)
                (rw var_lib refl)),
        )
