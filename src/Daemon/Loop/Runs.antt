-- ===== src/Daemon/Loop/Runs.antt =====
-- Whole runs of `rotateCertificateWhenNeeded` in cmd/kucero/main.go, and single ticks.
use kucero.Base.{
  ◌⊎◌, String, Text, ◌≡◌, refl, Bool, true, false, Option, none, some, List, ◌++◌, ◌||◌, ◌&&◌, ltb,
  length, arith, Bool-cases, inl, inr, if◌then◌else◌,
}
use kucero.Api.Time.{Duration}
use kucero.Api.Error.{Error}
use kucero.Host.Run.{panicked, Effect, Host, done}
use kucero.Host.Kubectl.{Drainer}
use kucero.Daemon.Node.{Node, NodeTools, new_node}
use kucero.Daemon.Lock.{lock_ttl, NodeMeta, DaemonSetLock, took, holding, acquire}
use kucero.Daemon.Loop.{Event, release_if, check_and_rotate, rotate_certificate_when_needed}
use kucero.Daemon.Loop.Stage.{
  Stage, free, held, stage_after, Leads, pure-Leads, bind-Leads, Leads-either,
}
use kucero.Daemon.Loop.Discipline.{new_node-Works, release-Leads, loop-Leads}

-- What the test of the lock says at the start.
abbrev pub first_stage : Bool → Stage
first_stage holding = if holding then held else free

abbrev pub fresh_meta : NodeMeta
fresh_meta = record { unschedulable = false }

module _ {W : Type 0} (drainer : Drainer W) (lock : DaemonSetLock W) where
  release_if-Leads :
      (n : Node W) (b : Bool) → Leads (first_stage b) free (release_if n drainer lock b)
  release_if-Leads n true = release-Leads n drainer lock
  release_if-Leads n false = pure-Leads free none

  -- A run of the daemon, on a node of either kind and over any events, that ends without a panic
  -- started from the stage that the first test of the lock tells, did only what the discipline of
  -- the lock allows, and ends with the lock given back and the node not left cordoned by it.
  pub run_ends_free :
      (x : NodeTools W) (is_control_plane : Bool) (name : String) (d : Duration) (c s : Bool)
      (events : List Event) (h h' : Host W) (meta : NodeMeta)
      → rotate_certificate_when_needed
          (new_node x is_control_plane name d c s)
          drainer
          lock
          events
          h
        ≡ (done meta, h')
      → (l : List Effect) × (h'.effects ≡ h.effects ++ l)
        × (stage_after (first_stage (lock.test fresh_meta h.world).holding) l ≡ some free)
  unfolding rotate_certificate_when_needed holding
  run_ends_free x is_control_plane name d c s events h h' meta q =
      let n = new_node x is_control_plane name d c s in
      let r = lock.test fresh_meta h.world in
      (bind-Leads (release_if-Leads n r.holding) (λ released.
          loop-Leads n drainer lock (new_node-Works x name d c s is_control_plane) events
            r.metadata)).leads
        (record h { world = r.world }) h' meta q

  -- However a run of the daemon goes, on a node of either kind and over any events, its effects are
  -- some that the discipline of the lock allows, from the stage that the first test of the lock tells
  -- on; and they end with the lock given back and the node not left cordoned, unless the run
  -- panicked.
  pub run_obeys :
      (x : NodeTools W) (is_control_plane : Bool) (name : String) (d : Duration) (c s : Bool)
      (events : List Event) (h : Host W)
      → (l : List Effect) × (u : Stage) × ((rotate_certificate_when_needed
            (new_node x is_control_plane name d c s)
            drainer
            lock
            events
            h).1.effects
          ≡ h.effects ++ l)
        × (stage_after (first_stage (lock.test fresh_meta h.world).holding) l ≡ some u)
        × (((rotate_certificate_when_needed
                (new_node x is_control_plane name d c s)
                drainer
                lock
                events
                h).0
              ≡ panicked)
            ⊎ (u ≡ free))
  unfolding rotate_certificate_when_needed holding
  run_obeys x is_control_plane name d c s events h =
      let n = new_node x is_control_plane name d c s in
      let r = lock.test fresh_meta h.world in
      Leads-either
        (bind-Leads (release_if-Leads n r.holding) (λ released.
          loop-Leads n drainer lock (new_node-Works x name d c s is_control_plane) events
            r.metadata))
        (record h { world = r.world })

  -- When the checks find nothing to do, or the lock is not taken, a tick ends with the effects of
  -- the two checks and no others.
  pub check_and_rotate_waits :
      (n : Node W) (meta : NodeMeta) (h h₁ h₂ : Host W) (configs certs : List Text)
      (e e' : Option Error)
      → n.config.check_config h ≡ (done (configs, e), h₁)
      → n.certificate.check_expiration h₁ ≡ (done (certs, e'), h₂)
      → ((ltb 0 (length configs) || ltb 0 (length certs))
          && took lock (lock.acquire meta lock_ttl h₂.world))
        ≡ false
      → (meta' : NodeMeta) × (h' : Host W) × (check_and_rotate n drainer lock meta h
          ≡ (done meta', h'))
        × (h'.effects ≡ h₂.effects)
  unfolding check_and_rotate acquire
  check_and_rotate_waits n meta h h₁ h₂ configs certs e e' checked expired waits =
      elim (Bool-cases (ltb 0 (length configs) || ltb 0 (length certs))) [
        | inr nothing ↦ (meta, h₂, rw (checked, expired, nothing) refl, refl)
        | inl needed ↦
            let r = lock.acquire meta lock_ttl h₂.world in
            let refused : took lock r ≡ false = ground arith in
            (
              r.metadata,
              record h₂ { world = r.world },
              rw (checked, expired, needed, refused) refl,
              refl,
            )
      ]
