-- ===== src/Daemon/Lock.antt =====
-- `holding`, `acquire` and `release` of cmd/kucero/lock.go, over the lock of
-- github.com/weaveworks/kured/pkg/daemonsetlock. The metadata is `nodeMeta`, whose one field is
-- `Unschedulable`; the lock may set it through its pointer.
pub mod Ends
use kucero.Base.{String, Bool, false, Option, none, some, if◌then◌else◌}
use kucero.Api.Time.{Duration, minutes}
use kucero.Api.Error.{Error}
use kucero.Host.Run.{Exec, done, emit, lock_acquired, lock_released}

pub record NodeMeta : Type 0 where
  pub unschedulable : Bool

pub record Tested (W : Type 0) : Type 0 where
  pub holding : Bool
  pub error : Option Error
  pub metadata : NodeMeta
  pub world : W

pub record Acquired (W : Type 0) : Type 0 where
  pub holding : Bool
  pub holder : String
  pub error : Option Error
  pub metadata : NodeMeta
  pub world : W

pub record DaemonSetLock (W : Type 0) : Type 0 where
  pub test : NodeMeta → W → Tested W
  pub acquire : NodeMeta → Duration → W → Acquired W
  pub release : W → record { error : Option Error; world : W }

-- The time after which another node may take the lock over.
abbrev pub lock_ttl : Duration
lock_ttl = minutes 1

module _ {W : Type 0} (lock : DaemonSetLock W) where
  -- An error of the test is logged, and its answer counts all the same.
  unfoldable pub holding : NodeMeta → Exec W (Bool × NodeMeta)
  holding metadata h =
      let r = lock.test metadata h.world in
      (done (r.holding, r.metadata), record h { world = r.world })

  abbrev pub took : Acquired W → Bool
  took r = elim r.error [ none ↦ r.holding | some e ↦ false ]

  unfoldable pub acquire : NodeMeta → Exec W (Bool × NodeMeta)
  acquire metadata h =
      let r = lock.acquire metadata lock_ttl h.world in
      let after = record h { world = r.world } in
      (done (took r, r.metadata), if took r then emit lock_acquired after else after)

  unfoldable pub release : Exec W (Option Error)
  release h = (done none, emit lock_released (record h { world = (lock.release h.world).world }))
