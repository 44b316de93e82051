-- ===== src/Daemon/Lock/Ends.antt =====
-- How the operations of cmd/kucero/lock.go end.
use kucero.Base.{refl}
use kucero.Host.Ends.{Ends}
use kucero.Daemon.Lock.{NodeMeta, DaemonSetLock, holding, acquire, release}

module _ {W : Type 0} (lock : DaemonSetLock W) where
  pub release-Ends : Ends (release lock)
  unfolding release
  release-Ends = record { ends = λ h. (_, _, refl) }

  pub acquire-Ends : (meta : NodeMeta) → Ends (acquire lock meta)
  unfolding acquire
  acquire-Ends meta = record { ends = λ h. (_, _, refl) }

  pub holding-Ends : (meta : NodeMeta) → Ends (holding lock meta)
  unfolding holding
  holding-Ends meta = record { ends = λ h. (_, _, refl) }
