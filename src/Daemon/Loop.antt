-- ===== src/Daemon/Loop.antt =====
-- `rotateCertificateWhenNeeded` of cmd/kucero/main.go and the test of the node's labels in `root`. The select statement receives
-- the events in some order, which is a list here. The manager of the signing controller runs in a
-- goroutine of its own and shares no state with the loop.
pub mod Stage
pub mod Commands
pub mod Updates
pub mod Discipline
pub mod Endings
pub mod Due
pub mod Idle
pub mod Settle
pub mod Runs
mod Tests
use kucero.Base.{
  ℕ, String, Text, List, [], ◌∷◌, Option, none, some, Bool, true, false, ◌||◌, ltb, length, ℤ, pos,
  pos_part, ◌+ℤ◌, ◌*◌, contains, string_eq, if◌then◌else◌,
}
use kucero.Api.Time.{Duration}
use kucero.Api.Error.{Error}
use kucero.Host.Run.{Host, Exec, done, pure, ◌>>=◌}
use kucero.Host.Kubectl.{Drainer, cordon, drain, uncordon}
use kucero.Daemon.Node.{Node}
use kucero.Daemon.Lock.{NodeMeta, DaemonSetLock, holding, acquire, release}

-- `isControlPlaneNode`, from the keys of the labels of the node.
unfoldable pub is_control_plane_node : List String → Bool
is_control_plane_node labels =
    contains labels "node-role.kubernetes.io/master"
    || contains labels "node-role.kubernetes.io/control-plane"

pub data Event : Type 0 where
  quit tick : Event

module _ {W : Type 0} (cert_node : Node W) (drainer : Drainer W) (lock : DaemonSetLock W) where
  abbrev pub skip : Exec W (Option Error)
  skip = pure none

  abbrev pub shut_out : NodeMeta → Exec W (Option Error)
  shut_out meta = if meta.unschedulable then skip else do e ← cordon drainer; drain drainer

  abbrev pub update_some : List Text → Exec W (Option Error)
  update_some configs_to_be_update =
      if ltb 0 (length configs_to_be_update)
      then cert_node.config.update_config configs_to_be_update
      else skip

  abbrev pub rotate_some : List Text → Exec W (Option Error)
  rotate_some expiry_certs =
      if ltb 0 (length expiry_certs) then cert_node.certificate.rotate expiry_certs else skip

  abbrev pub let_in : NodeMeta → Exec W (Option Error)
  let_in meta = if meta.unschedulable then skip else uncordon drainer

  -- What is done under the lock, and the release. Every error is logged and dropped.
  unfoldable pub maintain : NodeMeta → List Text → List Text → Exec W NodeMeta
  maintain meta configs_to_be_update expiry_certs = do
    shut ← shut_out meta
    updated ← update_some configs_to_be_update
    rotated ← rotate_some expiry_certs
    opened ← let_in meta
    released ← release lock
    pure meta

  abbrev pub if_taken : List Text → List Text → Bool × NodeMeta → Exec W NodeMeta
  if_taken configs_to_be_update expiry_certs (true, meta) =
      maintain meta configs_to_be_update expiry_certs
  if_taken configs_to_be_update expiry_certs (false, meta) = pure meta

  abbrev pub take : NodeMeta → List Text → List Text → Exec W NodeMeta
  take meta configs_to_be_update expiry_certs = do
    got ← acquire lock meta
    if_taken configs_to_be_update expiry_certs got

  abbrev pub if_needed : NodeMeta → List Text → List Text → Exec W NodeMeta
  if_needed meta configs_to_be_update expiry_certs =
      if ltb 0 (length configs_to_be_update) || ltb 0 (length expiry_certs)
      then take meta configs_to_be_update expiry_certs
      else pure meta

  -- The case of the ticker.
  unfoldable pub check_and_rotate : NodeMeta → Exec W NodeMeta
  check_and_rotate meta = do
    c ← cert_node.config.check_config
    e ← cert_node.certificate.check_expiration
    if_needed meta c.0 e.0

  -- The loop, to the end of the events or to `quit`.
  unfoldable pub loop : List Event → NodeMeta → Exec W NodeMeta
  loop [] meta = pure meta
  loop (quit ∷ events) meta = pure meta
  loop (tick ∷ events) meta = do meta' ← check_and_rotate meta; loop events meta'

  abbrev pub release_if : Bool → Exec W (Option Error)
  release_if held = if held then release lock else skip

  -- The lock that a former run of the daemon may have left is released first.
  unfoldable pub rotate_certificate_when_needed : List Event → Exec W NodeMeta
  rotate_certificate_when_needed events = do
    held ← holding lock (record { unschedulable = false })
    released ← release_if held.0
    loop events held.1
