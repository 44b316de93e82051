-- ===== src/Kubeadm/Certificates.antt =====
-- `Kubeadm` of pkg/pki/cert/kubeadm/kubeadm.go and the two commands of exec.go.
pub mod Success
pub mod Rotate
pub mod Exact
pub mod Expiration
pub mod Ends
pub mod Attempts
pub mod Machine
pub mod Settle
mod Tests
use kucero.Base.{
  ℕ, String, Text, List, [], ◌∷◌, ◌++◌, Option, none, some, Bool, true, false, ◌==◌, text_eq,
  nat_eq, bytes, lookup, if◌then◌else◌,
}
use kucero.Api.Time.{Time, Duration, Clock}
use kucero.Api.Error.{Error, noted, Result, ok, err}
use kucero.Host.Run.{Exec, done, panicked, pure, panic, ◌>>=◌}
use kucero.Host.Commands.{Shell, run, output, nsenter, restart_kubelet}
use kucero.Kubeadm.Expiry.{check_certificate_expiry}
use kucero.Kubeadm.Table.{Expiries, parse_check_expiration}
use kucero.Kubeadm.Backup.{Civil, backup_path}

abbrev pub certificates : List (Text × Text)
certificates =
    (bytes "admin.conf", bytes "/etc/kubernetes/admin.conf")
    ∷ (bytes "controller-manager.conf", bytes "/etc/kubernetes/controller-manager.conf")
    ∷ (bytes "scheduler.conf", bytes "/etc/kubernetes/scheduler.conf")
    ∷ (bytes "apiserver", bytes "/etc/kubernetes/pki/apiserver.crt")
    ∷ (bytes "apiserver-etcd-client", bytes "/etc/kubernetes/pki/apiserver-etcd-client.crt")
    ∷ (bytes "apiserver-kubelet-client", bytes "/etc/kubernetes/pki/apiserver-kubelet-client.crt")
    ∷ (bytes "front-proxy-client", bytes "/etc/kubernetes/pki/front-proxy-client.crt")
    ∷ (bytes "etcd-healthcheck-client", bytes "/etc/kubernetes/pki/etcd/healthcheck-client.crt")
    ∷ (bytes "etcd-peer", bytes "/etc/kubernetes/pki/etcd/peer.crt")
    ∷ (bytes "etcd-server", bytes "/etc/kubernetes/pki/etcd/server.crt")
    ∷ []

-- `certificates[certificateName]`.
unfoldable pub certificate_path : Text → Option Text
certificate_path name = lookup name certificates

-- What the program takes from outside: the shell, the local time, the clock of `Kubeadm`,
-- `time.Parse`, the order in which Go visits a map, and the test of a version for 1.20.0, which
-- panics (`none`) on a text that is no version.
pub record Tools (W : Type 0) : Type 0 where
  pub shell : Shell W
  pub local_time : W → Civil
  pub clock : Clock W
  pub parse_time : Text → Option Time
  pub range : Expiries → Expiries
  pub at_least_1_20 : Text → Option Bool

-- `strings.TrimSuffix(s, "\n")`.
unfoldable pub trim_newline : Text → Text
trim_newline [] = []
trim_newline (c ∷ []) = if c == 10 then [] else c ∷ []
trim_newline (c ∷ d ∷ cs) = c ∷ trim_newline (d ∷ cs)

unfoldable pub version_command : List Text
version_command = nsenter (bytes "/usr/bin/kubeadm" ∷ bytes "version" ∷ bytes "-oshort" ∷ [])

-- `kubeadm certs …`, or `kubeadm alpha certs …` before 1.20.0.
unfoldable pub certs_command : Bool → List Text → List Text
certs_command recent args = nsenter (
    bytes "/usr/bin/kubeadm"
    ∷ (if recent then bytes "certs" ∷ args else bytes "alpha" ∷ bytes "certs" ∷ args))

unfoldable pub renew_command : Bool → Text → List Text
unfolding certs_command
renew_command recent name = certs_command recent (bytes "renew" ∷ name ∷ [])

unfoldable pub check_command : Bool → List Text
unfolding certs_command
check_command recent = certs_command recent (bytes "check-expiration" ∷ [])

unfoldable pub copy_command : Text → Text → List Text
copy_command path copy = nsenter (bytes "/usr/bin/cp" ∷ path ∷ copy ∷ [])

module _ {W : Type 0} (x : Tools W) where
  -- `MustParseSemantic(ver).AtLeast(…)` on the output of the version command.
  abbrev pub is_recent : Text → Exec W Bool
  is_recent out h = elim (x.at_least_1_20 (trim_newline out)) [
    | none ↦ (panicked, h)
    | some recent ↦ (done recent, h)
  ]

  abbrev pub renew_with : Text → Result Text → Exec W (Option Error)
  renew_with name (err e) = pure (some e)
  renew_with name (ok out) = do recent ← is_recent out; run x.shell (renew_command recent name)

  -- `kubeadmAlphaCertsRenew`, and `rotateCertificate`, which calls it and returns its error.
  unfoldable pub rotate_certificate : Text → Exec W (Option Error)
  rotate_certificate name = do out ← output x.shell version_command; renew_with name out

  unfoldable pub backup_certificate : Text → Exec W (Option Error)
  backup_certificate path h =
      run x.shell (copy_command path (backup_path path (x.local_time h.world))) h

  abbrev pub rotate_unless : Text → Option Error → Exec W (Option Error)
  rotate_unless name (some e) = pure (some e)
  rotate_unless name none = rotate_certificate name

  -- One round of the loop of `Rotate`: the backup, and the renewal unless the backup failed.
  unfoldable pub rotate_one : Text → Text → Exec W (Option Error)
  unfolding backup_certificate rotate_certificate
  rotate_one name path = do e ← backup_certificate path; rotate_unless name e

  -- A name that the table lacks is passed over.
  unfoldable pub rotate_loop : List Text → Option Error → Exec W (Option Error)
  rotate_loop [] errs = pure errs
  rotate_loop (name ∷ names) errs = elim (certificate_path name) [
    | none ↦ rotate_loop names errs
    | some path ↦ do e ← rotate_one name path; rotate_loop names (noted errs e)
  ]

  abbrev pub restart_unless : Option Error → Exec W (Option Error)
  restart_unless (some errs) = pure (some errs)
  restart_unless none = do e ← restart_kubelet x.shell; pure (noted none e)

  unfoldable pub rotate : List Text → Exec W (Option Error)
  unfolding rotate_loop restart_kubelet
  rotate names = do errs ← rotate_loop names none; restart_unless errs

  -- The loop over the map of `kubeadmAlphaCertsCheckExpiration`.
  unfoldable pub collect_expiring : Duration → Expiries → List Text → Exec W (List Text)
  unfolding check_certificate_expiry
  collect_expiring d [] found = pure found
  collect_expiring d ((cert, t) ∷ m) found = λ h.
      let r = check_certificate_expiry x.clock t d h.world in
      collect_expiring d m (if r.expires then found ++ (cert ∷ []) else found)
        (record h { world = r.world })

  abbrev pub expiring_of : Duration → Result Text → Exec W (List Text × Option Error)
  expiring_of d (err e) = pure ([], some e)
  expiring_of d (ok stdout) = do
    found ← collect_expiring d (x.range (parse_check_expiration x.parse_time stdout)) []
    pure (found, none)

  abbrev pub check_with : Duration → Result Text → Exec W (List Text × Option Error)
  check_with d (err e) = pure ([], some e)
  check_with d (ok out) = do
    recent ← is_recent out
    stdout ← output x.shell (check_command recent)
    expiring_of d stdout

  -- `kubeadmAlphaCertsCheckExpiration`, which `CheckExpiration` calls.
  unfoldable pub check_expiration : Duration → Exec W (List Text × Option Error)
  unfolding collect_expiring
  check_expiration d = do out ← output x.shell version_command; check_with d out
