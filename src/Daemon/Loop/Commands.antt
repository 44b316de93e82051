-- ===== src/Daemon/Loop/Commands.antt =====
-- The effects of the operations of `Kubeadm` in pkg/pki/cert/kubeadm, by stage.
use kucero.Base.{
  Text, ◌≡◌, inl, inr, Bool, true, false, Option, none, some, List, [], ◌∷◌, ◌++◌, words_eq,
  text_eq, nat_eq, arith, Option-cases, if◌then◌else◌,
}
use kucero.Api.Time.{Duration}
use kucero.Api.Error.{Error, noted, Result, ok, err}
use kucero.Host.Run.{command}
use kucero.Host.Commands.{Shell, run, output, restart_kubelet, restart_command}
use kucero.Kubeadm.Expiry.{check_certificate_expiry}
use kucero.Kubeadm.Table.{Expiries, parse_check_expiration}
use kucero.Kubeadm.Backup.{backup_path}
use kucero.Kubeadm.Certificates.{
  trim_newline, Tools, version_command, check_command, copy_command, renew_command, is_recent,
  renew_with, rotate_certificate, backup_certificate, rotate_unless, rotate_one, rotate_loop,
  restart_unless, rotate, certificate_path, collect_expiring, expiring_of, check_with,
  check_expiration,
}
use kucero.Host.Ends.{run-Ends, output-Ends}
use kucero.Daemon.Loop.Stage.{
  Stage, free, is_reading, step, Leads, silent, one_effect, Ends-Leads, pure-Leads, bind-Leads,
}

module _ {W : Type 0} (x : Shell W) (s : Stage) (args : List Text)
    (ok_command : step s (command args) ≡ some s) where
  pub run-Leads : Leads s s (run x args)
  unfolding run
  run-Leads =
      Ends-Leads (run-Ends x args)
        (λ h h' a q. one_effect s (command args) h h' ok_command (ground arith))

  pub output-Leads : Leads s s (output x args)
  unfolding output
  output-Leads =
      Ends-Leads (output-Ends x args)
        (λ h h' a q. one_effect s (command args) h h' ok_command (ground arith))

module _ {W : Type 0} (x : Tools W) (s : Stage) where
  is_recent-Leads : (out : Text) → Leads s s (is_recent x out)
  is_recent-Leads out = record {
    leads = λ h h' a q. silent s h h' (elim (Option-cases (x.at_least_1_20 (trim_newline out))) [
      | inl panics ↦ absurd (ground arith)
      | inr (recent, known) ↦ ground arith
    ]);
    panics = λ h h' q.
        let (l, same, goes) =
          silent s h h' (elim (Option-cases (x.at_least_1_20 (trim_newline out))) [
            | inl panics ↦ ground arith
            | inr (recent, known) ↦ absurd (ground arith)
          ]) in
        (l, s, same, goes);
  }

  module _ (works : (args : List Text) → step s (command args) ≡ some s) where
    renew_with-Leads : (name : Text) (r : Result Text) → Leads s s (renew_with x name r)
    renew_with-Leads name (err e) = pure-Leads s (some e)
    renew_with-Leads name (ok out) =
        bind-Leads (is_recent-Leads out)
          (λ recent. run-Leads x.shell s (renew_command recent name) (works _))

    rotate_certificate-Leads : (name : Text) → Leads s s (rotate_certificate x name)
    unfolding rotate_certificate
    rotate_certificate-Leads name =
        bind-Leads (output-Leads x.shell s version_command (works _)) (renew_with-Leads name)

    rotate_unless-Leads : (name : Text) (o : Option Error) → Leads s s (rotate_unless x name o)
    rotate_unless-Leads name (some e) = pure-Leads s (some e)
    rotate_unless-Leads name none = rotate_certificate-Leads name

    backup_certificate-Leads : (path : Text) → Leads s s (backup_certificate x path)
    unfolding backup_certificate
    backup_certificate-Leads path = record {
      leads = λ h h' a q.
          (run-Leads x.shell s (copy_command path (backup_path path (x.local_time h.world)))
              (works _)).leads
            h h' a q;
      panics = λ h h' q.
          (run-Leads x.shell s (copy_command path (backup_path path (x.local_time h.world)))
              (works _)).panics
            h h' q;
    }

    rotate_one-Leads : (name path : Text) → Leads s s (rotate_one x name path)
    unfolding rotate_one
    rotate_one-Leads name path =
        bind-Leads (backup_certificate-Leads path) (rotate_unless-Leads name)

    rotate_loop-Leads :
        (names : List Text) (errs : Option Error) → Leads s s (rotate_loop x names errs)
    unfolding rotate_loop
    rotate_loop-Leads [] errs = pure-Leads s errs
    rotate_loop-Leads (name ∷ names) errs = elim (Option-cases (certificate_path name)) [
      | inl unknown ↦ rw (unknown, rotate_loop) (rotate_loop-Leads names errs)
      | inr (path, known) ↦
          rw (known, rotate_loop)
            (bind-Leads (rotate_one-Leads name path) (λ e. rotate_loop-Leads names (noted errs e)))
    ]

    restart_unless-Leads : (o : Option Error) → Leads s s (restart_unless x o)
    unfolding restart_kubelet
    restart_unless-Leads (some e) = pure-Leads s (some e)
    restart_unless-Leads none =
        bind-Leads (run-Leads x.shell s restart_command (works _))
          (λ e. pure-Leads s (noted none e))

    -- `Rotate` stays in a stage that allows every command.
    pub rotate-Leads : (names : List Text) → Leads s s (rotate x names)
    unfolding rotate
    rotate-Leads names = bind-Leads (rotate_loop-Leads names none) restart_unless-Leads

  collect_expiring-Leads :
      (d : Duration) (m : Expiries) (found : List Text) → Leads s s (collect_expiring x d m found)
  unfolding collect_expiring
  collect_expiring-Leads d [] found = pure-Leads s found
  collect_expiring-Leads d ((cert, t) ∷ m) found = record {
    leads = λ h h' a q.
        (let r = check_certificate_expiry x.clock t d h.world in
            collect_expiring-Leads d m (if r.expires then found ++ (cert ∷ []) else found)).leads
          (record h { world = (check_certificate_expiry x.clock t d h.world).world }) h' a q;
    panics = λ h h' q.
        (let r = check_certificate_expiry x.clock t d h.world in
            collect_expiring-Leads d m (if r.expires then found ++ (cert ∷ []) else found)).panics
          (record h { world = (check_certificate_expiry x.clock t d h.world).world }) h' q;
  }

reads_version : step free (command version_command) ≡ some free
unfolding step is_reading
reads_version = ground arith

reads_check : (recent : Bool) → step free (command (check_command recent)) ≡ some free
unfolding step is_reading
reads_check true = ground arith
reads_check false = ground arith

module _ {W : Type 0} (x : Tools W) (d : Duration) where
  expiring_of-Leads : (r : Result Text) → Leads free free (expiring_of x d r)
  expiring_of-Leads (err e) = pure-Leads free ([], some e)
  expiring_of-Leads (ok stdout) =
      bind-Leads
        (collect_expiring-Leads x free d (x.range (parse_check_expiration x.parse_time stdout)) [])
        (λ found. pure-Leads free (found, none))

  check_with-Leads : (r : Result Text) → Leads free free (check_with x d r)
  check_with-Leads (err e) = pure-Leads free ([], some e)
  check_with-Leads (ok out) = bind-Leads (is_recent-Leads x free out) (λ recent.
      bind-Leads (output-Leads x.shell free (check_command recent) (reads_check recent))
        expiring_of-Leads)

  -- `CheckExpiration` only asks.
  pub check_expiration-Leads : Leads free free (check_expiration x d)
  unfolding check_expiration
  check_expiration-Leads =
      bind-Leads (output-Leads x.shell free version_command reads_version) check_with-Leads
