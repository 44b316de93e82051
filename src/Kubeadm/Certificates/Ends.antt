-- ===== src/Kubeadm/Certificates/Ends.antt =====
-- How the operations of `Kubeadm` in pkg/pki/cert/kubeadm end.
use kucero.Base.{
  Text, ◌≡◌, refl, inl, inr, Bool, Option, none, some, List, [], ◌∷◌, text_eq, Option-cases,
}
use kucero.Api.Time.{Duration}
use kucero.Api.Error.{Error, noted, Result, ok, err}
use kucero.Host.Run.{Exec, ◌>>=◌}
use kucero.Host.Commands.{output, restart_kubelet, restart_command}
use kucero.Kubeadm.Table.{Expiries, parse_check_expiration}
use kucero.Kubeadm.Certificates.{
  Tools, trim_newline, version_command, check_command, renew_command, is_recent, renew_with,
  rotate_certificate, backup_certificate, rotate_unless, rotate_one, rotate_loop, restart_unless,
  rotate, certificate_path, collect_expiring, expiring_of, check_with, check_expiration,
}
use kucero.Host.Ends.{Ends, pure-Ends, bind-Ends, run-Ends, output-Ends}

-- What `kubeadm version` prints, when it does not fail, is a version.
abbrev pub PrintsVersion : {W : Type 0} → Tools W → W → Type 0
PrintsVersion x w =
    (x.shell.exec version_command w).error ≡ none
    → (b : Bool) × (x.at_least_1_20 (trim_newline (x.shell.exec version_command w).stdout) ≡ some b)

module _ {W : Type 0} (x : Tools W) (prints : (w : W) → PrintsVersion x w) where
  version-Ends :
      {A : Type 0} (k : Result Text → Exec W A)
      → ((e : Error) → Ends (k (err e)))
      → ((out : Text) (b : Bool) → x.at_least_1_20 (trim_newline out) ≡ some b → Ends (k (ok out)))
      → Ends (output x.shell version_command >>= k)
  unfolding output
  version-Ends k failed printed = record {
    ends = λ h.
        let r = x.shell.exec version_command h.world in
        elim (Option-cases r.error) [
          | inl fine ↦
              let (b, known) = prints h.world fine in rw fine ((printed r.stdout b known).ends _)
          | inr (e, bad) ↦ rw bad ((failed e).ends _)
        ];
  }

  is_recent-Ends :
      (out : Text) (b : Bool) → x.at_least_1_20 (trim_newline out) ≡ some b → Ends (is_recent x out)
  is_recent-Ends out b known = record { ends = λ h. (b, h, rw (known, is_recent) refl) }

  rotate_certificate-Ends : (name : Text) → Ends (rotate_certificate x name)
  unfolding rotate_certificate
  rotate_certificate-Ends name =
      version-Ends (renew_with x name) (λ e. pure-Ends (some e))
        (λ out b known.
          bind-Ends (is_recent-Ends out b known)
            (λ recent. run-Ends x.shell (renew_command recent name)))

  rotate_unless-Ends : (name : Text) (o : Option Error) → Ends (rotate_unless x name o)
  rotate_unless-Ends name (some e) = pure-Ends (some e)
  rotate_unless-Ends name none = rotate_certificate-Ends name

  backup_certificate-Ends : (path : Text) → Ends (backup_certificate x path)
  unfolding backup_certificate
  backup_certificate-Ends path = record { ends = λ h. (run-Ends x.shell _).ends h }

  rotate_one-Ends : (name path : Text) → Ends (rotate_one x name path)
  unfolding rotate_one
  rotate_one-Ends name path = bind-Ends (backup_certificate-Ends path) (rotate_unless-Ends name)

  rotate_loop-Ends : (names : List Text) (errs : Option Error) → Ends (rotate_loop x names errs)
  unfolding rotate_loop
  rotate_loop-Ends [] errs = pure-Ends errs
  rotate_loop-Ends (name ∷ names) errs = elim (Option-cases (certificate_path name)) [
    | inl unknown ↦ rw (unknown, rotate_loop) (rotate_loop-Ends names errs)
    | inr (path, known) ↦
        rw (known, rotate_loop)
          (bind-Ends (rotate_one-Ends name path) (λ e. rotate_loop-Ends names (noted errs e)))
  ]

  restart_unless-Ends : (o : Option Error) → Ends (restart_unless x o)
  unfolding restart_kubelet
  restart_unless-Ends (some e) = pure-Ends (some e)
  restart_unless-Ends none =
      bind-Ends (run-Ends x.shell restart_command) (λ e. pure-Ends (noted none e))

  pub rotate-Ends : (names : List Text) → Ends (rotate x names)
  unfolding rotate
  rotate-Ends names = bind-Ends (rotate_loop-Ends names none) restart_unless-Ends

  collect_expiring-Ends :
      (d : Duration) (m : Expiries) (found : List Text) → Ends (collect_expiring x d m found)
  unfolding collect_expiring
  collect_expiring-Ends d [] found = pure-Ends found
  collect_expiring-Ends d ((cert, t) ∷ m) found = record {
    ends = λ h. (collect_expiring-Ends d m _).ends _;
  }

  expiring_of-Ends : (d : Duration) (r : Result Text) → Ends (expiring_of x d r)
  expiring_of-Ends d (err e) = pure-Ends ([], some e)
  expiring_of-Ends d (ok stdout) =
      bind-Ends (collect_expiring-Ends d (x.range (parse_check_expiration x.parse_time stdout)) [])
        (λ found. pure-Ends (found, none))

  pub check_expiration-Ends : (d : Duration) → Ends (check_expiration x d)
  unfolding check_expiration
  check_expiration-Ends d =
      version-Ends (check_with x d) (λ e. pure-Ends ([], some e))
        (λ out b known.
          bind-Ends (is_recent-Ends out b known)
            (λ recent. bind-Ends (output-Ends x.shell (check_command recent)) (expiring_of-Ends d)))
