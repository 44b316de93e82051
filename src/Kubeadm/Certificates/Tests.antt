-- ===== src/Kubeadm/Certificates/Tests.antt =====
-- A machine on which every command succeeds.
use kucero.Base.{
  Text, ◌≡◌, ◌↔◌, refl, true, none, Option, List, [], ◌∷◌, ◌++◌, bytes, text_eq, nat_eq, words_eq,
  contains, any, length,
}
use mathlib.Core.List.Perm.{refl as Perm_refl}
use kucero.Api.Time.{minutes}
use kucero.Api.Error.{Error}
use kucero.Host.Run.{Effect, command, Host, done}
use kucero.Host.Commands.{restart_command, output}
use kucero.Kubeadm.Table.{parse_check_expiration}
use kucero.Kubeadm.Certificates.{
  certificate_path, trim_newline, version_command, check_command, copy_command, renew_command,
  rotate, rotate_one, check_expiration,
}
use kucero.Kubeadm.Certificates.Success.{Renewed}
use kucero.Kubeadm.Certificates.Rotate.{rotate_unknown}
use kucero.Kubeadm.Certificates.Exact.{rotate_iff}
use kucero.Kubeadm.Certificates.Attempts.{Rounds, Closing, rotate-Rounds}
use kucero.Kubeadm.Certificates.Expiration.{is_due, check_expiration_lem}
use kucero.Kubeadm.Backup.{backup_path}
use kucero.Samples.{faulty_tools, machine, kubeadm_tools, idle, table_text}

-- What a rotation of a certificate leaves, after an authority was passed over.
abbrev rotated : Host Unit
rotated = (rotate kubeadm_tools (bytes "ca" ∷ bytes "apiserver" ∷ []) idle).1

rotate_iff_example :
    (rotate kubeadm_tools (bytes "ca" ∷ bytes "apiserver" ∷ []) idle ≡ (done none, rotated)) ↔ (
      (l : List Effect) × (w : Unit) × (rotated.effects
        ≡ [] ++ (l ++ (command restart_command ∷ [])))
      × Renewed kubeadm_tools tt (bytes "ca" ∷ bytes "apiserver" ∷ []) l w
      × ((kubeadm_tools.shell.exec restart_command w).error ≡ none)
      × (rotated.world ≡ (kubeadm_tools.shell.exec restart_command w).world))
rotate_iff_example = rotate_iff kubeadm_tools (bytes "ca" ∷ bytes "apiserver" ∷ []) idle rotated

renews_one : rotate kubeadm_tools (bytes "ca" ∷ bytes "apiserver" ∷ []) idle ≡ (done none, rotated)
unfolding rotate certificate_path text_eq nat_eq rotate_one output
renews_one = refl

rotate_unknown_example :
    (rotate kubeadm_tools (bytes "ca" ∷ bytes "etcd-ca" ∷ []) idle).1.effects
    ≡ [] ++ (command restart_command ∷ [])
unfolding certificate_path text_eq nat_eq
rotate_unknown_example =
    rotate_unknown kubeadm_tools (bytes "ca" ∷ bytes "etcd-ca" ∷ []) idle (refl, (refl, tt))

check_expiration_lem_example :
    (names : List Text) × (h' : Host Unit) × (check_expiration kubeadm_tools (minutes 10) idle
      ≡ (done (names, none), h'))
    × (h'.effects ≡ [] ++ (command version_command ∷ command (check_command true) ∷ []))
    × (contains names (bytes "apiserver")
        ≡ any
            (is_due (minutes 10) (minutes 1) (bytes "apiserver"))
            (parse_check_expiration kubeadm_tools.parse_time table_text))
unfolding trim_newline nat_eq text_eq words_eq check_command parse_check_expiration version_command
    check_expiration
check_expiration_lem_example =
    check_expiration_lem kubeadm_tools (minutes 10) (minutes 1) (λ w. refl) idle
      (machine.exec version_command tt) (machine.exec (check_command true) tt) true
      (bytes "apiserver") Perm_refl refl refl refl refl refl

abbrev two_names : List Text
two_names = bytes "admin.conf" ∷ bytes "apiserver" ∷ []

rotate-Rounds_example :
    (errs o : Option Error) × (h₁ h' : Host Unit) × (l end : List Effect) × (rotate faulty_tools
        two_names idle
      ≡ (done o, h'))
    × (h'.effects ≡ [] ++ (l ++ end))
    × Rounds faulty_tools tt two_names none l errs h₁.world
    × Closing faulty_tools h₁.world errs end o h'.world
rotate-Rounds_example = rotate-Rounds faulty_tools (λ w fine. (true, refl)) two_names idle

-- The second certificate is renewed after the first could not be copied.
goes_on : length (rotate faulty_tools two_names idle).1.effects ≡ 4
unfolding rotate certificate_path text_eq nat_eq rotate_one output words_eq version_command
    copy_command backup_path renew_command
goes_on = refl
