-- ===== src/Kubeadm/Backup/Tests.antt =====
-- The backup of a certificate.
use kucero.Base.{Text, ◌≡◌, refl, ◌∷◌, ◌++◌, bytes, text_eq, nat_eq, ◌+◌}
use kucero.Kubeadm.Backup.{dot, join, Civil, hour_12, stamp, backup_path}
use kucero.Kubeadm.Backup.Laws.{backup_path_form, backup_path_collides}

abbrev crt : Text
crt = bytes "/etc/kubernetes/pki/apiserver.crt"

abbrev morning : Civil
morning = record { year = 2020; month = 5; day = 12; hour = 3; minute = 4; second = 5 }

stamp_runs : stamp morning ≡ bytes "20200512030405"
unfolding stamp hour_12 nat_eq
stamp_runs = refl

morning_form :
    backup_path
      (join (bytes "/etc/kubernetes/pki") (bytes "apiserver" ++ (dot ∷ bytes "crt")))
      morning
    ≡ join (bytes "/etc/kubernetes/pki") (
        bytes "apiserver"
        ++ (bytes "-" ++ (stamp morning ++ ((dot ∷ bytes "crt") ++ bytes ".bak"))))
unfolding nat_eq
morning_form =
    backup_path_form (bytes "/etc/kubernetes/pki") (bytes "apiserver") (bytes "crt") morning refl
      refl

backup_path_collides_example :
    backup_path crt morning ≡ backup_path crt (record morning { hour = 3 + 12 })
backup_path_collides_example = backup_path_collides crt morning
