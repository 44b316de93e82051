-- ===== src/Kubeadm/Certificates/Success.antt =====
-- What it means that a round of `Rotate` in pkg/pki/cert/kubeadm/kubeadm.go succeeds.
use kucero.Base.{Text, ◌≡◌, Bool, none, some, List, [], ◌∷◌}
use kucero.Host.Run.{Effect, command}
use kucero.Kubeadm.Backup.{Civil, backup_path}
use kucero.Kubeadm.Certificates.{
  certificate_path, trim_newline, Tools, copy_command, version_command, renew_command,
}

-- The commands that back up and renew the certificate of a name.
abbrev pub renewal : Text → Text → Civil → Bool → List Effect → List Effect
renewal name path t recent rest =
    command (copy_command path (backup_path path t))
    ∷ command version_command
    ∷ command (renew_command recent name)
    ∷ rest

module _ {W : Type 0} (x : Tools W) where
  -- The copy of a certificate to its backup.
  abbrev pub copying : W → Text → List Text
  copying w path = copy_command path (backup_path path (x.local_time w))

  -- The world after the copy.
  abbrev pub copied : W → Text → W
  copied w path = (x.shell.exec (copying w path) w).world

  -- The world after the version was asked for as well.
  abbrev pub asked : W → Text → W
  asked w path = (x.shell.exec version_command (copied w path)).world

  -- The copy at `w`, the question for the version after it and the renewal by the command of that
  -- version all succeed.
  pub record Succeeds (w : W) (name path : Text) (recent : Bool) : Type 0 where
    pub copies : (x.shell.exec (copying w path) w).error ≡ none
    pub answers : (x.shell.exec version_command (copied w path)).error ≡ none
    pub version :
        x.at_least_1_20 (trim_newline (x.shell.exec version_command (copied w path)).stdout)
        ≡ some recent
    pub renews : (x.shell.exec (renew_command recent name) (asked w path)).error ≡ none

  -- From the one world to the other, each name that the table has was backed up and renewed with
  -- success, in order; the others left no trace.
  pub data Renewed : W → List Text → List Effect → W → Type 0 where
    finished : {w : W} → Renewed w [] [] w
    skipped :
        {w w' : W} {name : Text} {names : List Text} {l : List Effect}
        → certificate_path name ≡ none
        → Renewed w names l w'
        → Renewed w (name ∷ names) l w'
    renewed :
        {w w' : W} {name : Text} {names : List Text} {l : List Effect} (path : Text) (recent : Bool)
        → certificate_path name ≡ some path
        → Succeeds w name path recent
        → Renewed (x.shell.exec (renew_command recent name) (asked w path)).world names l w'
        → Renewed w (name ∷ names) (renewal name path (x.local_time w) recent l) w'
