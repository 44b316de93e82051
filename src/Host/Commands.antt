-- ===== src/Host/Commands.antt =====
-- pkg/host/command.go and pkg/host/kubelet.go. Where a command's output is logged is left out.
use kucero.Base.{Text, List, [], ◌∷◌, Option, none, some, bytes}
use kucero.Api.Error.{Error, Result, ok, err}
use kucero.Host.Run.{Exec, done, emit, command}

-- What running a command leaves: its standard output, its error, and the world after it.
pub record Reply (W : Type 0) : Type 0 where
  pub stdout : Text
  pub error : Option Error
  pub world : W

pub record Shell (W : Type 0) : Type 0 where
  pub exec : List Text → W → Reply W

abbrev pub nsenter : List Text → List Text
nsenter args = bytes "/usr/bin/nsenter" ∷ bytes "-m/proc/1/ns/mnt" ∷ args

unfoldable pub restart_command : List Text
restart_command = nsenter (bytes "/usr/bin/systemctl" ∷ bytes "restart" ∷ bytes "kubelet" ∷ [])

module _ {W : Type 0} (x : Shell W) where
  -- `NewCommand(...).Run()`
  unfoldable pub run : List Text → Exec W (Option Error)
  run args h =
      let r = x.exec args h.world in
      (done r.error, emit (command args) (record h { world = r.world }))

  -- The output counts only without an error.
  abbrev pub output_of : Reply W → Result Text
  output_of r = elim r.error [ none ↦ ok r.stdout | some e ↦ err e ]

  -- `NewCommandWithStdout(...).Output()`
  unfoldable pub output : List Text → Exec W (Result Text)
  output args h =
      let r = x.exec args h.world in
      (done (output_of r), emit (command args) (record h { world = r.world }))

  unfoldable pub restart_kubelet : Exec W (Option Error)
  unfolding run
  restart_kubelet = run restart_command
