-- ===== src/Kubeadm/Certificates/Machine.antt =====
-- A machine whose kubeadm does what the commands of pkg/pki/cert/kubeadm say, and what the rounds of
-- `Rotate` make of the certificates that are due there.
use kucero.Base.{
  Text, ◌≡◌, refl, Bool, true, false, Option, none, some, List, any, contains, text_eq, ◌==◌, arith,
  Bool-cases, inl, inr, All,
}
use mathlib.Core.Path.{subst}
use kucero.Api.Time.{Time, Duration}
use kucero.Api.Error.{Error}
use kucero.Host.Run.{Effect}
use kucero.Host.Commands.{restart_command}
use kucero.Kubeadm.Table.{parse_check_expiration}
use kucero.Kubeadm.Certificates.{
  certificate_path, Tools, copy_command, version_command, renew_command, check_command,
}
use kucero.Kubeadm.Certificates.Attempts.{Round, Rounds, Closing}
use kucero.Kubeadm.Certificates.Expiration.{is_due}

-- The commands that `Kubeadm` runs.
pub data IsOwn : List Text → Type 0 where
  copies : (path copy : Text) → IsOwn (copy_command path copy)
  asks_version : IsOwn version_command
  asks_check : (recent : Bool) → IsOwn (check_command recent)
  renews_one : (recent : Bool) (name : Text) → IsOwn (renew_command recent name)
  restarts : IsOwn restart_command

-- The table knows the path of each name.
abbrev pub AreKnown : List Text → Type 0
AreKnown names = All (λ n. (path : Text) × (certificate_path n ≡ some path)) names

module _ {W : Type 0} (x : Tools W) (d : Duration) (tn : Time) where
  -- `due` tells which certificates of the machine are due: kubeadm prints it, a renewal that succeeds
  -- ends it, and no command that is run begins it.
  pub record IsKubeadm (due : W → Text → Bool) : Type 0 where
    pub prints :
        (w : W) (recent : Bool) (name : Text)
        → (x.shell.exec (check_command recent) w).error ≡ none
        → any
            (is_due d tn name)
            (parse_check_expiration x.parse_time (x.shell.exec (check_command recent) w).stdout)
          ≡ due w name
    pub renews :
        (w : W) (recent : Bool) (name : Text)
        → (x.shell.exec (renew_command recent name) w).error ≡ none
        → due (x.shell.exec (renew_command recent name) w).world name ≡ false
    pub keeps :
        (w : W) (args : List Text) (name : Text)
        → IsOwn args
        → due w name ≡ false
        → due (x.shell.exec args w).world name ≡ false

  module _ (due : W → Text → Bool) (good : IsKubeadm due) where
    -- What is not due stays so.
    abbrev pub Stays : W → W → Type 0
    Stays w w' = (n : Text) → due w n ≡ false → due w' n ≡ false

    Round-Stays :
        {w : W} {name path : Text} {l : List Effect} {e : Option Error} {w' : W}
        → Round x w name path l e w'
        → Stays w w'
    Round-Stays {w = w} {path = path} (Round.not_copied e bad) n fine =
        good.keeps _ _ n (IsOwn.copies path _) fine
    Round-Stays {w = w} {path = path} (Round.no_version e copied bad) n fine =
        good.keeps _ _ n IsOwn.asks_version (good.keeps _ _ n (IsOwn.copies path _) fine)
    Round-Stays {w = w} {name = name} {path = path} (Round.tried recent copied asked known) n fine =
        good.keeps _ _ n (IsOwn.renews_one recent name)
          (good.keeps _ _ n IsOwn.asks_version (good.keeps _ _ n (IsOwn.copies path _) fine))

    Round-renewed :
        {w : W} {name path : Text} {l : List Effect} {e : Option Error} {w' : W}
        → Round x w name path l e w'
        → e ≡ none
        → due w' name ≡ false
    Round-renewed (Round.not_copied e bad) fine = absurd (ground arith)
    Round-renewed (Round.no_version e copied bad) fine = absurd (ground arith)
    Round-renewed {name = name} (Round.tried recent copied asked known) fine =
        good.renews _ recent name fine

    pub Rounds-Stays :
        {w w' : W} {names : List Text} {errs r : Option Error} {l : List Effect}
        → Rounds x w names errs l r w'
        → Stays w w'
    Rounds-Stays Rounds.finished n fine = fine
    Rounds-Stays (Rounds.passed_over unknown rest) n fine = Rounds-Stays rest n fine
    Rounds-Stays (Rounds.attempted known round rest) n fine =
        Rounds-Stays rest n (Round-Stays round n fine)

    Rounds-some :
        {w w' : W} {names : List Text} {errs r : Option Error} {l : List Effect} (e : Error)
        → Rounds x w names errs l r w'
        → errs ≡ some e
        → r ≡ none
        → ⊥
    Rounds-some e Rounds.finished had none_left = absurd (cc)
    Rounds-some e (Rounds.passed_over unknown rest) had none_left = Rounds-some e rest had none_left
    Rounds-some e (Rounds.attempted {e = none} known round rest) had none_left =
        Rounds-some e rest had none_left
    Rounds-some e (Rounds.attempted {e = some e'} known round rest) had none_left =
        Rounds-some _ rest refl none_left

    -- Rounds that end without an error renewed each name that they have.
    pub Rounds-renewed :
        {w w' : W} {names : List Text} {errs r : Option Error} {l : List Effect} (n : Text)
        → Rounds x w names errs l r w'
        → r ≡ none
        → AreKnown names
        → contains names n ≡ true
        → due w' n ≡ false
    Rounds-renewed n Rounds.finished fine known listed = absurd (ground arith)
    Rounds-renewed n (Rounds.passed_over unknown rest) fine ((path, has), known) listed =
        absurd (cc)
    Rounds-renewed n
          (Rounds.attempted {w₁ = w₁} {name = m} {names = names} {e = some e} has round rest) fine
          known listed =
        absurd (Rounds-some _ rest refl fine)
    Rounds-renewed n
          (Rounds.attempted {w₁ = w₁} {name = m} {names = names} {e = none} has round rest) fine
          (_, known) listed =
        elim (Bool-cases (n == m)) [
          | inl same ↦
              let e : m ≡ n = ground arith in
              Rounds-Stays rest n (subst (λ k. due w₁ k ≡ false) e (Round-renewed round refl))
          | inr other ↦ Rounds-renewed n rest fine known (ground arith)
        ]

    pub Closing-Stays :
        {w : W} {errs : Option Error} {l : List Effect} {o : Option Error} {w' : W}
        → Closing x w errs l o w'
        → o ≡ none
        → (errs ≡ none) × Stays w w'
    Closing-Stays (Closing.kept e) fine = absurd (cc)
    Closing-Stays Closing.restarted fine = (refl, λ n f. good.keeps _ _ n IsOwn.restarts f)
