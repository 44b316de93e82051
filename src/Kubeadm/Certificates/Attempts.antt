-- ===== src/Kubeadm/Certificates/Attempts.antt =====
-- What the loop of `Rotate` in pkg/pki/cert/kubeadm/kubeadm.go tries for each name, whatever fails.
use kucero.Base.{
  Text, ◌≡◌, refl, sym, ap, ◌∙◌, Bool, Option, none, some, List, [], ◌∷◌, ◌++◌, arith, Option-cases,
  append_trans, inl, inr,
}
use mathlib.Core.List.{append-nil, append_assoc}
use kucero.Api.Error.{Error, noted}
use kucero.Host.Run.{Effect, command, Host, done, after}
use kucero.Host.Commands.{restart_command, run, output, restart_kubelet}
use kucero.Kubeadm.Certificates.{
  certificate_path, trim_newline, Tools, version_command, renew_command, rotate_one, rotate_loop,
  restart_unless, rotate,
}
use kucero.Kubeadm.Certificates.Success.{copying, copied, asked}
use kucero.Kubeadm.Certificates.Rotate.{loop_unknown, loop_known, rounds}
use kucero.Kubeadm.Certificates.Ends.{PrintsVersion}

module _ {W : Type 0} (x : Tools W) where
  -- What is done for a name with a path, its commands, its error and the world it leaves.
  pub data Round (w : W) (name path : Text) : List Effect → Option Error → W → Type 0 where
    not_copied :
        (e : Error)
        → (x.shell.exec (copying x w path) w).error ≡ some e
        → Round w name path (command (copying x w path) ∷ []) (some e) (copied x w path)
    no_version :
        (e : Error)
        → (x.shell.exec (copying x w path) w).error ≡ none
        → (x.shell.exec version_command (copied x w path)).error ≡ some e
        → Round w name path
            (command (copying x w path) ∷ command version_command ∷ [])
            (some e)
            (asked x w path)
    tried :
        (recent : Bool)
        → (x.shell.exec (copying x w path) w).error ≡ none
        → (x.shell.exec version_command (copied x w path)).error ≡ none
        → x.at_least_1_20 (trim_newline (x.shell.exec version_command (copied x w path)).stdout)
          ≡ some recent
        → Round w name path
            (command (copying x w path)
              ∷ command version_command
              ∷ command (renew_command recent name)
              ∷ [])
            (x.shell.exec (renew_command recent name) (asked x w path)).error
            (x.shell.exec (renew_command recent name) (asked x w path)).world

  -- The rounds of the names that the table has, in order, from the error noted so far to the one
  -- noted at the end. A round that fails does not stop the next.
  pub data Rounds : W → List Text → Option Error → List Effect → Option Error → W → Type 0 where
    finished : {w : W} {errs : Option Error} → Rounds w [] errs [] errs w
    passed_over :
        {w w' : W} {name : Text} {names : List Text} {errs r : Option Error} {l : List Effect}
        → certificate_path name ≡ none
        → Rounds w names errs l r w'
        → Rounds w (name ∷ names) errs l r w'
    attempted :
        {w w₁ w' : W} {name path : Text} {names : List Text} {errs e r : Option Error}
        {l₁ l : List Effect}
        → certificate_path name ≡ some path
        → Round w name path l₁ e w₁
        → Rounds w₁ names (noted errs e) l r w'
        → Rounds w (name ∷ names) errs (l₁ ++ l) r w'

  -- The end: an error that was noted is returned, and without one the kubelet is restarted.
  pub data Closing (w : W) : Option Error → List Effect → Option Error → W → Type 0 where
    kept : (e : Error) → Closing w (some e) [] (some e) w
    restarted :
        Closing w none
          (command restart_command ∷ [])
          (noted none (x.shell.exec restart_command w).error)
          (x.shell.exec restart_command w).world

  module _ (prints : (w : W) → PrintsVersion x w) where
    rotate_one-Round :
        (name path : Text) (h : Host W)
        → (e : Option Error) × (h' : Host W) × (l : List Effect) × (rotate_one x name path h
            ≡ (done e, h'))
          × (h'.effects ≡ h.effects ++ l)
          × Round h.world name path l e h'.world
    unfolding rotate_one run output
    rotate_one-Round name path h =
        let w = h.world in
        let copy = command (copying x w path) in
        let ask = command version_command in
        elim (Option-cases (x.shell.exec (copying x w path) w).error) [
          | inr (e, bad) ↦ (
            some e,
            record { world = copied x w path; effects = h.effects ++ (copy ∷ []) },
            copy ∷ [],
            ground (arith),
            refl,
            not_copied e bad,
          )
          | inl copies ↦
              elim (Option-cases (x.shell.exec version_command (copied x w path)).error) [
                | inr (e, bad) ↦ (
                  some e,
                  record {
                    world = asked x w path;
                    effects = (h.effects ++ (copy ∷ [])) ++ (ask ∷ []);
                  },
                  copy ∷ ask ∷ [],
                  ground (arith),
                  append_assoc h.effects (copy ∷ []) (ask ∷ []),
                  no_version e copies bad,
                )
                | inl answers ↦
                    let (recent, known) = prints (copied x w path) answers in
                    let renew = command (renew_command recent name) in
                    let last = x.shell.exec (renew_command recent name) (asked x w path) in
                    (
                      last.error,
                      record {
                        world = last.world;
                        effects = ((h.effects ++ (copy ∷ [])) ++ (ask ∷ [])) ++ (renew ∷ []);
                      },
                      copy ∷ ask ∷ renew ∷ [],
                      ground (arith),
                      ground (
                        arith,
                        append_assoc h.effects (copy ∷ []) (ask ∷ []),
                        append_assoc h.effects (copy ∷ ask ∷ []) (renew ∷ []),
                      ),
                      tried recent copies answers known,
                    )
              ]
        ]

    rotate_loop-Rounds :
        (names : List Text) (errs : Option Error) (h : Host W)
        → (r : Option Error) × (h' : Host W) × (l : List Effect) × (rotate_loop x names errs h
            ≡ (done r, h'))
          × (h'.effects ≡ h.effects ++ l)
          × Rounds h.world names errs l r h'.world
    rotate_loop-Rounds [] errs h =
        (errs, h, [], unfold rotate_loop in refl, sym (append-nil h.effects), finished)
    rotate_loop-Rounds (name ∷ names) errs h = elim (Option-cases (certificate_path name)) [
      | inl unknown ↦
          let (r, h', l, ran, same, rest) = rotate_loop-Rounds names errs h in
          (r, h', l, loop_unknown x name names errs h unknown ∙ ran, same, passed_over unknown rest)
      | inr (path, known) ↦
          let (e, h₁, l₁, first, same₁, round) = rotate_one-Round name path h in
          let (r, h', l, ran, same, rest) = rotate_loop-Rounds names (noted errs e) h₁ in
          (
            r,
            h',
            l₁ ++ l,
            loop_known x name path names errs h known
                ∙ ap (λ p. after p (rounds x names errs)) first
                ∙ ran,
            append_trans h.effects l₁ l same₁ same,
            attempted known round rest,
          )
    ]

    rotate_close :
        (r : Option Error) (h : Host W)
        → (o : Option Error) × (h' : Host W) × (l : List Effect) × (restart_unless x r h
            ≡ (done o, h'))
          × (h'.effects ≡ h.effects ++ l)
          × Closing h.world r l o h'.world
    unfolding restart_kubelet run
    rotate_close (some e) h = (some e, h, [], refl, sym (append-nil h.effects), kept e)
    rotate_close none h =
        let last = x.shell.exec restart_command h.world in
        (
          noted none last.error,
          record { world = last.world; effects = h.effects ++ (command restart_command ∷ []) },
          command restart_command ∷ [],
          refl,
          refl,
          restarted,
        )

    -- Where the version command prints a version unless it fails, `Rotate` ends on all inputs. Each name that the table
    -- has is tried in order, whatever failed before it: the certificate is copied, the version is asked
    -- for if the copy worked, and the renewal is run if the version came. The error that counts is
    -- that of the last round that failed. With one, it is returned and the kubelet is left alone;
    -- without, the kubelet is restarted and its error returned.
    pub rotate-Rounds :
        (names : List Text) (h : Host W)
        → (errs o : Option Error) × (h₁ h' : Host W) × (l end : List Effect) × (rotate x names h
            ≡ (done o, h'))
          × (h'.effects ≡ h.effects ++ (l ++ end))
          × Rounds h.world names none l errs h₁.world
          × Closing h₁.world errs end o h'.world
    unfolding rotate
    rotate-Rounds names h =
        let (errs, h₁, l, ran, same, rounds_done) = rotate_loop-Rounds names none h in
        let (o, h', end, closes, same', closing) = rotate_close errs h₁ in
        (
          errs,
          o,
          h₁,
          h',
          l,
          end,
          rw ran closes,
          append_trans h.effects l end same same',
          rounds_done,
          closing,
        )
