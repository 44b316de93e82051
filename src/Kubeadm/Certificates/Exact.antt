-- ===== src/Kubeadm/Certificates/Exact.antt =====
-- Exactly when `Rotate` of pkg/pki/cert/kubeadm/kubeadm.go succeeds, and what it did then.
use kucero.Base.{Text, ◌≡◌, sym, ap, ◌∙◌, ◌↔◌, Bool, none, List, [], ◌∷◌, ◌++◌, arith}
use mathlib.Core.List.{append-nil, append_assoc}
use kucero.Host.Run.{Effect, command, Host, done, after}
use kucero.Host.Commands.{restart_command, restart_kubelet, run, output}
use kucero.Kubeadm.Certificates.{
  Tools, version_command, renew_command, rotate_one, rotate_loop, restart_unless, rotate,
}
use kucero.Kubeadm.Certificates.Success.{
  renewal, copying, asked, Succeeds, Renewed, finished, skipped, renewed,
}
use kucero.Kubeadm.Certificates.Rotate.{loop_unknown, loop_known, rounds, rotate-Renewed}

module _ {W : Type 0} (x : Tools W) where
  Succeeds-rotate_one :
      (w : W) (name path : Text) (recent : Bool) (l : List Effect)
      → Succeeds x w name path recent
      → rotate_one x name path (record { world = w; effects = l }) ≡ (
        done none,
        record {
          world = (x.shell.exec (renew_command recent name) (asked x w path)).world;
          effects = l ++ renewal name path (x.local_time w) recent [];
        },
      )
  unfolding rotate_one run output
  Succeeds-rotate_one w name path recent l s =
      let copy = command (copying x w path) in
      let ask = command version_command in
      let renew = command (renew_command recent name) in
      ground (
        arith,
        s.copies,
        s.answers,
        s.version,
        s.renews,
        append_assoc l (copy ∷ []) (ask ∷ []),
        append_assoc l (copy ∷ ask ∷ []) (renew ∷ []),
      )

  Renewed-rotate_loop :
      {w : W} {names : List Text} {done_effects : List Effect} {w' : W} (l : List Effect)
      → Renewed x w names done_effects w'
      → rotate_loop x names none (record { world = w; effects = l })
        ≡ (done none, record { world = w'; effects = l ++ done_effects })
  Renewed-rotate_loop {w} l finished =
      unfold rotate_loop in
      ap (λ (e : List Effect). (done none, record { world = w; effects = e })) (sym (append-nil l))
  Renewed-rotate_loop {w} l (skipped {name = name} {names = names} unknown rest) =
      loop_unknown x name names none (record { world = w; effects = l }) unknown
      ∙ Renewed-rotate_loop l rest
  Renewed-rotate_loop {w} {w' = w'} l
        (renewed {name = name} {names = names} {l = l'} path recent known fine rest) =
      let own = renewal name path (x.local_time w) recent [] in
      loop_known x name path names none (record { world = w; effects = l }) known
      ∙ ap (λ r. after r (rounds x names none)) (Succeeds-rotate_one w name path recent l fine)
      ∙ Renewed-rotate_loop (l ++ own) rest
      ∙ ap (λ (e : List Effect). (done none, record { world = w'; effects = e }))
          (append_assoc l own l')

  Renewed-rotate :
      (names : List Text) (h h' : Host W) (l : List Effect) (w : W)
      → h'.effects ≡ h.effects ++ (l ++ (command restart_command ∷ []))
      → Renewed x h.world names l w
      → (x.shell.exec restart_command w).error ≡ none
      → h'.world ≡ (x.shell.exec restart_command w).world
      → rotate x names h ≡ (done none, h')
  unfolding rotate restart_kubelet run
  Renewed-rotate names h h' l w did all fine there =
      ap (λ r. after r (restart_unless x)) (Renewed-rotate_loop h.effects all)
      ∙ ground (arith, did, fine, there, append_assoc h.effects l (command restart_command ∷ []))

  -- `Rotate` returns no error exactly if each certificate that is named and that the table has is
  -- copied to its backup with success and then renewed with success, by the command of the version
  -- that kubeadm prints, in the order of the names, each command in the world that the one before
  -- left, and if the kubelet is restarted with success after that. These commands are then all that
  -- was done; the names that the table lacks are passed over.
  pub rotate_iff :
      (names : List Text) (h h' : Host W)
      → (rotate x names h ≡ (done none, h')) ↔ (
          (l : List Effect) × (w : W) × (h'.effects
            ≡ h.effects ++ (l ++ (command restart_command ∷ [])))
          × Renewed x h.world names l w
          × ((x.shell.exec restart_command w).error ≡ none)
          × (h'.world ≡ (x.shell.exec restart_command w).world))
  rotate_iff names h h' = (
    rotate-Renewed x names h h',
    λ (l, w, did, all, fine, there). Renewed-rotate names h h' l w did all fine there,
  )
