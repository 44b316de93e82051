-- ===== src/Kubeadm/Certificates/Rotate.antt =====
-- The commands of `Rotate` in pkg/pki/cert/kubeadm/kubeadm.go.
use kucero.Base.{
  Text, ◌≡◌, refl, sym, ◌∙◌, Bool, Option, none, some, List, [], ◌∷◌, ◌++◌, arith, Option-cases,
  append_trans, inl, inr, All,
}
use mathlib.Core.List.{append-nil, append_assoc}
use kucero.Api.Error.{Error, wrap, noted}
use kucero.Host.Run.{Effect, command, Host, Ended, done, after, after-done}
use kucero.Host.Commands.{restart_command, run, output, restart_kubelet}
use kucero.Kubeadm.Certificates.Success.{
  renewal, copying, copied, asked, Succeeds, Renewed, finished, skipped, renewed,
}
use kucero.Kubeadm.Certificates.{
  certificate_path, trim_newline, Tools, version_command, renew_command, rotate_one, rotate_loop,
  rotate, restart_unless,
}

module _ {W : Type 0} (x : Tools W) where
  rotate_one-done :
      (name path : Text) (h h' : Host W)
      → rotate_one x name path h ≡ (done none, h')
      → (recent : Bool) × Succeeds x h.world name path recent
        × (h'.effects ≡ h.effects ++ renewal name path (x.local_time h.world) recent [])
        × (h'.world ≡ (x.shell.exec (renew_command recent name) (asked x h.world path)).world)
  unfolding rotate_one run output
  rotate_one-done name path h h' e =
      let copy = command (copying x h.world path) in
      let ask = command version_command in
      let answer = x.shell.exec version_command (copied x h.world path) in
      elim (Option-cases (x.shell.exec (copying x h.world path) h.world).error) [
        | inr (e', bad) ↦ absurd (ground arith)
        | inl copies ↦ elim (Option-cases answer.error) [
          | inr (e', bad) ↦ absurd (ground arith)
          | inl answers ↦ elim (Option-cases (x.at_least_1_20 (trim_newline answer.stdout))) [
            | inl panics ↦ absurd (ground arith)
            | inr (recent, known) ↦
                let renew = command (renew_command recent name) in
                let last = x.shell.exec (renew_command recent name) (asked x h.world path) in
                let ends : last.error ≡ none = ground arith in
                (
                  recent,
                  record { copies = copies; answers = answers; version = known; renews = ends },
                  ground (
                    arith,
                    append_assoc h.effects (copy ∷ []) (ask ∷ []),
                    append_assoc h.effects (copy ∷ ask ∷ []) (renew ∷ []),
                  ),
                  ground arith,
                )
          ]
        ]
      ]

  -- The rounds after that of a name that the table has.
  abbrev pub rounds :
      List Text → Option Error → Option Error → Host W → Ended (Option Error) × Host W
  rounds names errs e = rotate_loop x names (noted errs e)

  pub loop_unknown :
      (name : Text) (names : List Text) (errs : Option Error) (h : Host W)
      → certificate_path name ≡ none
      → rotate_loop x (name ∷ names) errs h ≡ rotate_loop x names errs h
  unfolding rotate_loop
  loop_unknown name names errs h unknown = rw (unknown, rotate_loop)

  pub loop_known :
      (name path : Text) (names : List Text) (errs : Option Error) (h : Host W)
      → certificate_path name ≡ some path
      → rotate_loop x (name ∷ names) errs h ≡ after (rotate_one x name path h) (rounds names errs)
  unfolding rotate_loop
  loop_known name path names errs h known = rw (known, rotate_loop)

  -- An error that was noted is not forgotten.
  rotate_loop-some :
      (names : List Text) (e : Error) (h h' : Host W)
      → rotate_loop x names (some e) h ≡ (done none, h')
      → ⊥
  unfolding rotate_loop
  rotate_loop-some [] e h h' q = cc
  rotate_loop-some (name ∷ names) e h h' q = elim (Option-cases (certificate_path name)) [
    | inl unknown ↦
        rotate_loop-some names e h h' (sym (loop_unknown name names (some e) h unknown) ∙ q)
    | inr (path, known) ↦
        let (r, h₁, _, q₁) =
          after-done (rotate_one x name path h) (rounds names (some e))
            (sym (loop_known name path names (some e) h known) ∙ q) in
        still r h₁ (λ e' q'. rotate_loop-some names e' h₁ h' q') q₁
  ]
    where
      still :
          (r : Option Error) (h₁ : Host W)
          → ((e' : Error) → rotate_loop x names (some e') h₁ ≡ (done none, h') → ⊥)
          → rounds names (some e) r h₁ ≡ (done none, h')
          → ⊥
      still none h₁ ih p = ih e p
      still (some e') h₁ ih p = ih (wrap "%w; " e') p

  rotate_loop-Renewed :
      (names : List Text) (h h' : Host W)
      → rotate_loop x names none h ≡ (done none, h')
      → (l : List Effect) × (h'.effects ≡ h.effects ++ l) × Renewed x h.world names l h'.world
  rotate_loop-Renewed [] h h' q =
      let same : h ≡ h' = unfold rotate_loop in cc in
      rw (← same) ([], sym (append-nil h.effects), finished)
  rotate_loop-Renewed (name ∷ names) h h' q = elim (Option-cases (certificate_path name)) [
    | inl unknown ↦
        let (l, same, all) =
          rotate_loop-Renewed names h h' (sym (loop_unknown name names none h unknown) ∙ q) in
        (l, same, skipped unknown all)
    | inr (path, known) ↦
        let (r, h₁, p, q₁) =
          after-done (rotate_one x name path h) (rounds names none)
            (sym (loop_known name path names none h known) ∙ q) in
        both r h₁ known p (λ q'. rotate_loop-Renewed names h₁ h' q') q₁
  ]
    where
      both :
          {path : Text} (r : Option Error) (h₁ : Host W)
          → certificate_path name ≡ some path
          → rotate_one x name path h ≡ (done r, h₁)
          → (rotate_loop x names none h₁ ≡ (done none, h')
              → (l : List Effect) × (h'.effects ≡ h₁.effects ++ l)
                × Renewed x h₁.world names l h'.world)
          → rounds names none r h₁ ≡ (done none, h')
          → (l : List Effect) × (h'.effects ≡ h.effects ++ l)
            × Renewed x h.world (name ∷ names) l h'.world
      both (some e) h₁ known p ih q' = absurd (rotate_loop-some names (wrap "%w; " e) h₁ h' q')
      both {path} none h₁ known p ih q' =
          let (l, same, all) = ih q' in
          let (recent, fine, first, next) = rotate_one-done name path h h₁ p in
          let t = x.local_time h.world in
          (
            renewal name path t recent l,
            append_trans h.effects (renewal name path t recent []) l first same,
            renewed path recent known fine (rw (← next) all),
          )

  pub rotate-Renewed :
      (names : List Text) (h h' : Host W)
      → rotate x names h ≡ (done none, h')
      → (l : List Effect) × (w : W) × (h'.effects
          ≡ h.effects ++ (l ++ (command restart_command ∷ [])))
        × Renewed x h.world names l w
        × ((x.shell.exec restart_command w).error ≡ none)
        × (h'.world ≡ (x.shell.exec restart_command w).world)
  unfolding rotate restart_kubelet run
  rotate-Renewed names h h' q =
      let (r, h₁, p, q₁) = after-done (rotate_loop x names none h) (restart_unless x) q in
      last r h₁ p q₁
    where
      last :
          (r : Option Error) (h₁ : Host W)
          → rotate_loop x names none h ≡ (done r, h₁)
          → restart_unless x r h₁ ≡ (done none, h')
          → (l : List Effect) × (w : W) × (h'.effects
              ≡ h.effects ++ (l ++ (command restart_command ∷ [])))
            × Renewed x h.world names l w
            × ((x.shell.exec restart_command w).error ≡ none)
            × (h'.world ≡ (x.shell.exec restart_command w).world)
      last (some e) h₁ p q' = absurd (cc)
      last none h₁ p q' =
          let (l, same, all) = rotate_loop-Renewed names h h₁ p in
          elim (Option-cases (x.shell.exec restart_command h₁.world).error) [
            | inr (e, bad) ↦ absurd (ground arith)
            | inl fine ↦ (
              l,
              h₁.world,
              ground (arith, same, append_assoc h.effects l (command restart_command ∷ [])),
              all,
              fine,
              ground arith,
            )
          ]

  -- The table has none of the names.
  abbrev pub AreUnknown : List Text → Type 0
  AreUnknown names = All (λ n. certificate_path n ≡ none) names

  loop_all_unknown :
      (names : List Text) (h : Host W)
      → AreUnknown names
      → rotate_loop x names none h ≡ (done none, h)
  loop_all_unknown [] h unknown = unfold rotate_loop in refl
  loop_all_unknown (n ∷ names) h (u, us) =
      loop_unknown n names none h u ∙ loop_all_unknown names h us

  -- With names that the table lacks, such as those of the authorities that `kubeadm` lists in the
  -- same output, nothing is renewed and the kubelet is restarted all the same.
  pub rotate_unknown :
      (names : List Text) (h : Host W)
      → AreUnknown names
      → (rotate x names h).1.effects ≡ h.effects ++ (command restart_command ∷ [])
  unfolding rotate
  rotate_unknown names h unknown = rw (loop_all_unknown names h unknown)
