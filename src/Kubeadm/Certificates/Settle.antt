-- ===== src/Kubeadm/Certificates/Settle.antt =====
-- `CheckExpiration` after `Rotate`, of pkg/pki/cert/kubeadm/kubeadm.go.
mod Tests
use kucero.Base.{
  Text, ◌≡◌, refl, sym, ap, ◌∙◌, Bool, true, false, Option, none, some, List, [], ◌∷◌, any,
  contains, text_eq, ◌==◌, arith, Option-cases, Bool-cases, inl, inr, All,
}
use mathlib.Core.Path.{subst}
use mathlib.Core.List.{Perm}
use kucero.Api.Time.{Time, Duration}
use kucero.Api.Error.{Error, noted}
use kucero.Host.Run.{Effect, Host, done}
use kucero.Host.Commands.{restart_command, output}
use kucero.Kubeadm.Table.{Expiries, parse_check_expiration}
use kucero.Kubeadm.Certificates.{
  certificate_path, trim_newline, Tools, copy_command, version_command, renew_command,
  check_command, rotate, check_expiration,
}
use kucero.Kubeadm.Certificates.Ends.{PrintsVersion}
use kucero.Kubeadm.Certificates.Attempts.{Round, Rounds, Closing, rotate-Rounds}
use kucero.Kubeadm.Certificates.Expiration.{
  is_due, due_names, due_names-any, check_expiration-found,
}
use kucero.Kubeadm.Certificates.Machine.{
  IsOwn, AreKnown, IsKubeadm, Stays, Rounds-Stays, Rounds-renewed, Closing-Stays,
}

contains-none : (l : List Text) → ((n : Text) → contains l n ≡ false) → l ≡ []
contains-none [] absent = refl
contains-none (m ∷ l) absent = let here = absent m in absurd (ground arith)

module _ {W : Type 0} (x : Tools W) (d : Duration) (tn : Time) where
  module _ (still : (w : W) → x.clock.now w ≡ record { time = tn; world = w })
      (perm : (m : Expiries) → Perm (x.range m) m) where
    -- A check that returns no error ran both commands, and reports what the second printed.
    check_expiration-done :
        (h h₁ : Host W) (names : List Text)
        → check_expiration x d h ≡ (done (names, none), h₁)
        → (recent : Bool) × (v : W) × (v ≡ (x.shell.exec version_command h.world).world)
          × ((x.shell.exec (check_command recent) v).error ≡ none)
          × (h₁.world ≡ (x.shell.exec (check_command recent) v).world)
          × (names
              ≡ due_names x d tn (
                  x.range (
                    parse_check_expiration x.parse_time
                      (x.shell.exec (check_command recent) v).stdout)))
    unfolding check_expiration output
    check_expiration-done h h₁ names q =
        let first = x.shell.exec version_command h.world in
        elim (Option-cases first.error) [
          | inr (e, bad) ↦ absurd (ground arith)
          | inl fine ↦ elim (Option-cases (x.at_least_1_20 (trim_newline first.stdout))) [
            | inl panics ↦ absurd (ground arith)
            | inr (recent, known) ↦
                let second = x.shell.exec (check_command recent) first.world in
                elim (Option-cases second.error) [
                  | inr (e, bad) ↦ absurd (ground arith)
                  | inl fine' ↦
                      let (l, ran, _) =
                        check_expiration-found x d tn still h first second recent refl fine known
                          refl fine' in
                      (recent, first.world, refl, fine', cc, cc)
                ]
          ]
        ]

    module _ (due : W → Text → Bool) (good : IsKubeadm x d tn due) where
      -- What a check reports is what is due between its two commands.
      check_expiration-due :
          (h h₁ : Host W) (names : List Text)
          → check_expiration x d h ≡ (done (names, none), h₁)
          → (v : W) × Stays x d tn due good h.world v
            × Stays x d tn due good v h₁.world
            × ((n : Text) → contains names n ≡ due v n)
      check_expiration-due h h₁ names q =
          let (recent, v, is_v, fine, then_w, reported) = check_expiration-done h h₁ names q in
          (
            v,
            λ n f.
                subst (λ (w : W). due w n ≡ false) (sym is_v)
                  (good.keeps h.world _ n IsOwn.asks_version f),
            λ n f.
                subst (λ (w : W). due w n ≡ false) (sym then_w)
                  (good.keeps v _ n (IsOwn.asks_check recent) f),
            λ n.
                ap (λ l. contains l n) reported
                ∙ due_names-any x d tn still n _ perm
                ∙ good.prints v recent n fine,
          )

      module _ (prints : (w : W) → PrintsVersion x w) where
        rotate-renewed :
            (g g' : Host W) (names : List Text)
            → AreKnown names
            → rotate x names g ≡ (done none, g')
            → Stays x d tn due good g.world g'.world
              × ((n : Text) → contains names n ≡ true → due g'.world n ≡ false)
        rotate-renewed g g' names known ran =
            let (errs, o, g₁, g₂, l, end, ran', _, rounds, closing) =
              rotate-Rounds x prints names g in
            let fine : o ≡ none = cc in
            let same : g₂ ≡ g' = cc in
            let (clean, after) = Closing-Stays x d tn due good closing fine in
            let kept : Stays x d tn due good g₁.world g'.world =
              subst (λ (k : Host W). Stays x d tn due good g₁.world k.world) same after in
            (
              λ n f. kept n (Rounds-Stays x d tn due good rounds n f),
              λ n listed. kept n (Rounds-renewed x d tn due good n rounds clean known listed),
            )

        nothing_due :
            (h h₁ g g' k k' : Host W) (names names' : List Text)
            → check_expiration x d h ≡ (done (names, none), h₁)
            → AreKnown names
            → Stays x d tn due good h₁.world g.world
            → rotate x names g ≡ (done none, g')
            → Stays x d tn due good g'.world k.world
            → check_expiration x d k ≡ (done (names', none), k')
            → names' ≡ []
        nothing_due h h₁ g g' k k' names names' checked known before rotated behind again =
            let (v, _, to_h₁, reported) = check_expiration-due h h₁ names checked in
            let (u, to_u, _, reported') = check_expiration-due k k' names' again in
            let (kept, renewed) = rotate-renewed g g' names known rotated in
            let clean : (n : Text) → due g'.world n ≡ false = λ n.
              elim (Bool-cases (contains names n)) [
                | inl listed ↦ renewed n listed
                | inr other ↦ kept n (before n (to_h₁ n (sym (reported n) ∙ other)))
              ] in
            contains-none names' (λ n. reported' n ∙ to_u n (behind n (clean n)))

        -- On a machine whose kubeadm does what its commands say, with a clock that stands still: a check
        -- reports some certificates without an error, the table knows them all, and `Rotate` of them
        -- returns no error. Then a later check whose two commands succeed reports nothing, whatever
        -- happened before the rotation and after it that makes no certificate due.
        pub rotate_settles :
            (h h₁ g g' k : Host W) (names : List Text)
            → check_expiration x d h ≡ (done (names, none), h₁)
            → AreKnown names
            → Stays x d tn due good h₁.world g.world
            → rotate x names g ≡ (done none, g')
            → Stays x d tn due good g'.world k.world
            → (x.shell.exec version_command k.world).error ≡ none
            → ((recent : Bool)
                → (x.shell.exec
                    (check_command recent)
                    (x.shell.exec version_command k.world).world).error
                  ≡ none)
            → (k' : Host W) × (check_expiration x d k ≡ (done ([], none), k'))
        rotate_settles h h₁ g g' k names checked known before rotated behind fine fine' =
            let first = x.shell.exec version_command k.world in
            let (recent, version) = prints k.world fine in
            let second = x.shell.exec (check_command recent) first.world in
            let (l, again, _) =
              check_expiration-found x d tn still k first second recent refl fine version refl
                (fine' recent) in
            let nothing =
              nothing_due h h₁ g g' k _ names _ checked known before rotated behind again in
            let k' : Host W = record { world = second.world; effects = l } in
            (k', again ∙ ap (λ r. (done (r, none), k')) nothing)
