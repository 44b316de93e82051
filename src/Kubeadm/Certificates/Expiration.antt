-- ===== src/Kubeadm/Certificates/Expiration.antt =====
-- The names that `CheckExpiration` of pkg/pki/cert/kubeadm/kubeadm.go reports.
use kucero.Base.{
  Text, ◌≡◌, refl, ap, ◌∙◌, Bool, none, some, List, [], ◌∷◌, ◌++◌, map, any, select, contains,
  text_eq, ◌==◌, ◌&&◌, arith, Bool-cases, inl, inr,
}
use mathlib.Core.Logic.{∥∥₁_elim}
use mathlib.Core.Bool.{Bool-set}
use mathlib.Core.List.{Perm, Permᴰ, append-nil, append_assoc}
use kucero.Api.Time.{Time, Duration}
use kucero.Host.Run.{Effect, command, Host, done}
use kucero.Host.Commands.{output, Reply}
use kucero.Kubeadm.Expiry.{expires_at}
use kucero.Kubeadm.Table.{Expiries, parse_check_expiration}
use kucero.Kubeadm.Certificates.{
  Tools, trim_newline, version_command, check_command, collect_expiring, check_expiration,
}

any-permᴰ : (p : Text × Time → Bool) {l m : Expiries} → Permᴰ l m → any p l ≡ any p m
any-permᴰ p Permᴰ.nil = refl
any-permᴰ p (Permᴰ.cons e q) = cc (any-permᴰ p q, ap p e)
any-permᴰ p (Permᴰ.swap {a = a} {b = b} {l = l} e f) = ground (arith, ap p e, ap p f)
any-permᴰ p (Permᴰ.trans q r) = any-permᴰ p q ∙ any-permᴰ p r

any-perm : (p : Text × Time → Bool) {l m : Expiries} → Perm l m → any p l ≡ any p m
any-perm p q = ∥∥₁_elim q (Bool-set _ _) (any-permᴰ p)

-- The entry of the name, if it is due at the time.
abbrev pub is_due : Duration → Time → Text → Text × Time → Bool
is_due d tn name e = name == e.0 && expires_at e.1 d tn

module _ {W : Type 0} (x : Tools W) (d : Duration) (tn : Time) where
  -- The names in the order of the visit.
  abbrev pub due_names : Expiries → List Text
  due_names m = map (λ e. e.0) (select (λ e. expires_at e.1 d tn) m)

  contains-due_names :
      (name : Text) (m : Expiries) → contains (due_names m) name ≡ any (is_due d tn name) m
  contains-due_names name [] = refl
  contains-due_names name ((k, t) ∷ m) = ground (arith, contains-due_names name m)

  module _ (still : (w : W) → x.clock.now w ≡ record { time = tn; world = w }) where
    collect_expiring_lem :
        (m : Expiries) (found : List Text) (h : Host W)
        → collect_expiring x d m found h ≡ (done (found ++ due_names m), h)
    unfolding collect_expiring
    collect_expiring_lem [] found h = rw append-nil
    collect_expiring_lem ((k, t) ∷ m) found h =
        rw (still h.world) (elim (Bool-cases (expires_at t d tn)) [
          | inl due ↦ rw due (
              collect_expiring_lem m (found ++ (k ∷ [])) h
              ∙ rw (append_assoc found (k ∷ []) (due_names m)))
          | inr valid ↦ rw valid (collect_expiring_lem m found h)
        ])

    -- A check whose two commands succeed.
    pub check_expiration-found :
        (h : Host W) (first second : Reply W) (recent : Bool)
        → x.shell.exec version_command h.world ≡ first
        → first.error ≡ none
        → x.at_least_1_20 (trim_newline first.stdout) ≡ some recent
        → x.shell.exec (check_command recent) first.world ≡ second
        → second.error ≡ none
        → (l : List Effect) × (check_expiration x d h ≡ (
          done (due_names (x.range (parse_check_expiration x.parse_time second.stdout)), none),
          record { world = second.world; effects = l },
        ))
          × (l ≡ h.effects ++ (command version_command ∷ command (check_command recent) ∷ []))
    unfolding check_expiration output
    check_expiration-found h first second recent ran fine known ran' fine' =
        let m = x.range (parse_check_expiration x.parse_time second.stdout) in
        let v = command version_command in
        let c = command (check_command recent) in
        let l : List Effect = (h.effects ++ (v ∷ [])) ++ (c ∷ []) in
        (
          l,
          ground (arith, collect_expiring_lem m [] (record { world = second.world; effects = l })),
          append_assoc h.effects (v ∷ []) (c ∷ []),
        )

    -- In whatever order the entries are visited.
    pub due_names-any :
        (name : Text) (m : Expiries)
        → ((m : Expiries) → Perm (x.range m) m)
        → contains (due_names (x.range m)) name ≡ any (is_due d tn name) m
    due_names-any name m perm =
        contains-due_names name (x.range m) ∙ any-perm (is_due d tn name) (perm m)

    -- With a clock that stands still during the check, a check whose two commands succeed ends
    -- without an error, and reports a name exactly if the printed table, as it is parsed, has an
    -- entry of that name that is due, in whatever order the entries are visited.
    pub check_expiration_lem :
        (h : Host W) (first second : Reply W) (recent : Bool) (name : Text)
        → ((m : Expiries) → Perm (x.range m) m)
        → x.shell.exec version_command h.world ≡ first
        → first.error ≡ none
        → x.at_least_1_20 (trim_newline first.stdout) ≡ some recent
        → x.shell.exec (check_command recent) first.world ≡ second
        → second.error ≡ none
        → (names : List Text) × (h' : Host W) × (check_expiration x d h ≡ (done (names, none), h'))
          × (h'.effects
              ≡ h.effects ++ (command version_command ∷ command (check_command recent) ∷ []))
          × (contains names name
              ≡ any (is_due d tn name) (parse_check_expiration x.parse_time second.stdout))
    check_expiration_lem h first second recent name perm ran fine known ran' fine' =
        let (l, checks, same) =
          check_expiration-found h first second recent ran fine known ran' fine' in
        (_, _, checks, same, due_names-any name _ perm)
