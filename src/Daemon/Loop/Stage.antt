-- ===== src/Daemon/Loop/Stage.antt =====
-- The discipline of the lock, as a machine that reads the effects on the host.
use kucero.Base.{
  ◌⊎◌, Text, ◌≡◌, refl, ◌∙◌, inl, inr, Bool, true, false, Option, none, some, List, [], ◌∷◌, ◌++◌,
  ◌||◌, ◌==◌, words_eq, text_eq, nat_eq, arith, Option-cases, append_trans, if◌then◌else◌,
}
use mathlib.Core.List.{append-nil}
use kucero.Host.Ends.{Ends, pure-Ends, never_panics}
use kucero.Host.Run.{
  Ended, after-panicked, panicked, Effect, command, write_file, set_unschedulable, drain,
  lock_acquired, lock_released, Host, done, Exec, after-done, pure, ◌>>=◌,
}
use kucero.Kubeadm.Certificates.{version_command, check_command}

-- The lock is not taken; it is taken; it is taken and the node is cordoned.
pub data Stage : Type 0 where
  free held shut : Stage

-- The commands that only ask.
unfoldable pub is_reading : List Text → Bool
is_reading args =
    args == version_command || args == check_command true || args == check_command false

-- Without the lock, only commands that ask are allowed, and taking the lock. Under it, any command
-- and the writes; the node is drained only when it is cordoned, and the lock given back only when
-- it is not.
unfoldable pub step : Stage → Effect → Option Stage
step free (command args) = if is_reading args then some free else none
step free lock_acquired = some held
step free (write_file p) = none
step free (set_unschedulable b) = none
step free drain = none
step free lock_released = none
step held (command args) = some held
step held (write_file p) = some held
step held (set_unschedulable true) = some shut
step held (set_unschedulable false) = none
step held drain = none
step held lock_acquired = none
step held lock_released = some free
step shut (command args) = some shut
step shut (write_file p) = some shut
step shut (set_unschedulable true) = none
step shut (set_unschedulable false) = some held
step shut drain = some shut
step shut lock_acquired = none
step shut lock_released = none

-- The stage after the effects, if each of them is allowed.
unfoldable pub stage_after : Stage → List Effect → Option Stage
stage_after s [] = some s
stage_after s (e ∷ l) = elim (step s e) [ none ↦ none | some s' ↦ stage_after s' l ]

pub stage_after-append :
    (s t : Stage) (l m : List Effect)
    → stage_after s l ≡ some t
    → stage_after s (l ++ m) ≡ stage_after t m
unfolding stage_after
stage_after-append s t [] m q = ground arith
stage_after-append s t (e ∷ l) m q = elim (Option-cases (step s e)) [
  | inl stuck ↦ absurd (ground arith)
  | inr (s', goes) ↦ rw (goes, stage_after) (stage_after-append s' t l m (ground arith))
]

-- An operation that only added effects that lead from one stage to another, or, where it panicked,
-- to some stage.
pub record Leads {W A : Type 0} (s t : Stage) (m : Exec W A) : Type 0 where
  pub leads :
      (h h' : Host W) (a : A)
      → m h ≡ (done a, h')
      → (l : List Effect) × (h'.effects ≡ h.effects ++ l) × (stage_after s l ≡ some t)
  pub panics :
      (h h' : Host W)
      → m h ≡ (panicked, h')
      → (l : List Effect) × (u : Stage) × (h'.effects ≡ h.effects ++ l) × (stage_after s l ≡ some u)

module _ {W : Type 0} where
  -- No effect was added.
  pub silent :
      (s : Stage) (h h' : Host W)
      → h'.effects ≡ h.effects
      → (l : List Effect) × (h'.effects ≡ h.effects ++ l) × (stage_after s l ≡ some s)
  unfolding stage_after
  silent s h h' same = ([], same ∙ ground (arith, append-nil h.effects), refl)

  -- One allowed effect was added.
  pub one_effect :
      (s : Stage) {t : Stage} (e : Effect) (h h' : Host W)
      → step s e ≡ some t
      → h'.effects ≡ h.effects ++ (e ∷ [])
      → (l : List Effect) × (h'.effects ≡ h.effects ++ l) × (stage_after s l ≡ some t)
  unfolding stage_after
  one_effect s e h h' goes once = (e ∷ [], once, rw (goes, stage_after) refl)

  -- An operation that always ends.
  pub Ends-Leads :
      {A : Type 0} {s t : Stage} {m : Exec W A}
      → Ends m
      → ((h h' : Host W) (a : A)
          → m h ≡ (done a, h')
          → (l : List Effect) × (h'.effects ≡ h.effects ++ l) × (stage_after s l ≡ some t))
      → Leads s t m
  Ends-Leads ends leads = record {
    leads = leads;
    panics = λ h h' q. absurd (never_panics h h' ends q);
  }

  pub pure-Leads : {A : Type 0} (s : Stage) (a : A) → Leads s s (pure {W = W} a)
  pure-Leads s a = Ends-Leads (pure-Ends a) (λ h h' b q. silent s h h' (ground arith))

  pub bind-Leads :
      {A B : Type 0} {s t u : Stage} {m : Exec W A} {f : A → Exec W B}
      → Leads s t m
      → ((a : A) → Leads t u (f a))
      → Leads s u (m >>= f)
  bind-Leads {s = s} {t = t} {u = u} {m = m} {f = f} first next = record {
    leads = λ h h' b q.
        let (a, h₁, ran, q₁) = after-done (m h) f q in
        let (l, one, goes) = first.leads h h₁ a ran in
        let (k, two, goes') = (next a).leads h₁ h' b q₁ in
        (l ++ k, append_trans h.effects l k one two, stage_after-append s t l k goes ∙ goes');
    panics = λ h h' q. elim (after-panicked (m h) f q) [
      | inl at_once ↦ first.panics h h' at_once
      | inr (a, h₁, ran, q₁) ↦
          let (l, one, goes) = first.leads h h₁ a ran in
          let (k, v, two, goes') = (next a).panics h₁ h' q₁ in
          (l ++ k, v, append_trans h.effects l k one two, stage_after-append s t l k goes ∙ goes')
    ];
  }

  -- What an operation leads to, whichever way it ends.
  pub Leads-either :
      {A : Type 0} {s t : Stage} {m : Exec W A}
      → Leads s t m
      → (h : Host W)
      → (l : List Effect) × (u : Stage) × ((m h).1.effects ≡ h.effects ++ l)
        × (stage_after s l ≡ some u)
        × (((m h).0 ≡ panicked) ⊎ (u ≡ t))
  Leads-either {A} {s} {t} {m} leads h = either (m h) refl
    where
      either :
          (p : Ended A × Host W)
          → m h ≡ p
          → (l : List Effect) × (u : Stage) × (p.1.effects ≡ h.effects ++ l)
            × (stage_after s l ≡ some u)
            × ((p.0 ≡ panicked) ⊎ (u ≡ t))
      either (done a, h') q =
          let (l, same, goes) = leads.leads h h' a q in (l, t, same, goes, inr refl)
      either (panicked, h') q =
          let (l, u, same, goes) = leads.panics h h' q in (l, u, same, goes, inl refl)

-- A machine that comes to the end of a list came through its beginning.
pub stage_after-prefix :
    (s u : Stage) (l m : List Effect)
    → stage_after s (l ++ m) ≡ some u
    → (t : Stage) × (stage_after s l ≡ some t)
unfolding stage_after
stage_after-prefix s u [] m q = (s, refl)
stage_after-prefix s u (e ∷ l) m q = elim (Option-cases (step s e)) [
  | inl stuck ↦ absurd (ground arith)
  | inr (s', goes) ↦ rw (goes, stage_after) (stage_after-prefix s' u l m (ground arith))
]
