-- ===== src/Host/Ends.antt =====
-- Operations on the host that end with a value, for pkg/host.
use kucero.Base.{Text, List, ◌≡◌, refl, ap, ◌∙◌}
use kucero.Host.Run.{Host, done, panicked, Exec, after, pure, ◌>>=◌}
use kucero.Host.Commands.{Shell, run, output}
use kucero.Host.Kubectl.{Drainer, cordon, drain, uncordon}

-- An operation that ends with a value, whatever the state of the host.
pub record Ends {W A : Type 0} (m : Exec W A) : Type 0 where
  pub ends : (h : Host W) → (a : A) × (h' : Host W) × (m h ≡ (done a, h'))

module _ {W : Type 0} where
  pub pure-Ends : {A : Type 0} (a : A) → Ends (pure {W = W} a)
  pure-Ends a = record { ends = λ h. (a, h, refl) }

  pub bind-Ends :
      {A B : Type 0} {m : Exec W A} {f : A → Exec W B}
      → Ends m
      → ((a : A) → Ends (f a))
      → Ends (m >>= f)
  bind-Ends {m = m} {f = f} first next = record {
    ends = λ h.
        let (a, h₁, ran) = first.ends h in
        let (b, h', ran') = (next a).ends h₁ in (b, h', ap (λ p. after p f) ran ∙ ran');
  }

  pub run-Ends : (x : Shell W) (args : List Text) → Ends (run x args)
  unfolding run
  run-Ends x args = record { ends = λ h. (_, _, refl) }

  pub output-Ends : (x : Shell W) (args : List Text) → Ends (output x args)
  unfolding output
  output-Ends x args = record { ends = λ h. (_, _, refl) }

  pub cordon-Ends : (x : Drainer W) → Ends (cordon x)
  unfolding cordon
  cordon-Ends x = record { ends = λ h. (_, _, refl) }

  pub drain-Ends : (x : Drainer W) → Ends (drain x)
  unfolding drain
  drain-Ends x = record { ends = λ h. (_, _, refl) }

  pub uncordon-Ends : (x : Drainer W) → Ends (uncordon x)
  unfolding uncordon
  uncordon-Ends x = record { ends = λ h. (_, _, refl) }

  pub never_panics : {A : Type 0} {m : Exec W A} (h h' : Host W) → Ends m → m h ≡ (panicked, h') → ⊥
  never_panics h h' ends q = let (a, h₁, ran) = ends.ends h in cc
