-- ===== src/Host/Run.antt =====
-- Operations on a host: they end with a value, or they panic and the process dies.
use kucero.Base.{◌⊎◌, inl, inr, List, [], ◌∷◌, ◌++◌, Text, Bool, ◌≡◌, refl}

pub data Effect : Type 0 where
  -- A command, by its arguments.
  command : List Text → Effect
  -- A write to the file of a path.
  write_file : Text → Effect
  -- The node is cordoned (`true`) or uncordoned (`false`).
  set_unschedulable : Bool → Effect
  drain : Effect
  -- A call to the lock of the daemon set that took it, and one that gives it back.
  lock_acquired : Effect
  lock_released : Effect

pub record Host (W : Type 0) : Type 0 where
  pub world : W
  pub effects : List Effect

pub data Ended {ℓ} (A : Type ℓ) : Type ℓ where
  done : A → Ended A
  panicked : Ended A

abbrev pub Exec : Type 0 → Type 0 → Type 0
Exec W A = Host W → Ended A × Host W

module _ {W A B : Type 0} where
  abbrev pub after : Ended A × Host W → (A → Exec W B) → Ended B × Host W
  after (done a, h) f = f a h
  after (panicked, h) f = (panicked, h)

  infixl 5 ◌>>=◌
  abbrev pub ◌>>=◌ : Exec W A → (A → Exec W B) → Exec W B
  ◌>>=◌ m f h = after (m h) f

module _ {W A : Type 0} where
  abbrev pub pure : A → Exec W A
  pure a h = (done a, h)

  abbrev pub panic : Exec W A
  panic h = (panicked, h)

module _ {W : Type 0} where
  abbrev pub emit : Effect → Host W → Host W
  emit e h = record h { effects = h.effects ++ (e ∷ []) }

-- A chain that ends with a value has come through its first step.
pub after-done :
    {W A B : Type 0} (p : Ended A × Host W) (f : A → Exec W B) {b : B} {h' : Host W}
    → after p f ≡ (done b, h')
    → (a : A) × (h : Host W) × (p ≡ (done a, h)) × (f a h ≡ (done b, h'))
after-done (done a, h) f e = (a, h, refl, e)
after-done (panicked, h) f e = absurd (cc)

-- A chain that panics has panicked in its first step or after it.
pub after-panicked :
    {W A B : Type 0} (p : Ended A × Host W) (f : A → Exec W B) {h' : Host W}
    → after p f ≡ (panicked, h')
    → (p ≡ (panicked, h')) ⊎ ((a : A) × (h : Host W) × (p ≡ (done a, h)) × (f a h ≡ (panicked, h')))
after-panicked (done a, h) f e = inr (a, h, refl, e)
after-panicked (panicked, h) f e = inl (cc)
