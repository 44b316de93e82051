-- ===== src/Kubeadm/Table/Regex.antt =====
-- Regular expressions, for the one of pkg/pki/cert/kubeadm/exec.go: what it means for a text to
-- match, with no order of search in it, and matchers that answer it.
use kucero.Base.{
  ℕ, Text, ◌≡◌, sym, ap, ◌∙◌, ◌⊎◌, inl, inr, Bool, true, false, not, some, [], ◌∷◌, ◌++◌, all,
  arith, Option-cases, is_nil, length,
}
use mathlib.Core.List.{append_assoc}
use kucero.Kubeadm.Table.{Matcher, followed}

-- A character of a class, a class with `+`, a class with `{n}`, a sequence, and a choice.
pub data Regex : Type 0 where
  char plus : (ℕ → Bool) → Regex
  times : ℕ → (ℕ → Bool) → Regex
  seq alt : Regex → Regex → Regex

abbrev pub Matches : Regex → Text → Type 0
Matches (char p) s = (c : ℕ) × (s ≡ c ∷ []) × (p c ≡ true)
Matches (plus p) s = (is_nil s ≡ false) × (all p s ≡ true)
Matches (times n p) s = (length s ≡ n) × (all p s ≡ true)
Matches (seq r q) s = (a : Text) × (b : Text) × (s ≡ a ++ b) × Matches r a × Matches q b
Matches (alt r q) s = Matches r s ⊎ Matches q s

-- The text does not go on with a character of the class.
abbrev pub ends : (ℕ → Bool) → Text → Bool
ends p [] = true
ends p (c ∷ cs) = not (p c)

-- What the matcher returns is the start of the text, which matches, and the rest.
pub record IsSound (m : Matcher) (r : Regex) : Type 0 where
  pub sound : (s a rest : Text) → m s ≡ some (a, rest) → (s ≡ a ++ rest) × Matches r a

-- A start that matches is found, where the rest is as `ok` says.
pub record IsComplete (m : Matcher) (r : Regex) (ok : Text → Bool) : Type 0 where
  pub complete : (a rest : Text) → Matches r a → ok rest ≡ true → m (a ++ rest) ≡ some (a, rest)

followed-some :
    (a t b rest : Text) (m : Matcher)
    → m t ≡ some (b, rest)
    → followed (some (a, t)) m ≡ some (a ++ b, rest)
followed-some a t b rest m found = ground arith

module _ (m₁ m₂ : Matcher) (r₁ r₂ : Regex) where
  abbrev both : Matcher
  both s = followed (m₁ s) m₂

  pub followed-IsSound : IsSound m₁ r₁ → IsSound m₂ r₂ → IsSound both (seq r₁ r₂)
  followed-IsSound one two = record {
    sound = λ s a rest found. elim (Option-cases (m₁ s)) [
      | inl nothing ↦ absurd (ground arith)
      | inr ((b, tail), first) ↦ elim (Option-cases (m₂ tail)) [
        | inl nothing ↦ absurd (ground arith)
        | inr ((d, rest'), second) ↦
            let (parts, fits) = one.sound s b tail first in
            let (parts', fits') = two.sound tail d rest' second in
            let whole : a ≡ b ++ d = ground arith in
            let left : rest' ≡ rest = ground arith in
            (
              parts
                  ∙ ap (λ l. b ++ l) (parts' ∙ ap (λ l. d ++ l) left)
                  ∙ sym (append_assoc b d rest)
                  ∙ ap (λ l. l ++ rest) (sym whole),
              (b, d, whole, fits, fits'),
            )
      ]
    ];
  }

  pub followed-IsComplete :
      (ok₁ ok₂ : Text → Bool)
      → IsComplete m₁ r₁ ok₁
      → IsComplete m₂ r₂ ok₂
      → ((b rest : Text) → Matches r₂ b → ok₂ rest ≡ true → ok₁ (b ++ rest) ≡ true)
      → IsComplete both (seq r₁ r₂) ok₂
  followed-IsComplete ok₁ ok₂ one two between = record {
    complete = λ s rest (a, b, parts, fits, fits') fine.
        let first = one.complete a (b ++ rest) fits (between b rest fits' fine) in
        let second = two.complete b rest fits' fine in
        let whole : s ++ rest ≡ a ++ (b ++ rest) =
          ap (λ l. l ++ rest) parts ∙ append_assoc a b rest in
        rw whole (
          rw first
            (followed-some a (b ++ rest) b rest m₂ second ∙ ap (λ l. some (l, rest)) (sym parts)));
  }
