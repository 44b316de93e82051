-- ===== src/Kubeadm/Table/Submatch.antt =====
-- `FindStringSubmatch` in pkg/pki/cert/kubeadm/exec.go and what its regular expression means.
use kucero.Base.{
  ℕ, Text, ◌≡◌, refl, sym, ap, ◌∙◌, ◌↔◌, inl, inr, Option, none, some, [], ◌∷◌, ◌++◌, length, ◌≤◌,
  arith, Bool-cases, Option-cases, ◌==◌, nat_eq, if◌then◌else◌,
}
use mathlib.Core.Path.{subst}
use kucero.Kubeadm.Table.{space, date_then_space, find_submatch}
use kucero.Kubeadm.Table.Regex.{Matches}
use kucero.Kubeadm.Table.Date.{date_regex, date_then_space_sound, date_then_space_complete}

-- The line matches `(.*) (date) (.*)` with these first two groups.
pub record IsMatch (line before date : Text) : Type 0 where
  pub after : Text
  pub parts : line ≡ before ++ (space ∷ (date ++ (space ∷ after)))
  pub dated : Matches date_regex date

-- And the first group, which comes first and is greedy, is as long as it can be.
pub record IsSubmatch (line before date : Text) : Type 0 where
  pub fits : IsMatch line before date
  pub longest : (before' date' : Text) → IsMatch line before' date' → length before' ≤ length before

abbrev IsAnswer : Text → Option (Text × Text) → Type 0
IsAnswer line none = (before date : Text) → IsMatch line before date → ⊥
IsAnswer line (some (before, date)) = IsSubmatch line before date

IsMatch-cons :
    {c : ℕ} {cs before date : Text} → IsMatch cs before date → IsMatch (c ∷ cs) (c ∷ before) date
IsMatch-cons {c = c} m = record {
  after = m.after;
  parts = ap (λ l. c ∷ l) m.parts;
  dated = m.dated;
}

IsMatch-tail :
    (c d : ℕ) (cs before date : Text) → IsMatch (c ∷ cs) (d ∷ before) date → IsMatch cs before date
IsMatch-tail c d cs before date m = record {
  after = m.after;
  parts = let p : c ∷ cs ≡ d ∷ (before ++ (space ∷ (date ++ (space ∷ m.after)))) = m.parts in cc;
  dated = m.dated;
}

nil-IsMatch : (before date : Text) → IsMatch [] before date → ⊥
nil-IsMatch [] date m = let p = m.parts in ground arith
nil-IsMatch (c ∷ before) date m = let p = m.parts in ground arith

-- A match with an empty first group is what the matcher of the date finds after a space.
here-IsMatch :
    (c : ℕ) (cs date : Text)
    → IsMatch (c ∷ cs) [] date
    → (c ≡ space) × (date_then_space cs ≡ some date)
here-IsMatch c cs date m =
    let p : c ∷ cs ≡ space ∷ (date ++ (space ∷ m.after)) = m.parts in
    let rest : cs ≡ date ++ (space ∷ m.after) = cc in
    (cc, rw rest (date_then_space_complete date m.after m.dated))

later-IsSubmatch :
    (c : ℕ) (cs before date : Text)
    → IsSubmatch cs before date
    → IsSubmatch (c ∷ cs) (c ∷ before) date
later-IsSubmatch c cs before date m = record { fits = IsMatch-cons m.fits; longest = go }
  where
    go :
        (before' date' : Text)
        → IsMatch (c ∷ cs) before' date'
        → length before' ≤ length (c ∷ before)
    go [] date' other = omega arith
    go (d ∷ before') date' other =
        omega (arith, m.longest before' date' (IsMatch-tail c d cs before' date' other))

here-IsSubmatch :
    (c : ℕ) (cs date : Text)
    → IsAnswer cs none
    → c ≡ space
    → date_then_space cs ≡ some date
    → IsSubmatch (c ∷ cs) [] date
here-IsSubmatch c cs date none_later blank found =
    let (after, parts, dated) = date_then_space_sound cs date found in
    record {
      fits = record {
        after = after;
        parts = ap (λ l. c ∷ l) parts ∙ ap (λ d. d ∷ (date ++ (space ∷ after))) blank;
        dated = dated;
      };
      longest = go;
    }
  where
    go :
        (before' date' : Text) → IsMatch (c ∷ cs) before' date' → length before' ≤ length {A = ℕ} []
    go [] date' other = omega arith
    go (d ∷ before') date' other =
        absurd (none_later before' date' (IsMatch-tail c d cs before' date' other))

nowhere :
    (c : ℕ) (cs : Text)
    → IsAnswer cs none
    → ((date : Text) → IsMatch (c ∷ cs) [] date → ⊥)
    → IsAnswer (c ∷ cs) none
nowhere c cs none_later not_here [] date m = not_here date m
nowhere c cs none_later not_here (d ∷ before) date m =
    none_later before date (IsMatch-tail c d cs before date m)

find_cons :
    (c : ℕ) (cs : Text) (found : Option (Text × Text))
    → IsAnswer cs found
    → IsAnswer (c ∷ cs) (elim found [
      | some (before, date) ↦ some (c ∷ before, date)
      | none ↦
          if c == space
          then elim (date_then_space cs) [ none ↦ none | some date ↦ some ([], date) ]
          else none
    ])
find_cons c cs (some (before, date)) m = later-IsSubmatch c cs before date m
find_cons c cs none none_later = elim (Bool-cases (c == space)) [
  | inr other ↦
      rw (other, IsAnswer)
        (nowhere c cs none_later
          (λ date m. let (blank, _) = here-IsMatch c cs date m in ground arith))
  | inl same ↦ elim (Option-cases (date_then_space cs)) [
    | inl no_date ↦
        rw (same, no_date, IsAnswer)
          (nowhere c cs none_later (λ date m. let (_, found) = here-IsMatch c cs date m in cc))
    | inr (date, found) ↦
        rw (same, found, IsAnswer) (here-IsSubmatch c cs date none_later (ground arith) found)
  ]
]

find_submatch-IsAnswer : (line : Text) → IsAnswer line (find_submatch line)
unfolding find_submatch
find_submatch-IsAnswer [] = nil-IsMatch
find_submatch-IsAnswer (c ∷ cs) = find_cons c cs (find_submatch cs) (find_submatch-IsAnswer cs)

append-parts : (a b s t : Text) → length a ≡ length b → a ++ s ≡ b ++ t → (a ≡ b) × (s ≡ t)
append-parts [] [] s t same e = (refl, e)
append-parts [] (d ∷ b) s t same e = absurd (omega arith)
append-parts (c ∷ a) [] s t same e = absurd (omega arith)
append-parts (c ∷ a) (d ∷ b) s t same e =
    let rest : a ++ s ≡ b ++ t = cc in
    let (p, q) = append-parts a b s t (omega arith) rest in (cc, q)

-- There is one submatch at most.
IsSubmatch-unique :
    (line b d b' d' : Text) → IsSubmatch line b d → IsSubmatch line b' d' → (b ≡ b') × (d ≡ d')
IsSubmatch-unique line b d b' d' m n =
    let one = m.longest b' d' n.fits in
    let other = n.longest b d m.fits in
    let (same, tails) =
      append-parts b b' (space ∷ (d ++ (space ∷ m.fits.after)))
        (space ∷ (d' ++ (space ∷ n.fits.after))) (omega arith) (sym m.fits.parts ∙ n.fits.parts) in
    let dates : d ++ (space ∷ m.fits.after) ≡ d' ++ (space ∷ n.fits.after) = cc in
    let first = date_then_space_complete d m.fits.after m.fits.dated in
    let second = date_then_space_complete d' n.fits.after n.fits.dated in
    let read : date_then_space (d ++ (space ∷ m.fits.after))
        ≡ date_then_space (d' ++ (space ∷ n.fits.after)) =
      ap (λ l. date_then_space l) dates in
    (same, cc)

-- The search of a line finds two groups exactly if the line matches the regular expression with
-- them, the first as long as it can be.
pub find_submatch_iff :
    (line before date : Text)
    → (find_submatch line ≡ some (before, date)) ↔ IsSubmatch line before date
find_submatch_iff line before date = (
  (λ found. subst (IsAnswer line) found (find_submatch-IsAnswer line)),
  (λ m. elim (Option-cases (find_submatch line)) [
    | inl nothing ↦
        absurd (subst (IsAnswer line) nothing (find_submatch-IsAnswer line) before date m.fits)
    | inr ((b, d), found) ↦
        let n : IsSubmatch line b d = subst (IsAnswer line) found (find_submatch-IsAnswer line) in
        let (p, q) = IsSubmatch-unique line b d before date n m in cc
  ]),
)
