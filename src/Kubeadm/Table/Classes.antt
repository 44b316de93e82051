-- ===== src/Kubeadm/Table/Classes.antt =====
-- The parts of the date in the regular expression of pkg/pki/cert/kubeadm/exec.go: letters, digits
-- and single characters, and their matchers.
use kucero.Base.{
  ℕ, Text, ◌≡◌, refl, inl, inr, Bool, true, false, none, some, [], ◌∷◌, ◌++◌, all, arith,
  Bool-cases, Option-cases, ◌==◌, nat_eq,
}
use kucero.Kubeadm.Table.{is_letter, is_digit, letters, letters_one, digits, digits_two, literal}
use kucero.Kubeadm.Table.Regex.{
  Regex, char, plus, times, seq, alt, Matches, ends, IsSound, IsComplete,
}

abbrev pub is_char : ℕ → ℕ → Bool
is_char c d = d == c

-- `[0-9]{1,2}`.
abbrev pub one_or_two : Regex
one_or_two = alt (times 2 is_digit) (times 1 is_digit)

letters_sound :
    (s a rest : Text) → letters s ≡ some (a, rest) → (s ≡ a ++ rest) × (all is_letter a ≡ true)
unfolding letters
letters_sound [] a rest found = ground arith
letters_sound (c ∷ cs) a rest found = elim (Bool-cases (is_letter c)) [
  | inr other ↦ ground arith
  | inl letter ↦ elim (Option-cases (letters cs)) [
    | inl nothing ↦ absurd (ground arith)
    | inr ((b, rest'), more) ↦ ground (arith, letters_sound cs b rest' more)
  ]
]

letters_complete :
    (a rest : Text)
    → all is_letter a ≡ true
    → ends is_letter rest ≡ true
    → letters (a ++ rest) ≡ some (a, rest)
unfolding letters
letters_complete [] [] fits fine = refl
letters_complete [] (c ∷ rest) fits fine = ground arith
letters_complete (c ∷ a) rest fits fine = ground (arith, letters_complete a rest)

pub letters_one-IsSound : IsSound letters_one (plus is_letter)
unfolding letters_one
letters_one-IsSound = record { sound = go }
  where
    go :
        (s a rest : Text)
        → letters_one s ≡ some (a, rest)
        → (s ≡ a ++ rest) × Matches (plus is_letter) a
    go [] a rest found = absurd (ground arith)
    go (c ∷ cs) a rest found = elim (Option-cases (letters cs)) [
      | inl nothing ↦ absurd (ground arith)
      | inr ((b, rest'), more) ↦ ground (arith, letters_sound cs b rest' more)
    ]

pub letters_one-IsComplete : IsComplete letters_one (plus is_letter) (ends is_letter)
unfolding letters_one
letters_one-IsComplete = record { complete = go }
  where
    go :
        (a rest : Text)
        → Matches (plus is_letter) a
        → ends is_letter rest ≡ true
        → letters_one (a ++ rest) ≡ some (a, rest)
    go [] rest (some_letter, fits) fine = absurd (ground arith)
    go (c ∷ a) rest (some_letter, fits) fine = ground (arith, letters_complete a rest)

pub literal-IsSound : (c : ℕ) → IsSound (literal c) (char (is_char c))
unfolding literal
literal-IsSound c = record { sound = go }
  where
    go :
        (s a rest : Text)
        → literal c s ≡ some (a, rest)
        → (s ≡ a ++ rest) × Matches (char (is_char c)) a
    go [] a rest found = absurd (ground arith)
    go (d ∷ ds) a rest found = elim (Bool-cases (d == c)) [
      | inl same ↦ (ground arith, (d, ground arith, same))
      | inr other ↦ absurd (ground arith)
    ]

abbrev pub any_rest : Text → Bool
any_rest s = true

pub literal-IsComplete : (c : ℕ) → IsComplete (literal c) (char (is_char c)) any_rest
unfolding literal
literal-IsComplete c = record { complete = λ a rest (d, one, same) fine. rw one (ground arith) }

digits_sound :
    (n : ℕ) (s a rest : Text)
    → digits n s ≡ some (a, rest)
    → (s ≡ a ++ rest) × Matches (times n is_digit) a
unfolding digits
digits_sound ℕ.zero s a rest found = ground arith
digits_sound (ℕ.suc n) [] a rest found = absurd (ground arith)
digits_sound (ℕ.suc n) (c ∷ cs) a rest found = elim (Bool-cases (is_digit c)) [
  | inr other ↦ absurd (ground arith)
  | inl here ↦ elim (Option-cases (digits n cs)) [
    | inl nothing ↦ absurd (ground arith)
    | inr ((b, rest'), more) ↦ ground (arith, digits_sound n cs b rest' more)
  ]
]

digits_complete :
    (n : ℕ) (a rest : Text) → Matches (times n is_digit) a → digits n (a ++ rest) ≡ some (a, rest)
unfolding digits
digits_complete ℕ.zero [] rest fits = refl
digits_complete ℕ.zero (c ∷ a) rest fits = absurd (ground arith)
digits_complete (ℕ.suc n) [] rest fits = absurd (ground arith)
digits_complete (ℕ.suc n) (c ∷ a) rest fits = ground (arith, digits_complete n a rest)

pub digits-IsSound : (n : ℕ) → IsSound (digits n) (times n is_digit)
digits-IsSound n = record { sound = digits_sound n }

pub digits-IsComplete : (n : ℕ) → IsComplete (digits n) (times n is_digit) any_rest
digits-IsComplete n = record { complete = λ a rest fits fine. digits_complete n a rest fits }

pub digits_two-IsSound : IsSound digits_two one_or_two
digits_two-IsSound = record {
  sound = λ s a rest found. elim (Option-cases (digits 2 s)) [
    | inl short ↦
        let one : digits 1 s ≡ some (a, rest) = ground arith in
        let (parts, fits) = digits_sound 1 s a rest one in (parts, inr fits)
    | inr ((b, rest'), long) ↦
        let two : digits 2 s ≡ some (a, rest) = ground arith in
        let (parts, fits) = digits_sound 2 s a rest two in (parts, inl fits)
  ];
}

digits_short :
    (a rest : Text)
    → Matches (times 1 is_digit) a
    → ends is_digit rest ≡ true
    → digits 2 (a ++ rest) ≡ none
unfolding digits
digits_short [] rest fits fine = absurd (ground arith)
digits_short (c ∷ []) [] fits fine = ground arith
digits_short (c ∷ []) (d ∷ rest) fits fine = ground arith
digits_short (c ∷ d ∷ a) rest fits fine = absurd (ground arith)

pub digits_two-IsComplete : IsComplete digits_two one_or_two (ends is_digit)
digits_two-IsComplete = record { complete = go }
  where
    go :
        (a rest : Text)
        → Matches one_or_two a
        → ends is_digit rest ≡ true
        → digits_two (a ++ rest) ≡ some (a, rest)
    go a rest (inl long) fine = ground (arith, digits_complete 2 a rest long)
    go a rest (inr short) fine =
        ground (arith, digits_short a rest short fine, digits_complete 1 a rest short)

-- A text that begins with a character outside a class ends it.
pub char-ends :
    (p : ℕ → Bool) (c : ℕ) (r : Regex)
    → p c ≡ false
    → (b rest : Text) → Matches (seq (char (is_char c)) r) b
    → ends p (b ++ rest) ≡ true
char-ends p c r outside b rest (d, t, parts, (e, one, same), fits) = rw (parts, one) (ground arith)
