-- ===== src/Kubeadm/Table/Date.antt =====
-- The date in the regular expression of pkg/pki/cert/kubeadm/exec.go, and its matcher.
use kucero.Base.{
  Text, ◌≡◌, refl, ap, ◌∙◌, inl, inr, false, some, [], ◌∷◌, ◌++◌, arith, Option-cases, nat_eq,
}
use mathlib.Core.Path.{subst}
use kucero.Kubeadm.Table.{
  space, is_letter, is_digit, letters_one, digits, digits_two, literal, match_date, date_then_space,
}
use kucero.Kubeadm.Table.Classes.{
  is_char, one_or_two, letters_one-IsSound, letters_one-IsComplete, literal-IsSound,
  literal-IsComplete, any_rest, digits-IsSound, digits-IsComplete, digits_two-IsSound,
  digits_two-IsComplete, char-ends,
}
use kucero.Kubeadm.Table.Regex.{
  Regex, char, plus, times, seq, Matches, ends, IsSound, IsComplete, followed-IsSound,
  followed-IsComplete,
}

-- The expression from the minutes on, from the space before the year, and from the day.
abbrev from_minutes : Regex
from_minutes = seq (times 2 is_digit) (seq (char (is_char space)) (plus is_letter))

abbrev from_year : Regex
from_year = seq (char (is_char space)) (
    seq (times 4 is_digit)
      (seq (char (is_char space)) (seq one_or_two (seq (char (is_char b':')) from_minutes))))

abbrev from_day : Regex
from_day = seq one_or_two (seq (char (is_char b',')) from_year)

-- `[a-zA-Z]+ [0-9]{1,2}, [0-9]{4} [0-9]{1,2}:[0-9]{2} [a-zA-Z]+`
abbrev pub date_regex : Regex
date_regex = seq (plus is_letter) (seq (char (is_char space)) from_day)

match_date-IsSound : IsSound match_date date_regex
unfolding match_date
match_date-IsSound = followed-IsSound letters_one _ (plus is_letter) _ letters_one-IsSound (
    followed-IsSound (literal space) _ (char (is_char space)) _ (literal-IsSound space) (
      followed-IsSound digits_two _ one_or_two _ digits_two-IsSound (
        followed-IsSound (literal b',') _ (char (is_char b',')) _ (literal-IsSound b',') (
          followed-IsSound (literal space) _ (char (is_char space)) _ (literal-IsSound space) (
            followed-IsSound (digits 4) _ (times 4 is_digit) _ (digits-IsSound 4) (
              followed-IsSound (literal space) _ (char (is_char space)) _ (literal-IsSound space) (
                followed-IsSound digits_two _ one_or_two _ digits_two-IsSound (
                  followed-IsSound (literal b':') _ (char (is_char b':')) _ (literal-IsSound b':') (
                    followed-IsSound (digits 2) _ (times 2 is_digit) _ (digits-IsSound 2) (
                      followed-IsSound (literal space) letters_one (char (is_char space))
                        (plus is_letter) (literal-IsSound space) letters_one-IsSound))))))))))

space_ends : is_letter space ≡ false
unfolding is_letter
space_ends = refl

comma_ends : is_digit b',' ≡ false
unfolding is_digit
comma_ends = refl

colon_ends : is_digit b':' ≡ false
unfolding is_digit
colon_ends = refl

match_date-IsComplete : IsComplete match_date date_regex (ends is_letter)
unfolding match_date
match_date-IsComplete =
    followed-IsComplete letters_one _ (plus is_letter) _ (ends is_letter) (ends is_letter)
      letters_one-IsComplete
      (followed-IsComplete (literal space) _ (char (is_char space)) _ any_rest (ends is_letter)
        (literal-IsComplete space)
        (followed-IsComplete digits_two _ one_or_two _ (ends is_digit) (ends is_letter)
          digits_two-IsComplete
          (followed-IsComplete (literal b',') _ (char (is_char b',')) _ any_rest (ends is_letter)
            (literal-IsComplete b',')
            (followed-IsComplete (literal space) _ (char (is_char space)) _ any_rest
              (ends is_letter) (literal-IsComplete space)
              (followed-IsComplete (digits 4) _ (times 4 is_digit) _ any_rest (ends is_letter)
                (digits-IsComplete 4)
                (followed-IsComplete (literal space) _ (char (is_char space)) _ any_rest
                  (ends is_letter) (literal-IsComplete space)
                  (followed-IsComplete digits_two _ one_or_two _ (ends is_digit) (ends is_letter)
                    digits_two-IsComplete
                    (followed-IsComplete (literal b':') _ (char (is_char b':')) _ any_rest
                      (ends is_letter) (literal-IsComplete b':')
                      (followed-IsComplete (digits 2) _ (times 2 is_digit) _ any_rest
                        (ends is_letter) (digits-IsComplete 2)
                        (followed-IsComplete (literal space) letters_one (char (is_char space))
                          (plus is_letter) any_rest (ends is_letter) (literal-IsComplete space)
                          letters_one-IsComplete (λ b rest f g. refl))
                        (λ b rest f g. refl))
                      (λ b rest f g. refl))
                    (λ b rest f g. char-ends is_digit b':' from_minutes colon_ends b rest f))
                  (λ b rest f g. refl))
                (λ b rest f g. refl))
              (λ b rest f g. refl))
            (λ b rest f g. refl))
          (λ b rest f g. char-ends is_digit b',' from_year comma_ends b rest f))
        (λ b rest f g. refl))
      (λ b rest f g. char-ends is_letter space from_day space_ends b rest f)

pub date_then_space_sound :
    (s date : Text)
    → date_then_space s ≡ some date
    → (rest : Text) × (s ≡ date ++ (space ∷ rest)) × Matches date_regex date
unfolding literal
date_then_space_sound s date found = elim (Option-cases (match_date s)) [
  | inl nothing ↦ absurd (ground arith)
  | inr ((d, []), dated) ↦ absurd (ground arith)
  | inr ((d, c ∷ rest), dated) ↦
      let (parts, fits) = match_date-IsSound.sound s d (c ∷ rest) dated in
      let blank : c ≡ space = ground arith in
      let same : d ≡ date = ground arith in
      (
        rest,
        parts ∙ ap (λ l. l ++ (c ∷ rest)) same ∙ ap (λ e. date ++ (e ∷ rest)) blank,
        subst (Matches date_regex) same fits,
      )
]

pub date_then_space_complete :
    (date rest : Text)
    → Matches date_regex date
    → date_then_space (date ++ (space ∷ rest)) ≡ some date
unfolding literal
date_then_space_complete date rest fits =
    let found = match_date-IsComplete.complete date (space ∷ rest) fits (rw space_ends refl) in
    ground (arith, found)
