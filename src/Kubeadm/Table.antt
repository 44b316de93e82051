-- ===== src/Kubeadm/Table.antt =====
-- `parsekubeadmAlphaCertsCheckExpiration` of pkg/pki/cert/kubeadm/exec.go: the table that
-- `kubeadm certs check-expiration` prints. A text is its list of code points.
pub mod Regex
pub mod Classes
pub mod Date
pub mod Submatch
pub mod Laws
mod Tests
use kucero.Base.{
  ℕ, Text, Bool, true, false, Option, none, some, List, [], ◌∷◌, ◌++◌, leb, ltb, ◌==◌, ◌&&◌, ◌||◌,
  nat_eq, text_eq, contains, bytes, if◌then◌else◌,
}
use kucero.Api.Time.{Time}

abbrev pub space : ℕ
space = 32

-- `strings.Split(input, "\n")`: the first line and the lines after it.
unfoldable pub split_lines : Text → Text × List Text
split_lines [] = ([], [])
split_lines (c ∷ cs) =
    let (line, lines) = split_lines cs in if c == 10 then ([], line ∷ lines) else (c ∷ line, lines)

unfoldable pub lines_of : Text → List Text
unfolding split_lines
lines_of input = let (line, lines) = split_lines input in line ∷ lines

-- `strings.HasPrefix` and `strings.Contains`.
unfoldable pub has_prefix : Text → Text → Bool
has_prefix s [] = true
has_prefix [] (p ∷ ps) = false
has_prefix (c ∷ cs) (p ∷ ps) = c == p && has_prefix cs ps

unfoldable pub contains_text : Text → Text → Bool
unfolding has_prefix
contains_text [] sub = has_prefix [] sub
contains_text (c ∷ cs) sub = has_prefix (c ∷ cs) sub || contains_text cs sub

-- `unicode.IsSpace`.
unfoldable pub is_space : ℕ → Bool
is_space c =
    (leb 9 c && leb c 13)
    || c == 32
    || c == 0x85
    || c == 0xa0
    || c == 0x1680
    || (leb 0x2000 c && leb c 0x200a)
    || c == 0x2028
    || c == 0x2029
    || c == 0x202f
    || c == 0x205f
    || c == 0x3000

unfoldable pub trim_left : Text → Text
trim_left [] = []
trim_left (c ∷ cs) = if is_space c then trim_left cs else c ∷ cs

-- A text whose end is trimmed.
unfoldable pub trim_right : Text → Text
trim_right [] = []
trim_right (c ∷ cs) = elim (trim_right cs) [
  | [] ↦ if is_space c then [] else c ∷ []
  | d ∷ ds ↦ c ∷ d ∷ ds
]

-- `strings.TrimSpace`.
unfoldable pub trim_space : Text → Text
unfolding trim_left trim_right
trim_space s = trim_right (trim_left s)

unfoldable pub is_letter : ℕ → Bool
is_letter c = (leb b'a' c && leb c b'z') || (leb b'A' c && leb c b'Z')

unfoldable pub is_digit : ℕ → Bool
is_digit c = leb b'0' c && leb c b'9'

-- The parts of the date in the regular expression. Each class is followed by a character outside
-- it, so that taking as much as possible is the only way to match. A matcher returns what it
-- matched and the rest.
abbrev pub Matcher : Type 0
Matcher = Text → Option (Text × Text)

abbrev pub prepend : ℕ → Option (Text × Text) → Option (Text × Text)
prepend c none = none
prepend c (some (m, rest)) = some (c ∷ m, rest)

abbrev pub followed : Option (Text × Text) → Matcher → Option (Text × Text)
followed none next = none
followed (some (m, rest)) next = elim (next rest) [
  | none ↦ none
  | some (m', rest') ↦ some (m ++ m', rest')
]

-- `[a-zA-Z]*` and `[a-zA-Z]+`.
unfoldable pub letters : Matcher
unfolding is_letter
letters [] = some ([], [])
letters (c ∷ cs) =
    let rest = letters cs in if is_letter c then prepend c rest else some ([], c ∷ cs)

unfoldable pub letters_one : Matcher
unfolding letters
letters_one [] = none
letters_one (c ∷ cs) = if is_letter c then prepend c (letters cs) else none

-- `[0-9]`, and exactly n of them.
unfoldable pub digits : ℕ → Matcher
unfolding is_digit
digits ℕ.zero s = some ([], s)
digits (ℕ.suc n) [] = none
digits (ℕ.suc n) (c ∷ cs) = let rest = digits n cs in if is_digit c then prepend c rest else none

-- `[0-9]{1,2}`.
abbrev pub digits_two : Matcher
digits_two s = elim (digits 2 s) [ some r ↦ some r | none ↦ digits 1 s ]

unfoldable pub literal : ℕ → Matcher
literal c [] = none
literal c (d ∷ ds) = if d == c then some (d ∷ [], ds) else none

-- `[a-zA-Z]+ [0-9]{1,2}, [0-9]{4} [0-9]{1,2}:[0-9]{2} [a-zA-Z]+`
unfoldable pub match_date : Matcher
unfolding letters_one digits literal
match_date s = followed (letters_one s) λ s. followed (literal space s) λ s.
    followed (digits_two s) λ s. followed (literal b',' s) λ s. followed (literal space s) λ s.
      followed (digits 4 s) λ s. followed (literal space s) λ s. followed (digits_two s) λ s.
        followed (literal b':' s)
          λ s. followed (digits 2 s) λ s. followed (literal space s) letters_one

-- The date at the start of a text, if a space follows it.
abbrev pub date_then_space : Text → Option Text
date_then_space s = elim (match_date s) [
  | none ↦ none
  | some (date, rest) ↦ elim (literal space rest) [ none ↦ none | some _ ↦ some date ]
]

-- `FindStringSubmatch` of `(.*) (date) (.*)` on a line: the first two groups. The first group is
-- as long as it can be, so the last place that fits counts.
unfoldable pub find_submatch : Text → Option (Text × Text)
unfolding match_date
find_submatch [] = none
find_submatch (c ∷ cs) = elim (find_submatch cs) [
  | some (before, date) ↦ some (c ∷ before, date)
  | none ↦
      if c == space
      then elim (date_then_space cs) [ none ↦ none | some date ↦ some ([], date) ]
      else none
]

-- The map `certExpires`.
abbrev pub Expiries : Type 0
Expiries = List (Text × Time)

unfoldable pub insert : Text → Time → Expiries → Expiries
insert k t [] = (k, t) ∷ []
insert k t ((j, u) ∷ m) = if k == j then (j, t) ∷ m else (j, u) ∷ insert k t m

-- The test for the header of a table.
unfoldable pub is_header : Text → Bool
unfolding contains_text
is_header line = contains_text line (bytes "CERTIFICATE") && contains_text line (bytes "EXPIRES")

-- `parse_time` is `time.Parse("Jan 02, 2006 15:04 MST", …)`, which also depends on the zone of the
-- machine.
module _ (parse_time : Text → Option Time) where
  -- What a line after the header adds.
  unfoldable pub parse_row : Text → Expiries → Expiries
  unfolding find_submatch trim_space insert
  parse_row line m = elim (find_submatch line) [
    | none ↦ m
    | some (before, date) ↦ elim (parse_time date) [
      | none ↦ m
      | some t ↦ insert (trim_space before) t m
    ]
  ]

  -- The loop over the lines, with the variable `parse`.
  unfoldable pub parse_lines : Bool → List Text → Expiries → Expiries
  unfolding parse_row is_header
  parse_lines parse [] m = m
  parse_lines parse (line ∷ lines) m =
      parse_lines (parse || is_header line) lines (if parse then parse_row line m else m)

  unfoldable pub parse_check_expiration : Text → Expiries
  unfolding parse_lines lines_of
  parse_check_expiration input = parse_lines false (lines_of input) []
