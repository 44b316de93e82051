-- ===== src/Kubeadm/Table/Laws.antt =====
-- The parser of pkg/pki/cert/kubeadm/exec.go on well-formed tables.
use kucero.Base.{
  Text, ◌≡◌, refl, ap, ◌∙◌, Bool, true, false, not, ◌||◌, Option, none, some, List, [], ◌∷◌, ◌++◌,
  map, all, contains, nat_eq, text_eq, All, arith, ◌==◌,
}
use mathlib.Core.List.{append-nil, append_assoc}
use kucero.Api.Time.{Time}
use kucero.Kubeadm.Table.{
  space, split_lines, is_space, trim_left, trim_right, trim_space, date_then_space, find_submatch,
  Expiries, insert, is_header, parse_row, parse_lines, parse_check_expiration,
}

-- Lines, each ended by a newline but the last.
pub join_lines : Text → List Text → Text
join_lines line [] = line
join_lines line (next ∷ lines) = line ++ (10 ∷ join_lines next lines)

abbrev pub is_one_line : Text → Bool
is_one_line line = not (contains line 10)

split_lines-append :
    (line rest : Text)
    → is_one_line line ≡ true
    → split_lines (line ++ (10 ∷ rest)) ≡ (line, (split_lines rest).0 ∷ (split_lines rest).1)
unfolding split_lines
split_lines-append [] rest h = ground arith
split_lines-append (c ∷ line) rest h = ground (arith, split_lines-append line rest)

split_lines_last : (line : Text) → is_one_line line ≡ true → split_lines line ≡ (line, [])
unfolding split_lines
split_lines_last [] h = refl
split_lines_last (c ∷ line) h = ground (arith, split_lines_last line)

split_lines-join_lines :
    (line : Text) (lines : List Text)
    → is_one_line line ≡ true
    → All (λ l. is_one_line l ≡ true) lines
    → split_lines (join_lines line lines) ≡ (line, lines)
unfolding join_lines
split_lines-join_lines line [] h hs = split_lines_last line h
split_lines-join_lines line (next ∷ lines) h (h', hs) =
    split_lines-append line _ h ∙ rw (split_lines-join_lines next lines h' hs)

find_submatch-append :
    (before tail date : Text)
    → find_submatch tail ≡ none
    → date_then_space tail ≡ some date
    → find_submatch (before ++ (space ∷ tail)) ≡ some (before, date)
unfolding find_submatch
find_submatch-append [] tail date later fits = ground arith
find_submatch-append (c ∷ before) tail date later fits =
    ground (arith, find_submatch-append before tail date later fits)

trim_right_of_spaces : (pad : Text) → all is_space pad ≡ true → trim_right pad ≡ []
unfolding trim_right
trim_right_of_spaces [] h = refl
trim_right_of_spaces (c ∷ pad) h = ground (arith, trim_right_of_spaces pad)

trim_right-append : (s pad : Text) → all is_space pad ≡ true → trim_right (s ++ pad) ≡ trim_right s
unfolding trim_right
trim_right-append [] pad h = trim_right_of_spaces pad h
trim_right-append (c ∷ s) pad h = rw (trim_right-append s pad h)

-- The text begins with a character that is no space.
abbrev pub begins_bare : Text → Bool
begins_bare [] = false
begins_bare (c ∷ cs) = not (is_space c)

trim_space-append :
    (name pad : Text)
    → begins_bare name ≡ true
    → trim_right name ≡ name
    → all is_space pad ≡ true
    → trim_space (name ++ pad) ≡ name
unfolding trim_space trim_left
trim_space-append [] pad bare ends spaces = absurd (cc)
trim_space-append (c ∷ name) pad bare ends spaces = ground (arith, trim_right-append (c ∷ name) pad)

insert-append :
    (k : Text) (t : Time) (m : Expiries)
    → contains (map (λ e. e.0) m) k ≡ false
    → insert k t m ≡ m ++ ((k, t) ∷ [])
unfolding insert
insert-append k t [] fresh = refl
insert-append k t ((j, u) ∷ m) fresh = ground (arith, insert-append k t m)

-- A row of the table, and the time that its date stands for.
pub record Row : Type 0 where
  pub name : Text
  pub pad : Text
  pub date : Text
  pub rest : Text
  pub time : Time

abbrev pub row_tail : Row → Text
row_tail r = r.date ++ (space ∷ r.rest)

abbrev pub row_text : Row → Text
row_text r = (r.name ++ r.pad) ++ (space ∷ row_tail r)

-- The name neither begins nor ends with a space, spaces pad it, the date has the form and stands
-- for the time, no second date follows it, and the row is one line.
pub record IsRow (parse_time : Text → Option Time) (r : Row) : Type 0 where
  pub begins : begins_bare r.name ≡ true
  pub ends : trim_right r.name ≡ r.name
  pub padding : all is_space r.pad ≡ true
  pub date_fits : date_then_space (row_tail r) ≡ some r.date
  pub no_later : find_submatch (row_tail r) ≡ none
  pub stands_for : parse_time r.date ≡ some r.time
  pub one_line : is_one_line (row_text r) ≡ true

abbrev pub entry : Row → Text × Time
entry r = (r.name, r.time)

-- No name occurs twice.
abbrev pub DistinctNames : List Row → Type 0
DistinctNames [] = Unit
DistinctNames (r ∷ rs) = (contains (map (λ s. s.name) rs) r.name ≡ false) × DistinctNames rs

contains-append :
    (k j : Text) (t : Time) (m : Expiries)
    → contains (map (λ e. e.0) (m ++ ((j, t) ∷ []))) k ≡ (contains (map (λ e. e.0) m) k || k == j)
contains-append k j t [] = ground arith
contains-append k j t ((i, u) ∷ m) = ground (arith, contains-append k j t m)

-- None of the rows has an entry yet.
abbrev pub AreNew : Expiries → List Row → Type 0
AreNew m rs = All (λ r. contains (map (λ e. e.0) m) r.name ≡ false) rs

AreNew-append :
    (m : Expiries) (j : Text) (t : Time) (rs : List Row)
    → AreNew m rs
    → contains (map (λ s. s.name) rs) j ≡ false
    → AreNew (m ++ ((j, t) ∷ [])) rs
AreNew-append m j t [] new absent = tt
AreNew-append m j t (r ∷ rs) (new, news) absent =
    (ground (arith, contains-append r.name j t m), AreNew-append m j t rs news (ground arith))

AreNew-nil : (rs : List Row) → AreNew [] rs
AreNew-nil [] = tt
AreNew-nil (r ∷ rs) = (refl, AreNew-nil rs)

module _ (parse_time : Text → Option Time) where
  parse_row_lem :
      (r : Row) (m : Expiries)
      → IsRow parse_time r
      → parse_row parse_time (row_text r) m ≡ insert r.name r.time m
  unfolding parse_row
  parse_row_lem r m h =
      rw
        (
          find_submatch-append (r.name ++ r.pad) (row_tail r) r.date h.no_later h.date_fits,
          parse_row,
        )
        (rw (h.stands_for, trim_space-append r.name r.pad h.begins h.ends h.padding))

  parse_rows :
      (rs : List Row) (m : Expiries)
      → All (IsRow parse_time) rs
      → DistinctNames rs
      → AreNew m rs
      → parse_lines parse_time true (map row_text rs) m ≡ m ++ map entry rs
  unfolding parse_lines
  parse_rows [] m ok distinct new = rw append-nil
  parse_rows (r ∷ rs) m (h, hs) (d, ds) (new, news) =
      ap (λ n. parse_lines parse_time true (map row_text rs) n)
        (parse_row_lem r m h ∙ insert-append r.name r.time m new)
      ∙ parse_rows rs (m ++ (entry r ∷ [])) hs ds (AreNew-append m r.name r.time rs news d)
      ∙ append_assoc m (entry r ∷ []) (map entry rs)

  parse_lines_before :
      (before : List Text) (header : Text) (lines : List Text)
      → All (λ l. is_header l ≡ false) before
      → is_header header ≡ true
      → parse_lines parse_time false (before ++ (header ∷ lines)) []
        ≡ parse_lines parse_time true lines []
  unfolding parse_lines
  parse_lines_before [] header lines none_before h = rw (h, parse_lines)
  parse_lines_before (l ∷ before) header lines (first, others) h =
      rw (first, parse_lines) (parse_lines_before before header lines others h)

  All-row_text :
      (rs : List Row)
      → All (IsRow parse_time) rs
      → All (λ l. is_one_line l ≡ true) (map row_text rs)
  All-row_text [] h = tt
  All-row_text (r ∷ rs) (h, hs) = (h.one_line, All-row_text rs hs)

  -- The text of a table whose first line, `title`, is no header, whose second line is the header,
  -- and whose other lines are well-formed rows with different names, is read back as exactly the
  -- names and times of the rows, in their order.
  pub parse_table :
      (title header : Text) (rs : List Row)
      → is_one_line title ≡ true
      → is_header title ≡ false
      → is_one_line header ≡ true
      → is_header header ≡ true
      → All (IsRow parse_time) rs
      → DistinctNames rs
      → parse_check_expiration parse_time (join_lines title (header ∷ map row_text rs))
        ≡ map entry rs
  unfolding parse_check_expiration
  parse_table title header rs one plain one' heads hs ds =
      rw (split_lines-join_lines title (header ∷ map row_text rs) one (one', All-row_text rs hs)) (
        parse_lines_before (title ∷ []) header (map row_text rs) (plain, tt) heads
        ∙ parse_rows rs [] hs ds (AreNew-nil rs))
