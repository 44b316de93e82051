-- ===== src/Kubeadm/Backup.antt =====
-- The path of a backup, of `backupCertificate` in pkg/pki/cert/kubeadm/kubeadm.go. The functions
-- of path/filepath are written for what they are called on, clean absolute paths of files below
-- the root.
pub mod Laws
mod Tests
use kucero.Base.{
  ℕ, Text, List, [], ◌∷◌, ◌++◌, ◌==◌, nat_eq, text_eq, contains, ◌+◌, ◌/◌, ◌%◌, bytes,
  if◌then◌else◌,
}

abbrev pub slash : ℕ
slash = b'/'

abbrev pub dot : ℕ
dot = b'.'

-- `filepath.Base`: what follows the last slash.
unfoldable pub base : Text → Text
base [] = []
base (c ∷ cs) = let rest = base cs in if contains (c ∷ cs) slash then rest else c ∷ cs

-- `filepath.Dir`: what precedes the last slash.
unfoldable pub dir : Text → Text
dir [] = []
dir (c ∷ cs) = let rest = dir cs in if contains cs slash then c ∷ rest else []

-- The text from its last dot on.
unfoldable pub from_last_dot : Text → Text
from_last_dot [] = []
from_last_dot (c ∷ cs) =
    let rest = from_last_dot cs in if contains cs dot then rest else if c == dot then c ∷ cs else []

-- `filepath.Ext` looks no further back than the last slash.
unfoldable pub ext : Text → Text
unfolding from_last_dot base
ext path = from_last_dot (base path)

-- `strings.TrimSuffix`.
unfoldable pub trim_suffix : Text → Text → Text
trim_suffix [] suffix = []
trim_suffix (c ∷ cs) suffix =
    let rest = trim_suffix cs suffix in if c ∷ cs == suffix then [] else c ∷ rest

-- `filepath.Join` of a directory and a name.
abbrev pub join : Text → Text → Text
join d name = d ++ (slash ∷ name)

-- A local time.
pub record Civil : Type 0 where
  pub year : ℕ
  pub month : ℕ
  pub day : ℕ
  pub hour : ℕ
  pub minute : ℕ
  pub second : ℕ

abbrev pub digit : ℕ → ℕ
digit n = b'0' + n % 10

abbrev pub two_digits : ℕ → Text
two_digits n = digit (n / 10) ∷ digit n ∷ []

abbrev pub four_digits : ℕ → Text
four_digits n = two_digits (n / 100) ++ two_digits n

-- The element `03` of a layout: the hour of the 12-hour clock.
unfoldable pub hour_12 : ℕ → ℕ
hour_12 h = if h % 12 == 0 then 12 else h % 12

-- `Format("20060102030405")`.
unfoldable pub stamp : Civil → Text
unfolding hour_12
stamp t =
    four_digits t.year
    ++ (two_digits t.month
        ++ (two_digits t.day
            ++ (two_digits (hour_12 t.hour) ++ (two_digits t.minute ++ two_digits t.second))))

unfoldable pub backup_path : Text → Civil → Text
unfolding dir base ext trim_suffix stamp
backup_path path now =
    join (dir path) (
      trim_suffix (base path) (ext path)
      ++ (bytes "-" ++ (stamp now ++ (ext path ++ bytes ".bak"))))
