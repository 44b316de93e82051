-- ===== src/Kubeadm/Backup/Laws.antt =====
-- The form of the path of a backup in pkg/pki/cert/kubeadm/kubeadm.go.
use kucero.Base.{
  ℕ, Text, ◌≡◌, ◌≢◌, refl, ap, true, false, [], ◌∷◌, ◌++◌, ◌+◌, ◌%◌, nat_eq, text_eq, contains,
  length, length-append, bytes, arith,
}
use mathlib.Core.List.{append_assoc}
use kucero.Kubeadm.Backup.{
  slash, dot, base, dir, from_last_dot, ext, trim_suffix, join, Civil, hour_12, stamp, backup_path,
}

contains_middle : (s t : Text) (c : ℕ) → contains (s ++ (c ∷ t)) c ≡ true
contains_middle [] t c = ground arith
contains_middle (d ∷ s) t c = ground (arith, contains_middle s t c)

base_plain : (f : Text) → contains f slash ≡ false → base f ≡ f
unfolding base
base_plain [] h = refl
base_plain (c ∷ f) h = rw h

base-append : (d f : Text) → contains f slash ≡ false → base (d ++ (slash ∷ f)) ≡ f
unfolding base nat_eq
base-append [] f h = base_plain f h
base-append (c ∷ d) f h = ground (arith, contains_middle d f slash, base-append d f h)

dir-append : (d f : Text) → contains f slash ≡ false → dir (d ++ (slash ∷ f)) ≡ d
unfolding dir
dir-append [] f h = rw h
dir-append (c ∷ d) f h = rw (contains_middle d f slash) (ap (λ t. c ∷ t) (dir-append d f h))

from_last_dot-append :
    (s e : Text) → contains e dot ≡ false → from_last_dot (s ++ (dot ∷ e)) ≡ dot ∷ e
unfolding from_last_dot
from_last_dot-append [] e h = ground arith
from_last_dot-append (c ∷ s) e h = rw (contains_middle s e dot) (from_last_dot-append s e h)

longer : (c : ℕ) (s suffix : Text) → c ∷ (s ++ suffix) ≢ suffix
longer c s suffix e = omega (arith, ap length e, length-append {0} s suffix)

trim_suffix-append : (s suffix : Text) → suffix ≢ [] → trim_suffix (s ++ suffix) suffix ≡ s
unfolding trim_suffix
trim_suffix-append [] [] h = absurd (h refl)
trim_suffix-append [] (x ∷ suffix) h = ground arith
trim_suffix-append (c ∷ s) suffix h =
    ground (arith, trim_suffix-append s suffix h, longer c s suffix)

-- The backup of `stem.e` in a directory is `stem-stamp.e.bak` in the same directory.
pub backup_path_form :
    (d stem e : Text) (now : Civil)
    → contains (stem ++ (dot ∷ e)) slash ≡ false
    → contains e dot ≡ false
    → backup_path (join d (stem ++ (dot ∷ e))) now
      ≡ join d (stem ++ (bytes "-" ++ (stamp now ++ ((dot ∷ e) ++ bytes ".bak"))))
unfolding backup_path ext
backup_path_form d stem e now no_slash no_dot =
    let file = stem ++ (dot ∷ e) in
    let extension : ext (join d file) ≡ dot ∷ e =
      rw (base-append d file no_slash) (from_last_dot-append stem e no_dot) in
    rw (
      extension,
      base-append d file no_slash,
      dir-append d file no_slash,
      trim_suffix-append stem (dot ∷ e) (λ q. cc),
      append_assoc,
    )

same_hour : (h : ℕ) → hour_12 (h + 12) ≡ hour_12 h
unfolding hour_12
same_hour h = let same : (h + 12) % 12 ≡ h % 12 = omega arith in rw same

-- Two backups of a file that are twelve hours apart on one day, at the same minute and second, have
-- the same path.
pub backup_path_collides :
    (path : Text) (t : Civil)
    → backup_path path t ≡ backup_path path (record t { hour = t.hour + 12 })
unfolding backup_path
backup_path_collides path t =
    let same : hour_12 (t.hour + 12) ≡ hour_12 t.hour = same_hour t.hour in rw same
