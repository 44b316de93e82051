-- ===== src/Kubeadm/Certificates/Settle/Tests.antt =====
-- A machine with one certificate, which is due until it is renewed.
use kucero.Base.{
  Text, ◌≡◌, refl, Bool, true, false, not, none, some, List, [], ◌∷◌, ◌++◌, ◌&&◌, ◌==◌, bytes, any,
  text_eq, nat_eq, words_eq, arith, Bool-cases, inl, inr, if◌then◌else◌,
}
use mathlib.Core.Path.{subst}
use mathlib.Core.List.Perm.{refl as Perm_refl}
use kucero.Api.Time.{minutes}
use kucero.Api.Error.{external}
use kucero.Host.Commands.{output, restart_command}
use kucero.Host.Run.{Host, done}
use kucero.Kubeadm.Table.{is_space, parse_check_expiration}
use kucero.Kubeadm.Expiry.{expires_at}
use kucero.Kubeadm.Certificates.{
  Tools, version_command, renew_command, check_command, copy_command, rotate_one, rotate,
  check_expiration, certificate_path,
}
use kucero.Kubeadm.Certificates.Expiration.{is_due}
use kucero.Kubeadm.Certificates.Machine.{IsKubeadm}
use kucero.Kubeadm.Certificates.Settle.{rotate_settles}

abbrev api : Text
api = bytes "apiserver"

-- `true` once the certificate was renewed.
abbrev table : Bool → Text
table false =
    bytes "CERTIFICATE   EXPIRES   RESIDUAL TIME"
    ++ (10 ∷ bytes "apiserver   May 12, 2021 02:29 UTC   4m   no")
table true =
    bytes "CERTIFICATE   EXPIRES   RESIDUAL TIME"
    ++ (10 ∷ bytes "apiserver   May 12, 2022 02:29 UTC   364d   no")

abbrev failing : List Text → Bool
failing args = args == renew_command false api

abbrev x : Tools Bool
x = record {
  shell = record {
    exec = λ args w. record {
      stdout = if args == version_command then bytes "v1.20.0" ++ (10 ∷ []) else table w;
      error = if failing args then some (external "kubeadm") else none;
      world = if args == renew_command true api then true else w;
    };
  };
  local_time = λ w. record { year = 2021; month = 5; day = 12; hour = 2; minute = 25; second = 0 };
  clock = record { now = λ w. record { time = minutes 1; world = w } };
  parse_time = λ date.
      if date == bytes "May 12, 2021 02:29 UTC" then some (minutes 5) else some (minutes 500000);
  range = λ m. m;
  at_least_1_20 = λ v. some true;
}

abbrev due : Bool → Text → Bool
due w name = not w && name == api

prints_due :
    (w recent : Bool) (name : Text)
    → (x.shell.exec (check_command recent) w).error ≡ none
    → any
        (is_due (minutes 10) (minutes 1) name)
        (parse_check_expiration x.parse_time (x.shell.exec (check_command recent) w).stdout)
      ≡ due w name
unfolding check_command version_command words_eq parse_check_expiration is_space expires_at nat_eq
prints_due false false name fine = ground arith
prints_due false true name fine = ground arith
prints_due true false name fine = ground arith
prints_due true true name fine = ground arith

check_works : (w recent : Bool) → (x.shell.exec (check_command recent) w).error ≡ none
unfolding check_command renew_command words_eq
check_works w false = refl
check_works w true = refl

renews_api :
    (w recent : Bool)
    → (x.shell.exec (renew_command recent api) w).error ≡ none
    → due (x.shell.exec (renew_command recent api) w).world api ≡ false
unfolding renew_command words_eq nat_eq text_eq
renews_api w false fine = absurd (ground arith)
renews_api w true fine = refl

renews_due :
    (w recent : Bool) (name : Text)
    → (x.shell.exec (renew_command recent name) w).error ≡ none
    → due (x.shell.exec (renew_command recent name) w).world name ≡ false
renews_due w recent name fine = elim (Bool-cases (name == api)) [
  | inr other ↦ ground arith
  | inl same ↦
      let e : api ≡ name = ground arith in
      subst
        (λ (n : Text).
          (x.shell.exec (renew_command recent n) w).error ≡ none
          → due (x.shell.exec (renew_command recent n) w).world n ≡ false)
        e (renews_api w recent) fine
]

keeps_due :
    (w : Bool) (args : List Text) (name : Text)
    → due w name ≡ false
    → due (x.shell.exec args w).world name ≡ false
keeps_due w args name fine = elim (Bool-cases (args == renew_command true api)) [
  | inl renew ↦ rw renew refl
  | inr other ↦ rw other fine
]

x-IsKubeadm : IsKubeadm x (minutes 10) (minutes 1) due
x-IsKubeadm = record {
  prints = prints_due;
  renews = renews_due;
  keeps = λ w args name own fine. keeps_due w args name fine;
}

abbrev start : Host Bool
start = record { world = false; effects = [] }

abbrev checked : Host Bool
checked = (check_expiration x (minutes 10) start).1

abbrev rotated : Host Bool
rotated = (rotate x (api ∷ []) checked).1

reports_api : check_expiration x (minutes 10) start ≡ (done (api ∷ [], none), checked)
unfolding check_expiration output words_eq version_command check_command renew_command
    parse_check_expiration nat_eq text_eq is_space
reports_api = refl

renews : rotate x (api ∷ []) checked ≡ (done none, rotated)
unfolding rotate rotate_one certificate_path output text_eq words_eq copy_command check_command
    renew_command version_command restart_command
renews = refl

rotate_settles_example :
    (k' : Host Bool) × (check_expiration x (minutes 10) rotated ≡ (done ([], none), k'))
unfolding version_command renew_command words_eq certificate_path text_eq
rotate_settles_example =
    rotate_settles x (minutes 10) (minutes 1) (λ w. refl) Perm_refl due x-IsKubeadm
      (λ w fine. (true, refl)) start checked checked rotated rotated (api ∷ []) reports_api
      ((bytes "/etc/kubernetes/pki/apiserver.crt", refl), tt) (λ n f. f) renews (λ n f. f) refl
      (check_works true)
