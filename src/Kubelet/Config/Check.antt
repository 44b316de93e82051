-- ===== src/Kubelet/Config/Check.antt =====
-- The reports of `CheckConfig` in pkg/pki/conf/kubelet/kubelet.go.
use kucero.Base.{
  if◌then◌else◌, Text, ◌≡◌, refl, inl, inr, ◌↔◌, Bool, true, false, Option, none, some, List, [],
  contains, text_eq, nat_eq, arith, Bool-cases,
}
use kucero.Api.Error.{Error, noted, Result, ok, err, Result-cases}
use kucero.Host.Run.{Host, done}
use kucero.Kubelet.Files.{KubeConfig}
use kucero.Kubelet.Kubeconfig.{check_etc, needs_update}
use kucero.Kubelet.ConfigYaml.{check_var_lib, check_text, differ}
use kucero.Kubelet.Config.{Kubelet, Tools, etc_path, var_lib_path, check_config, with_checked}

module _ {W : Type 0} (x : Tools W) (k : Kubelet) where
  -- The result of the check of the file of a path.
  abbrev pub etc_check : Host W → Bool × Option Error
  etc_check h = needs_update x.files (x.files.load_from_file etc_path h.world)

  abbrev pub var_lib_check : Host W → Bool × Option Error
  var_lib_check h =
      check_text k.enable_kubelet_client_cert_rotation k.enable_kubelet_server_cert_rotation x.files
        (x.files.read_file var_lib_path h.world)

  -- A check that fails answers no.
  abbrev IsAnswer : Bool × Option Error → Type 0
  IsAnswer (b, none) = Unit
  IsAnswer (b, some e) = b ≡ false

  etc_check-IsAnswer : (r : Result KubeConfig) → IsAnswer (needs_update x.files r)
  etc_check-IsAnswer (ok c) = tt
  etc_check-IsAnswer (err e) = refl

  one_of :
      (a b : Bool)
      → IsAnswer (if a then (true, none) else if b then (true, none) else (false, none))
  one_of true b = tt
  one_of false true = tt
  one_of false false = tt

  var_lib_check-IsAnswer : (c s : Bool) (r : Result Text) → IsAnswer (check_text c s x.files r)
  var_lib_check-IsAnswer c s (err e) = refl
  var_lib_check-IsAnswer c s (ok t) = elim (Result-cases (x.files.unmarshal t)) [
    | inr (e, failed) ↦ rw failed refl
    | inl (kc, decoded) ↦
        rw decoded (one_of (differ kc.rotate_certificates c) (differ kc.server_tls_bootstrap s))
  ]

  -- The names and the error after both checks.
  abbrev summary : Bool → Bool × Option Error → Bool × Option Error → List Text × Option Error
  summary true r s =
      (with_checked x k var_lib_path (with_checked x k etc_path [] r) s, noted (noted none r.1) s.1)
  summary false r s =
      (with_checked x k etc_path (with_checked x k var_lib_path [] s) r, noted (noted none s.1) r.1)

  summary_lem :
      (f : Bool) (r s : Bool × Option Error)
      → IsAnswer r
      → IsAnswer s
      → (contains (summary f r s).0 etc_path ≡ r.0)
        × (contains (summary f r s).0 var_lib_path ≡ s.0)
        × (((summary f r s).1 ≡ none) ↔ ((r.1 ≡ none) × (s.1 ≡ none)))
  unfolding text_eq nat_eq
  summary_lem true (b, none) (c, none) p q = ground arith
  summary_lem true (b, none) (c, some e) p q = ground arith
  summary_lem true (b, some e) (c, none) p q = ground arith
  summary_lem true (b, some e) (c, some e') p q = ground arith
  summary_lem false (b, none) (c, none) p q = ground arith
  summary_lem false (b, none) (c, some e) p q = ground arith
  summary_lem false (b, some e) (c, none) p q = ground arith
  summary_lem false (b, some e) (c, some e') p q = ground arith

  check_config-summary :
      (h : Host W)
      → check_config x k h
        ≡ (done (summary (x.etc_first h.world) (etc_check h) (var_lib_check h)), h)
  unfolding check_config check_etc check_var_lib
  check_config-summary h = elim (Bool-cases (x.etc_first h.world)) [
    | inl first ↦ rw first refl
    | inr second ↦ rw second refl
  ]

  -- In whichever order the two files are visited, `CheckConfig` reports each file exactly if that
  -- file's own check finds that it needs an update, returns an error exactly if one of the two
  -- checks fails, and leaves the host alone.
  pub check_config_lem :
      (h : Host W)
      → (names : List Text) × (errs : Option Error) × (check_config x k h ≡ (done (names, errs), h))
        × (contains names etc_path ≡ (etc_check h).0)
        × (contains names var_lib_path ≡ (var_lib_check h).0)
        × ((errs ≡ none) ↔ (((etc_check h).1 ≡ none) × ((var_lib_check h).1 ≡ none)))
  check_config_lem h =
      let r = summary (x.etc_first h.world) (etc_check h) (var_lib_check h) in
      let (etc, var_lib, errors) =
        summary_lem (x.etc_first h.world) (etc_check h) (var_lib_check h)
          (etc_check-IsAnswer (x.files.load_from_file etc_path h.world))
          (var_lib_check-IsAnswer k.enable_kubelet_client_cert_rotation
            k.enable_kubelet_server_cert_rotation (x.files.read_file var_lib_path h.world)) in
      (r.0, r.1, check_config-summary h, etc, var_lib, errors)
