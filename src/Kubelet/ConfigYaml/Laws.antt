-- ===== src/Kubelet/ConfigYaml/Laws.antt =====
-- The edit of config.yaml in pkg/pki/conf/kubelet/exec.go.
use kucero.Base.{
  ℕ, Text, ◌≡◌, ◌≢◌, refl, sym, ap, Bool, true, false, none, [], ◌∷◌, ◌++◌, not, text_eq, nat_eq,
  arith, bytes, Bool-cases, inl, inr,
}
use kucero.Api.Error.{ok}
use kucero.Host.Run.{Host, done, write_file}
use kucero.Kubeadm.Table.{has_prefix, contains_text}
use kucero.Kubelet.Files.{KubeletConfiguration, Files}
use kucero.Kubelet.ConfigYaml.{
  after_prefix, replace_first, setting, differ, set_key, rotate_key, edited, check_var_lib,
  update_var_lib,
}

after_prefix-append : (s old : Text) → has_prefix s old ≡ true → s ≡ old ++ after_prefix s old
unfolding after_prefix has_prefix
after_prefix-append s [] h = refl
after_prefix-append [] (p ∷ ps) h = absurd (cc)
after_prefix-append (c ∷ cs) (p ∷ ps) h = ground (arith, after_prefix-append cs ps)

replace_first_absent :
    (s old new : Text) → contains_text s old ≡ false → replace_first s old new ≡ s
unfolding replace_first contains_text
replace_first_absent [] old new h = refl
replace_first_absent (c ∷ cs) old new h = ground (arith, replace_first_absent cs old new)

replace_first_present :
    (s old new : Text)
    → old ≢ []
    → contains_text s old ≡ true
    → (before : Text) × (rest : Text) × (s ≡ before ++ (old ++ rest))
      × (replace_first s old new ≡ before ++ (new ++ rest))
unfolding replace_first contains_text has_prefix
replace_first_present [] [] new filled h = absurd (filled refl)
replace_first_present [] (p ∷ ps) new filled h = absurd (cc)
replace_first_present (c ∷ cs) old new filled h = elim (Bool-cases (has_prefix (c ∷ cs) old)) [
  | inl here ↦ ([], after_prefix (c ∷ cs) old, after_prefix-append (c ∷ cs) old here, rw here refl)
  | inr later ↦
      let (before, rest, parts, replaced) =
        replace_first_present cs old new filled (ground arith) in
      (c ∷ before, rest, ap (λ t. c ∷ t) parts, ground (arith, later, replaced))
]

-- What setting a key can do to a text.
pub data KeySet (key : Text) (old new : Bool) (s : Text) : Text → Type 0 where
  added :
      contains_text s (key ++ bytes ":") ≡ false
      → KeySet key old new s (s ++ (setting key new ++ bytes "\n"))
  replaced :
      (before rest : Text)
      → s ≡ before ++ (setting key old ++ rest)
      → KeySet key old new s (before ++ (setting key new ++ rest))
  kept :
      contains_text s (key ++ bytes ":") ≡ true
      → contains_text s (setting key old) ≡ false
      → KeySet key old new s s

setting-filled : (key : Text) (b : Bool) → setting key b ≢ []
setting-filled [] b e = cc
setting-filled (c ∷ key) b e = cc

-- Setting a key adds its line at the end of a text that does not name the key, replaces one
-- occurrence of the old setting and nothing else, or, in a text that names the key but has the old
-- setting in no place, changes nothing.
pub set_key-KeySet :
    (key : Text) (old new : Bool) (s : Text) → KeySet key old new s (set_key key old new s)
unfolding set_key
set_key-KeySet key old new s = elim (Bool-cases (contains_text s (key ++ bytes ":"))) [
  | inr missing ↦ rw missing (added missing)
  | inl named ↦ rw named (elim (Bool-cases (contains_text s (setting key old))) [
    | inl present ↦
        let (before, rest, parts, result) =
          replace_first_present s (setting key old) (setting key new) (setting-filled key old)
            present in
        rw result (replaced before rest parts)
    | inr absent ↦
        rw (replace_first_absent s (setting key old) (setting key new) absent) (kept named absent)
  ])
]

differ_same : (a b : Bool) → a ≡ b → differ a b ≡ false
differ_same false b e = sym e
differ_same true b e = ap not (sym e)

set_key_kept :
    (key : Text) (old new : Bool) (s : Text)
    → contains_text s (key ++ bytes ":") ≡ true
    → contains_text s (setting key old) ≡ false
    → set_key key old new s ≡ s
unfolding set_key
set_key_kept key old new s named absent =
    rw named (replace_first_absent s (setting key old) (setting key new) absent)

edited_kept :
    (enable_server : Bool) (kc : KubeletConfiguration) (s : Text)
    → kc.rotate_certificates ≡ false
    → kc.server_tls_bootstrap ≡ enable_server
    → contains_text s (rotate_key ++ bytes ":") ≡ true
    → contains_text s (setting rotate_key false) ≡ false
    → edited true enable_server kc s ≡ s
unfolding edited
edited_kept enable_server kc s off same named absent =
    rw (differ_same kc.server_tls_bootstrap enable_server same, off)
      (set_key_kept rotate_key false true s named absent)

-- When a file names `rotateCertificates`, but not in the form `rotateCertificates: false`, decodes
-- with that setting off and the other one as wanted, and a write of its own text succeeds and is
-- what the next read finds, then an update that has to turn the setting on succeeds, writes the
-- file once, leaves the same text in it, and the next check finds that it needs an update.
pub update_var_lib_stale :
    {W : Type 0} (x : Files W) (enable_server : Bool) (p s : Text) (kc : KubeletConfiguration)
    (mode : ℕ) (h : Host W)
    → x.read_file p h.world ≡ ok s
    → x.unmarshal s ≡ ok kc
    → kc.rotate_certificates ≡ false
    → kc.server_tls_bootstrap ≡ enable_server
    → contains_text s (rotate_key ++ bytes ":") ≡ true
    → contains_text s (setting rotate_key false) ≡ false
    → x.stat p h.world ≡ ok mode
    → (x.write p s mode h.world).error ≡ none
    → x.read_file p (x.write p s mode h.world).world ≡ ok s
    → (h' : Host W) × (update_var_lib true enable_server x p p h ≡ (done none, h'))
      × (h'.effects ≡ h.effects ++ (write_file p ∷ []))
      × (x.read_file p h'.world ≡ ok s)
      × (check_var_lib true enable_server x p h' ≡ (done (true, none), h'))
unfolding update_var_lib check_var_lib
update_var_lib_stale x enable_server p s kc mode h reads decodes off same named absent stats fine
      again =
    let r = x.write p s mode h.world in
    (
      record { world = r.world; effects = h.effects ++ (write_file p ∷ []) },
      rw (reads, decodes, stats, edited_kept enable_server kc s off same named absent, fine) refl,
      refl,
      again,
      rw (again, decodes, off) refl,
    )
