-- ===== src/Kubelet/Config/Disk.antt =====
-- The two files of pkg/pki/conf/kubelet/exec.go on a disk, and one update of one of them.
use kucero.Base.{
  ℕ, Text, ◌≡◌, ◌∙◌, sym, ap, ◌⊎◌, inl, inr, Bool, false, none, List, [], ◌∷◌, arith, text_eq,
}
use kucero.Api.Error.{ok, Result-cases}
use kucero.Host.Run.{Host, done}
use kucero.Kubelet.Files.{KubeConfig, KubeletConfiguration}
use kucero.Kubelet.Kubeconfig.{updated_config, needs_update, check_etc, update_etc}
use kucero.Kubelet.Kubeconfig.Laws.{update_etc_settles}
use kucero.Kubelet.ConfigYaml.{check_text, edited, update_var_lib}
use kucero.Kubelet.Config.{Tools, etc_path, var_lib_path}

abbrev second : Text → ℕ
second [] = 0
second (a ∷ []) = 0
second (a ∷ b ∷ l) = b

module _ {W : Type 0} (x : Tools W) (c s : Bool) where
  -- The documented behaviour of the files: what a successful write puts there is what the next read
  -- finds, a write leaves the other file alone, and so does a command.
  pub record IsDisk : Type 0 where
    pub load_written :
        (config : KubeConfig) (w : W)
        → (x.files.write_to_file config etc_path w).error ≡ none
        → x.files.load_from_file etc_path (x.files.write_to_file config etc_path w).world
          ≡ ok config
    pub read_written :
        (text : Text) (mode : ℕ) (w : W)
        → (x.files.write var_lib_path text mode w).error ≡ none
        → x.files.read_file var_lib_path (x.files.write var_lib_path text mode w).world ≡ ok text
    pub load_apart :
        (text : Text) (mode : ℕ) (w : W)
        → x.files.load_from_file etc_path (x.files.write var_lib_path text mode w).world
          ≡ x.files.load_from_file etc_path w
    pub read_apart :
        (config : KubeConfig) (w : W)
        → x.files.read_file var_lib_path (x.files.write_to_file config etc_path w).world
          ≡ x.files.read_file var_lib_path w
    pub load_run :
        (args : List Text) (w : W)
        → x.files.load_from_file etc_path (x.shell.exec args w).world
          ≡ x.files.load_from_file etc_path w
    pub read_run :
        (args : List Text) (w : W)
        → x.files.read_file var_lib_path (x.shell.exec args w).world
          ≡ x.files.read_file var_lib_path w

  abbrev pub IsEtcClean : W → Type 0
  IsEtcClean w = needs_update x.files (x.files.load_from_file etc_path w) ≡ (false, none)

  abbrev pub IsVarLibClean : W → Type 0
  IsVarLibClean w = check_text c s x.files (x.files.read_file var_lib_path w) ≡ (false, none)

  -- The edited text of config.yaml decodes to what is wanted.
  pub record IsEditable (w : W) : Type 0 where
    pub text : Text
    pub decoded : KubeletConfiguration
    pub reads : x.files.read_file var_lib_path w ≡ ok text
    pub decodes : x.files.unmarshal text ≡ ok decoded
    pub wanted : check_text c s x.files (ok (edited c s decoded text)) ≡ (false, none)

  edited_again :
      (t : Text)
      → check_text c s x.files (ok t) ≡ (false, none)
      → (kc : KubeletConfiguration) × (x.files.unmarshal t ≡ ok kc) × (edited c s kc t ≡ t)
  unfolding edited
  edited_again t clean = elim (Result-cases (x.files.unmarshal t)) [
    | inr (e, bad) ↦ absurd (ground arith)
    | inl (kc, decodes) ↦ (kc, decodes, ground arith)
  ]

  module _ (disk : IsDisk) where
    etc_world :
        (h h' : Host W) (config : KubeConfig)
        → x.files.load_from_file etc_path h.world ≡ ok config
        → update_etc x.files etc_path etc_path h ≡ (done none, h')
        → h'.world ≡ (x.files.write_to_file (updated_config config) etc_path h.world).world
    unfolding update_etc
    etc_world h h' config loaded ran = ground arith

    etc_step :
        (h h' : Host W)
        → update_etc x.files etc_path etc_path h ≡ (done none, h')
        → IsEtcClean h'.world
          × (x.files.read_file var_lib_path h'.world ≡ x.files.read_file var_lib_path h.world)
    unfolding check_etc
    etc_step h h' ran =
        let (config, loaded, again, checked, _) =
          update_etc_settles x.files etc_path h h' disk.load_written ran in
        (
          cc,
          rw (etc_world h h' config loaded ran) (disk.read_apart (updated_config config) h.world),
        )

    var_lib_world :
        (h h' : Host W) (editable : IsEditable h.world) (mode : ℕ)
        → x.files.stat var_lib_path h.world ≡ ok mode
        → update_var_lib c s x.files var_lib_path var_lib_path h ≡ (done none, h')
        → ((x.files.write var_lib_path
              (edited c s editable.decoded editable.text)
              mode
              h.world).error
            ≡ none)
          × (h'.world
              ≡ (x.files.write var_lib_path
                  (edited c s editable.decoded editable.text)
                  mode
                  h.world).world)
    unfolding update_var_lib
    var_lib_world h h' editable mode known ran = ground (arith, editable.reads, editable.decodes)

    var_lib_step :
        (h h' : Host W)
        → IsEditable h.world
        → update_var_lib c s x.files var_lib_path var_lib_path h ≡ (done none, h')
        → IsVarLibClean h'.world
          × IsEditable h'.world
          × (x.files.load_from_file etc_path h'.world ≡ x.files.load_from_file etc_path h.world)
    unfolding update_var_lib
    var_lib_step h h' editable ran = elim (Result-cases (x.files.stat var_lib_path h.world)) [
      | inr (e, failed) ↦ absurd (ground (arith, editable.reads, editable.decodes))
      | inl (mode, known) ↦
          let t : Text = edited c s editable.decoded editable.text in
          let r = x.files.write var_lib_path t mode h.world in
          let (fine, moved) = var_lib_world h h' editable mode known ran in
          let reads' : x.files.read_file var_lib_path h'.world ≡ ok t =
            rw moved (disk.read_written t mode h.world fine) in
          let (kc, decodes, kept) = edited_again t editable.wanted in
          (
            rw reads' editable.wanted,
            record {
              text = t;
              decoded = kc;
              reads = reads';
              decodes = decodes;
              wanted = rw kept editable.wanted;
            },
            rw moved (disk.load_apart t mode h.world),
          )
    ]

    -- What an update of the file `p` makes of the two files.
    abbrev pub Steps : Text → W → W → Type 0
    Steps p w w' =
        IsEditable w'
        × ((IsEtcClean w ⊎ (p ≡ etc_path)) → IsEtcClean w')
        × ((IsVarLibClean w ⊎ (p ≡ var_lib_path)) → IsVarLibClean w')

    pub kept-IsEditable :
        (w w' : W)
        → x.files.read_file var_lib_path w' ≡ x.files.read_file var_lib_path w
        → IsEditable w
        → IsEditable w'
    kept-IsEditable w w' same e = record {
      text = e.text;
      decoded = e.decoded;
      reads = same ∙ e.reads;
      decodes = e.decodes;
      wanted = e.wanted;
    }

    pub kept-IsEtcClean :
        (w w' : W)
        → x.files.load_from_file etc_path w' ≡ x.files.load_from_file etc_path w
        → IsEtcClean w
        → IsEtcClean w'
    kept-IsEtcClean w w' same clean = rw same clean

    pub kept-IsVarLibClean :
        (w w' : W)
        → x.files.read_file var_lib_path w' ≡ x.files.read_file var_lib_path w
        → IsVarLibClean w
        → IsVarLibClean w'
    kept-IsVarLibClean w w' same clean = rw same clean

    paths_differ : etc_path ≡ var_lib_path → ⊥
    paths_differ e = absurd (omega (arith, ap second e))

    pub etc-Steps :
        (h h' : Host W)
        → IsEditable h.world
        → update_etc x.files etc_path etc_path h ≡ (done none, h')
        → Steps etc_path h.world h'.world
    etc-Steps h h' editable ran =
        let (clean, same) = etc_step h h' ran in
        (
          kept-IsEditable h.world h'.world same editable,
          (λ either. clean),
          (λ either. elim either [
            | inl before ↦ kept-IsVarLibClean h.world h'.world same before
            | inr here ↦ absurd (paths_differ here)
          ]),
        )

    pub var_lib-Steps :
        (h h' : Host W)
        → IsEditable h.world
        → update_var_lib c s x.files var_lib_path var_lib_path h ≡ (done none, h')
        → Steps var_lib_path h.world h'.world
    var_lib-Steps h h' editable ran =
        let (clean, editable', same) = var_lib_step h h' editable ran in
        (
          editable',
          (λ either. elim either [
            | inl before ↦ kept-IsEtcClean h.world h'.world same before
            | inr here ↦ absurd (paths_differ (sym here))
          ]),
          (λ either. clean),
        )
