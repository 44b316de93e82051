-- ===== src/Kubelet/Kubeconfig/Laws.antt =====
-- kubelet.conf before and after an update, for pkg/pki/conf/kubelet/exec.go.
use kucero.Base.{
  Text, ◌≡◌, refl, false, Option, none, some, List, [], ◌∷◌, any, map, text_eq, ◌++◌, inl, inr,
  arith,
}
use kucero.Api.Error.{Error, ok, Result-cases}
use kucero.Host.Run.{Host, done, write_file}
use kucero.Kubelet.Files.{AuthInfo, KubeConfig, Files}
use kucero.Kubelet.Kubeconfig.{has_data, updated, updated_config, check_etc, update_etc, serialized}

updated_settled : (a : AuthInfo) → has_data (updated a) ≡ false
unfolding updated
updated_settled a = ground arith

none_has_data :
    (l : List (Text × AuthInfo))
    → any (λ (e : Text × AuthInfo). has_data e.1) (map (λ e. (e.0, updated e.1)) l) ≡ false
none_has_data [] = refl
none_has_data ((k, a) ∷ l) = ground (arith, updated_settled a, none_has_data l)

serialized-none :
    {W : Type 0} (x : Files W) (p : Text) (o : Option Error) → serialized x p o ≡ none → o ≡ none
serialized-none x p none e = refl
serialized-none x p (some f) e = absurd (cc)

-- When the update of the file succeeds, and what a successful write puts there is what the next
-- load reads, then the file held some configuration, holds its updated form afterwards, needs no
-- further update, and the only effect is one write to the file.
pub update_etc_settles :
    {W : Type 0} (x : Files W) (p : Text) (h h' : Host W)
    → ((c : KubeConfig) (w : W)
        → (x.write_to_file c p w).error ≡ none
        → x.load_from_file p (x.write_to_file c p w).world ≡ ok c)
    → update_etc x p p h ≡ (done none, h')
    → (c : KubeConfig) × (x.load_from_file p h.world ≡ ok c)
      × (x.load_from_file p h'.world ≡ ok (updated_config c))
      × (check_etc x p h' ≡ (done (false, none), h'))
      × (h'.effects ≡ h.effects ++ (write_file p ∷ []))
unfolding update_etc check_etc
update_etc_settles x p h h' reads e = elim (Result-cases (x.load_from_file p h.world)) [
  | inl (c, loaded) ↦
      let r = x.write_to_file (updated_config c) p h.world in
      let fine : r.error ≡ none = serialized-none x p r.error (ground arith) in
      let settled : any (λ (e : Text × AuthInfo). has_data e.1) (updated_config c).auth_infos
          ≡ false =
        unfold updated_config in none_has_data c.auth_infos in
      let again : x.load_from_file p h'.world ≡ ok (updated_config c) =
        ground (arith, reads (updated_config c) h.world fine) in
      (c, loaded, again, ground arith, ground arith)
  | inr (f, failed) ↦ absurd (ground arith)
]
