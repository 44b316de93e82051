-- ===== src/Daemon/Loop/Idle.antt =====
-- A worker of cmd/kucero/main.go whose configuration is as it should be.
use kucero.Base.{
  String, Text, ◌≡◌, refl, ap, ◌∙◌, inl, inr, Bool, false, Option, none, some, List, [], ◌∷◌,
  Bool-cases,
}
use kucero.Api.Time.{Duration}
use kucero.Api.Error.{Error, noted}
use kucero.Host.Run.{Host, done}
use kucero.Host.Kubectl.{Drainer}
use kucero.Kubelet.Config.{Tools, Kubelet, new, etc_path, var_lib_path, check_config, with_checked}
use kucero.Kubelet.Kubeconfig.{check_etc}
use kucero.Kubelet.ConfigYaml.{check_var_lib}
use kucero.Daemon.Node.{NodeTools, new_node}
use kucero.Daemon.Lock.{NodeMeta, DaemonSetLock}
use kucero.Daemon.Loop.{Event, tick, quit, check_and_rotate, loop}

module _ {W : Type 0} (x : Tools W) (k : Kubelet) where
  unchecked :
      (p : Text) (found : List Text) (e : Option Error)
      → with_checked x k p found (false, e) ≡ found
  unchecked p found none = refl
  unchecked p found (some e) = refl

  check_config-nothing :
      (h : Host W) (e e' : Option Error)
      → check_etc x.files etc_path h ≡ (done (false, e), h)
      → check_var_lib k.enable_kubelet_client_cert_rotation k.enable_kubelet_server_cert_rotation
          x.files var_lib_path h
        ≡ (done (false, e'), h)
      → (errs : Option Error) × (check_config x k h ≡ (done ([], errs), h))
  unfolding check_config
  check_config-nothing h e e' etc var_lib = elim (Bool-cases (x.etc_first h.world)) [
    | inl first ↦ (
      noted (noted none e) e',
      rw (first, etc, var_lib)
          (ap (λ l. (done (l, noted (noted none e) e'), h))
            (unchecked var_lib_path (with_checked x k etc_path [] (false, e)) e'
              ∙ unchecked etc_path [] e)),
    )
    | inr second ↦ (
      noted (noted none e') e,
      rw (second, var_lib, etc)
          (ap (λ l. (done (l, noted (noted none e') e), h))
            (unchecked etc_path (with_checked x k var_lib_path [] (false, e')) e
              ∙ unchecked var_lib_path [] e')),
    )
  ]

module _ {W : Type 0} (x : NodeTools W) (drainer : Drainer W) (lock : DaemonSetLock W)
    (name : String) (d : Duration) (c s : Bool) where
  tick_idle :
      (meta : NodeMeta) (h : Host W) (e : Option Error)
      → check_config x.kubelet (new name c s) h ≡ (done ([], e), h)
      → check_and_rotate (new_node x false name d c s) drainer lock meta h ≡ (done meta, h)
  unfolding check_and_rotate new_node
  tick_idle meta h e nothing = rw nothing refl

  loop_idle :
      (events : List Event) (meta : NodeMeta) (h : Host W) (e : Option Error)
      → check_config x.kubelet (new name c s) h ≡ (done ([], e), h)
      → loop (new_node x false name d c s) drainer lock events meta h ≡ (done meta, h)
  unfolding loop
  loop_idle [] meta h e nothing = refl
  loop_idle (quit ∷ events) meta h e nothing = refl
  loop_idle (tick ∷ events) meta h e nothing =
      rw (tick_idle meta h e nothing) (loop_idle events meta h e nothing)

  -- A worker on which the checks of both files find nothing to update, or fail, stays idle over any
  -- events: it runs no command, writes no file, and calls neither the lock nor kubectl, and it
  -- returns when it is told to quit.
  pub worker_idle :
      (events : List Event) (meta : NodeMeta) (h : Host W) (e e' : Option Error)
      → check_etc x.kubelet.files etc_path h ≡ (done (false, e), h)
      → check_var_lib c s x.kubelet.files var_lib_path h ≡ (done (false, e'), h)
      → loop (new_node x false name d c s) drainer lock events meta h ≡ (done meta, h)
  worker_idle events meta h e e' etc var_lib =
      let (errs, nothing) = check_config-nothing x.kubelet (new name c s) h e e' etc var_lib in
      loop_idle events meta h errs nothing
