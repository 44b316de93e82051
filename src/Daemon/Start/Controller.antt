-- ===== src/Daemon/Start/Controller.antt =====
-- The controller of cmd/kucero/main.go, from its start on.
use kucero.Base.{◌≡◌, ◌≢◌, inl, inr, List, All, arith}
use mathlib.Core.Path.{subst}
use kucero.Api.Error.{ok, Result-cases}
use kucero.Signer.CaProvider.{CaProvider, new_ca_provider}
use kucero.Signer.CaProvider.Laws.{IsReady, new_ca_provider-IsReady}
use kucero.Signer.Sign.{Signer, new_signer}
use kucero.Controllers.Reconcile.{panicked}
use kucero.Controllers.Reconcile.Approval.{fresh}
use kucero.Controllers.Sequence.{Request, reconcile_all}
use kucero.Controllers.Sequence.Laws.{ShareParsers, reconcile_all-ne-panicked}
use kucero.Daemon.Start.{Flags, ManagerTools, ready_controller}

module _ {M H : Type 0} (x : ManagerTools M H) where
  ready_controller-IsReady :
      (flags : Flags) (mgr : M) (sg : Signer)
      → ready_controller x flags ≡ ok (mgr, sg)
      → IsReady x.parsers sg.ca_provider
  unfolding ready_controller new_signer
  ready_controller-IsReady flags mgr sg ready =
      let loaded = x.new_loader flags.ca_cert_path flags.ca_key_path in
      elim (Result-cases (new_ca_provider x.parsers flags.ca_cert_path loaded x.first_read)) [
        | inr (e, bad) ↦ absurd (ground arith)
        | inl (p, made) ↦
            let same : p ≡ sg.ca_provider = ground arith in
            subst (λ (p : CaProvider). IsReady x.parsers p) same
              (new_ca_provider-IsReady x.parsers flags.ca_cert_path loaded x.first_read p made)
      ]

  -- A controller that was started, with the signer that `NewSigner` made from the files, does not
  -- panic on any sequence of requests, whatever the server answers each time and whatever became of
  -- the files in between, as long as they are read by the same parsers.
  pub controller_never_panics :
      (flags : Flags) (mgr : M) (sg : Signer) (requests : List Request)
      → ready_controller x flags ≡ ok (mgr, sg)
      → ShareParsers x.parsers requests
      → All (λ o. o ≢ panicked) (reconcile_all requests (fresh sg)).0
  controller_never_panics flags mgr sg requests ready shared =
      reconcile_all-ne-panicked x.parsers requests (fresh sg) shared
        (ready_controller-IsReady flags mgr sg ready)
