-- ===== src/Host/Kubectl.antt =====
-- pkg/host/kubectl.go. The errors of kubectl's drain package are logged and dropped.
use kucero.Base.{Bool, true, false, Option, none}
use kucero.Api.Error.{Error}
use kucero.Host.Run.{Exec, done, emit, set_unschedulable, drain as drain_effect}

-- `RunCordonOrUncordon` and `RunNodeDrain`: the error and the world after the call.
pub record Drainer (W : Type 0) : Type 0 where
  pub run_cordon_or_uncordon : Bool → W → record { error : Option Error; world : W }
  pub run_node_drain : W → record { error : Option Error; world : W }

module _ {W : Type 0} (x : Drainer W) where
  unfoldable pub uncordon : Exec W (Option Error)
  uncordon h = (
    done none,
    emit (set_unschedulable false)
        (record h { world = (x.run_cordon_or_uncordon false h.world).world }),
  )

  unfoldable pub cordon : Exec W (Option Error)
  cordon h = (
    done none,
    emit (set_unschedulable true)
        (record h { world = (x.run_cordon_or_uncordon true h.world).world }),
  )

  unfoldable pub drain : Exec W (Option Error)
  drain h = (done none, emit drain_effect (record h { world = (x.run_node_drain h.world).world }))
