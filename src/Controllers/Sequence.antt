-- ===== src/Controllers/Sequence.antt =====
-- The reconciler of controllers/certificatesigningrequest_controller.go over the requests of its
-- queue, one after another. Each call meets its own answers; the signer is kept between them.
pub mod Laws
use kucero.Base.{String, List, [], ◌∷◌}
use kucero.Controllers.Reconcile.{Env, State, Outcome, reconcile}

pub record Request : Type 0 where
  pub env : Env
  pub name : String

unfoldable pub reconcile_all : List Request → State → List Outcome × State
reconcile_all [] s = ([], s)
reconcile_all (r ∷ requests) s =
    let (o, s') = reconcile r.env r.name s in
    let (os, s'') = reconcile_all requests s' in (o ∷ os, s'')
