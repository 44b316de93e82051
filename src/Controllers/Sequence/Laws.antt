-- ===== src/Controllers/Sequence/Laws.antt =====
-- A signer over a whole queue of requests to controllers/certificatesigningrequest_controller.go.
use kucero.Base.{◌≡◌, refl, ◌≢◌, List, [], ◌∷◌, All, sym}
use mathlib.Core.Path.{subst}
use kucero.Api.Time.{Duration}
use kucero.Signer.CaProvider.{Parsers}
use kucero.Signer.CaProvider.Laws.{IsReady}
use kucero.Controllers.Reconcile.{Env, State, Outcome, returned, panicked, reconcile}
use kucero.Controllers.Reconcile.Ready.{IsKept, EndsWell, reconcile-EndsWell}
use kucero.Controllers.Sequence.{Request, reconcile_all}

pub EndsWell-parts :
    (x : Env) (ttl : Duration) (o : Outcome) (s : State)
    → EndsWell x ttl (o, s)
    → (o ≢ panicked) × IsKept x.tools.parsers ttl s.signer
EndsWell-parts x ttl (returned e) s well = ((λ q. cc), well)
EndsWell-parts x ttl panicked s well = absurd well

-- The requests are all signed with the same parsers.
abbrev pub ShareParsers : Parsers → List Request → Type 0
ShareParsers parsers requests = All (λ r. parsers ≡ r.env.tools.parsers) requests

pub reconcile_all-ne-panicked :
    (parsers : Parsers) (requests : List Request) (s : State)
    → ShareParsers parsers requests
    → IsReady parsers s.signer.ca_provider
    → All (λ o. o ≢ panicked) (reconcile_all requests s).0
unfolding reconcile_all
reconcile_all-ne-panicked parsers [] s shared ready = tt
reconcile_all-ne-panicked parsers (r ∷ requests) s (same, shared) ready =
    let here = reconcile r.env r.name s in
    let (fine, (ready', _)) = EndsWell-parts r.env s.signer.cert_ttl here.0 here.1 (
      reconcile-EndsWell r.env s.signer.cert_ttl r.name s
        (subst (λ (p : Parsers). IsReady p s.signer.ca_provider) same ready, refl)) in
    (
      fine,
      reconcile_all-ne-panicked parsers requests here.1 shared
          (subst (λ (p : Parsers). IsReady p here.1.signer.ca_provider) (sym same) ready'),
    )
