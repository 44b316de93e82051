-- ===== src/Controllers/Reconcile/Course/Laws.antt =====
-- `Reconcile` of controllers/certificatesigningrequest_controller.go takes its courses.
use kucero.Base.{
  String, Text, ◌≡◌, inl, inr, true, false, some, List, [], arith, Bool-cases, Option-cases,
}
use kucero.Api.Error.{ok, err, Result-cases}
use kucero.Api.Csr.{CertificateSigningRequest}
use kucero.Api.X509.{CertificateRequest}
use kucero.Cert.Parser.{parse_csr}
use kucero.Signer.Sign.{Signer, sign}
use kucero.Controllers.Helper.{is_node_serving_cert}
use kucero.Controllers.Helper.Laws.{is_node_serving_cert_iff}
use kucero.Controllers.Reconcile.{
  not_found, Action, Env, Outcome, is_zero, review_of, append_approval_condition, reconcile,
}
use kucero.Controllers.Reconcile.Approval.{fresh, permission, Got-cases, empty_unrecognized}
use kucero.Controllers.Reconcile.Course.{IsWaiting, IsRecognized, IsSigned, approval, Course}

module _ (x : Env) (name : String) (sg : Signer) where
  abbrev Took : Type 0
  Took =
      (o : Outcome) × (sg' : Signer) × (l : List Action) × (reconcile x name (fresh sg)
        ≡ (o, record { signer = sg'; actions = l }))
      × Course x name sg o sg' l

  gone-Course : x.get_csr name ≡ not_found → Took
  unfolding reconcile
  gone-Course gone = elim (Result-cases (parse_csr x.decoders [])) [
    | inr (e, bad) ↦ (_, _, _, ground arith, Course.gone_unparsed e gone bad)
    | inl (cr, parsed) ↦
        (_, _, _, ground (arith, empty_unrecognized cr), Course.gone_parsed cr gone parsed)
  ]

  module _ (csr : CertificateSigningRequest) (cr : CertificateRequest) where
    signed-Course : (cert : Text) (sg' : Signer) → IsSigned x name sg csr cr cert sg' → Took
    unfolding reconcile append_approval_condition
    signed-Course cert sg' s =
        let w = s.recognized.waiting in
        let mine = (is_node_serving_cert_iff csr cr).1 s.recognized.serving in
        elim (Result-cases (x.patch csr (record csr { certificate = some cert }))) [
          | inr (e, bad) ↦ (_, _, _, ground (arith, mine), Course.unpatched csr cr cert sg' e s bad)
          | inl (served, taken) ↦ elim (Option-cases (x.approve (approval x name sg served))) [
            | inr (e, bad) ↦ (
              _,
              _,
              _,
              ground (arith, mine),
              Course.unapproved csr served cr cert sg' e s taken bad,
            )
            | inl fine ↦
                (_, _, _, ground (arith, mine), Course.approved csr served cr cert sg' s taken fine)
          ]
        ]

    recognized-Course : IsRecognized x name sg csr cr → Took
    unfolding reconcile
    recognized-Course r =
        let w = r.waiting in
        let mine = (is_node_serving_cert_iff csr cr).1 r.serving in
        elim (Result-cases (x.create_review (review_of csr permission))) [
          | inr (e, bad) ↦ (_, _, _, ground (arith, mine), Course.unreviewed csr cr e r bad)
          | inl (false, refused) ↦ (_, _, _, ground (arith, mine), Course.denied csr cr r refused)
          | inl (true, allowed) ↦
              elim (Option-cases (sign x.tools sg x.first_read x.second_read x.wall cr csr.spec)) [
                | inl panic ↦
                    (_, _, _, ground (arith, mine), Course.no_authority csr cr r allowed panic)
                | inr ((err e, sg'), signed) ↦
                    (_, _, _, ground (arith, mine), Course.unsigned csr cr e sg' r allowed signed)
                | inr ((ok cert, sg'), signed) ↦
                    signed-Course cert sg'
                      (record { recognized = r; allowed = allowed; signed = signed })
              ]
        ]

  waiting-Course : (csr : CertificateSigningRequest) → IsWaiting x name sg csr → Took
  unfolding reconcile
  waiting-Course csr w = elim (Result-cases (parse_csr x.decoders csr.spec.request)) [
    | inr (e, bad) ↦ (_, _, _, ground arith, Course.unparsed csr e w bad)
    | inl (cr, parsed) ↦ elim (Bool-cases (is_node_serving_cert csr cr)) [
      | inl mine ↦ recognized-Course csr cr (record {
        waiting = w;
        parsed = parsed;
        serving = (is_node_serving_cert_iff csr cr).0 mine;
      })
      | inr other ↦ (
        _,
        _,
        _,
        ground arith,
        Course.unrecognized csr cr w parsed
            (λ s. let mine = (is_node_serving_cert_iff csr cr).1 s in ground arith),
      )
    ]
  ]

  -- Whatever the server, the parser, the signer and the files answer, `Reconcile` ends and sends what
  -- the course for these answers says: a request that is gone, deleted, signed, unreadable or not a
  -- kubelet serving request gets no certificate and no error, and at most an event; a signer without
  -- an authority panics; a refused read, review, signature, patch or approval ends in an error, after
  -- exactly the requests before it; and with all of them granted the request is patched, approved and
  -- reported.
  pub reconcile-Course :
      (o : Outcome) × (sg' : Signer) × (l : List Action) × (reconcile x name (fresh sg)
        ≡ (o, record { signer = sg'; actions = l }))
      × Course x name sg o sg' l
  unfolding reconcile
  reconcile-Course = elim (Got-cases (x.get_csr name)) [
    | inr (inl gone) ↦ gone-Course gone
    | inr (inr (e, bad)) ↦ (_, _, _, ground arith, Course.unread e bad)
    | inl (csr, got) ↦ elim (Bool-cases (is_zero csr.deletion_timestamp)) [
      | inr dead ↦ (_, _, _, ground arith, Course.deleted csr got dead)
      | inl live ↦ elim (Option-cases csr.certificate) [
        | inr (cert, done) ↦ (_, _, _, ground arith, Course.has_certificate csr cert got done)
        | inl none_yet ↦ waiting-Course csr (record { got = got; live = live; unsigned = none_yet })
      ]
    ]
  ]
