-- ===== src/Controllers/Helper/Laws.antt =====
-- Which requests `isNodeServingCert` accepts.
use text.Mathlib.Text.{starts_with}
use kucero.Base.{
  String, ◌≡◌, refl, ◌↔◌, ◌⊎◌, true, List, [], ◌∷◌, all, contains, length, ◌<◌, nat_eq, string_eq,
  All, arith,
}
use kucero.Api.Error.{KeyUsage, key_encipherment, digital_signature, server_auth}
use kucero.Api.Csr.{CertificateSigningRequest, usage_eq}
use kucero.Api.X509.{CertificateRequest}
use kucero.Controllers.Helper.{
  has_exact_usages, kubelet_server_usages, is_system_nodes, is_node_serving_cert,
}

abbrev pub IsServerUsage : KeyUsage → Type 0
IsServerUsage u = (u ≡ key_encipherment) ⊎ (u ≡ digital_signature) ⊎ (u ≡ server_auth)

contains-IsServerUsage :
    (u : KeyUsage) → (contains kubelet_server_usages u ≡ true) ↔ IsServerUsage u
contains-IsServerUsage u = ground arith

all-IsServerUsage :
    (us : List KeyUsage) → (all (contains kubelet_server_usages) us ≡ true) ↔ All IsServerUsage us
all-IsServerUsage [] = (λ _. tt, λ _. refl)
all-IsServerUsage (u ∷ us) = ground (arith, contains-IsServerUsage u, all-IsServerUsage us)

is_system_nodes_iff : (l : List String) → (is_system_nodes l ≡ true) ↔ (l ≡ "system:nodes" ∷ [])
unfolding is_system_nodes
is_system_nodes_iff [] = ground arith
is_system_nodes_iff (o ∷ []) = ground arith
is_system_nodes_iff (o ∷ p ∷ l) = ground arith

-- A request that `isNodeServingCert` accepts, in the terms of the certificate API.
pub record IsServing (csr : CertificateSigningRequest) (cr : CertificateRequest) : Type 0 where
  pub organization : cr.subject.organization ≡ "system:nodes" ∷ []
  pub dns_names : 0 < length cr.dns_names
  pub ip_addresses : 0 < length cr.ip_addresses
  pub three_usages : length csr.spec.usages ≡ 3
  pub server_usages : All IsServerUsage csr.spec.usages
  pub node_name : starts_with cr.subject.common_name "system:node:" ≡ true
  pub own_name : csr.spec.username ≡ cr.subject.common_name

is_node_serving_cert-IsServing :
    (csr : CertificateSigningRequest) (cr : CertificateRequest)
    → is_node_serving_cert csr cr ≡ true
    → IsServing csr cr
unfolding is_node_serving_cert has_exact_usages
is_node_serving_cert-IsServing csr cr h =
    ground (arith, is_system_nodes_iff cr.subject.organization, all-IsServerUsage csr.spec.usages)

IsServing-is_node_serving_cert :
    (csr : CertificateSigningRequest) (cr : CertificateRequest)
    → IsServing csr cr
    → is_node_serving_cert csr cr ≡ true
unfolding is_node_serving_cert has_exact_usages
IsServing-is_node_serving_cert csr cr v = ground (
  arith,
  (is_system_nodes_iff cr.subject.organization).1 v.organization,
  (all-IsServerUsage csr.spec.usages).1 v.server_usages,
)

-- `isNodeServingCert` accepts exactly the requests of the organization system:nodes alone, with a DNS
-- name and an address, three usages that are each one of the three of a kubelet server, and a common
-- name that begins with system:node: and is the name of the user who asks.
pub is_node_serving_cert_iff :
    (csr : CertificateSigningRequest) (cr : CertificateRequest)
    → (is_node_serving_cert csr cr ≡ true) ↔ IsServing csr cr
is_node_serving_cert_iff csr cr =
    (is_node_serving_cert-IsServing csr cr, IsServing-is_node_serving_cert csr cr)
