-- ===== src/Controllers/Helper.antt =====
-- controllers/helper.go: the requests that the controller takes for kubelet serving certificates.
pub mod Laws
mod Tests
use text.Mathlib.Text.{starts_with}
use kucero.Base.{
  ℕ, String, Bool, true, false, List, [], ◌∷◌, all, contains, length, ltb, not, ◌||◌, ◌==◌, nat_eq,
  string_eq, if◌then◌else◌,
}
use kucero.Api.Error.{KeyUsage, key_encipherment, digital_signature, server_auth}
use kucero.Api.Csr.{CertificateSigningRequest, usage_eq}
use kucero.Api.X509.{CertificateRequest}

-- The map of the first loop holds the elements of `usages`; the second loop stops at the first
-- usage of the request that the map lacks.
unfoldable pub has_exact_usages : CertificateSigningRequest → List KeyUsage → Bool
has_exact_usages csr usages =
    if not (length usages == length csr.spec.usages)
    then false
    else all (contains usages) csr.spec.usages

abbrev pub kubelet_server_usages : List KeyUsage
kubelet_server_usages = key_encipherment ∷ digital_signature ∷ server_auth ∷ []

-- `reflect.DeepEqual([]string{"system:nodes"}, organization)`
unfoldable pub is_system_nodes : List String → Bool
is_system_nodes (o ∷ []) = o == "system:nodes"
is_system_nodes _ = false

unfoldable pub is_node_serving_cert : CertificateSigningRequest → CertificateRequest → Bool
unfolding has_exact_usages is_system_nodes
is_node_serving_cert csr x509cr =
    if not (is_system_nodes x509cr.subject.organization)
    then false
    else if ltb (length x509cr.dns_names) 1 || ltb (length x509cr.ip_addresses) 1
    then false
    else if not (has_exact_usages csr kubelet_server_usages)
    then false
    else if not (starts_with x509cr.subject.common_name "system:node:")
    then false
    else if not (csr.spec.username == x509cr.subject.common_name)
    then false
    else true
