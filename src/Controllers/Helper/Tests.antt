-- ===== src/Controllers/Helper/Tests.antt =====
-- Requests that `isNodeServingCert` accepts and refuses, as in controllers/helper_test.go.
use kucero.Base.{◌≡◌, refl, ◌↔◌, true, false, [], ◌∷◌, nat_eq, string_eq}
use kucero.Api.Error.{server_auth, other}
use kucero.Api.Csr.{usage_eq}
use kucero.Samples.{request, with_usages}
use kucero.Controllers.Helper.{has_exact_usages, kubelet_server_usages, is_node_serving_cert}
use kucero.Controllers.Helper.Laws.{IsServing, is_node_serving_cert_iff}

accepted : is_node_serving_cert (with_usages kubelet_server_usages) request ≡ true
unfolding is_node_serving_cert nat_eq usage_eq string_eq
accepted = refl

wrong_usages : is_node_serving_cert (with_usages (other "foo" ∷ other "bar" ∷ [])) request ≡ false
unfolding is_node_serving_cert nat_eq usage_eq string_eq
wrong_usages = refl

only_dns :
    is_node_serving_cert (with_usages kubelet_server_usages) (record request { ip_addresses = [] })
    ≡ false
unfolding is_node_serving_cert nat_eq usage_eq string_eq
only_dns = refl

wrong_name :
    is_node_serving_cert (with_usages kubelet_server_usages) (record request {
      subject = record { common_name = "system:foo:a"; organization = "system:nodes" ∷ [] };
    })
    ≡ false
unfolding is_node_serving_cert nat_eq usage_eq string_eq
wrong_name = refl

-- One usage three times passes for the three.
repeated_usage :
    is_node_serving_cert (with_usages (server_auth ∷ server_auth ∷ server_auth ∷ [])) request ≡ true
unfolding is_node_serving_cert has_exact_usages nat_eq usage_eq string_eq
repeated_usage = refl

is_node_serving_cert_iff_example :
    (is_node_serving_cert (with_usages kubelet_server_usages) request ≡ true)
    ↔ IsServing (with_usages kubelet_server_usages) request
is_node_serving_cert_iff_example =
    is_node_serving_cert_iff (with_usages kubelet_server_usages) request
