-- ===== src/Daemon/Start/Tests.antt =====
-- A start with the flags that are not given, on a control plane node.
use kucero.Base.{
  ◌≡◌, ◌≢◌, refl, ℕ, true, false, none, some, pos, List, [], ◌∷◌, All, ◌-◌, ◌*◌, ◌/◌, nat_eq,
  string_eq, text_eq,
}
use kucero.Api.Time.{minutes, nanoseconds_in_second}
use kucero.Api.Error.{message, ok}
use kucero.Signer.CaProvider.{new_ca_provider, set_ca, load_ca}
use kucero.Signer.Sign.{Signer, new_signer}
use kucero.Controllers.Reconcile.{Env, found, panicked, watched_version}
use kucero.Controllers.Reconcile.Approval.{fresh}
use kucero.Controllers.Helper.{kubelet_server_usages}
use kucero.Controllers.Sequence.{Request, reconcile_all}
use kucero.Daemon.Loop.{is_control_plane_node}
use kucero.Daemon.Start.{
  default_flags, NodeObject, Environment, entered, exited, root, shifted_period, wrap_64,
  ManagerTools, setup_with_manager, ready_controller, start_controller,
}
use kucero.Daemon.Start.Controller.{controller_never_panics}
use kucero.Samples.{ca, tools, files, request, with_usages}

abbrev hour : ℕ
hour = 3600 * nanoseconds_in_second

abbrev labelled : NodeObject
labelled = record { name = "a"; labels = "node-role.kubernetes.io/master" ∷ [] }

-- The largest number of seconds is drawn.
abbrev outside : Environment Unit Unit
outside = record {
  getenv = λ variable. "a";
  whole_seconds = λ n. n / nanoseconds_in_second;
  intn = λ bound. bound - 1;
  build_config = λ master kubeconfig. ok tt;
  new_for_config = λ config. ok tt;
  get_node = λ client name. ok labelled;
}

abbrev nameless : Environment Unit Unit
nameless = record outside { getenv = λ variable. "" }

root-nameless :
    root nameless default_flags ≡ exited (message "KUCERO_NODE_NAME environment variable required")
unfolding root string_eq
root-nameless = refl

root-entered :
    root outside default_flags ≡ entered labelled true (pos (2 * hour - nanoseconds_in_second))
unfolding root shifted_period wrap_64 is_control_plane_node string_eq nat_eq
root-entered = refl

abbrev manager : ManagerTools Unit Unit
manager = record {
  new_manager = λ flags. ok tt;
  parsers = tools.parsers;
  new_loader = λ cert key. ok "csr-controller";
  first_read = files;
  new_for_config_or_die = λ mgr. none;
  new_helper = ok tt;
  resource_for = λ helper group kind. ok "v1";
  complete = λ mgr version. none;
  start = λ mgr. none;
}

abbrev made : Signer
made = record {
  ca_provider = record { ca_value = some ca; loader_name = "csr-controller" };
  cert_ttl = default_flags.duration;
}

readied : ready_controller manager default_flags ≡ ok (tt, made)
unfolding ready_controller setup_with_manager watched_version new_signer new_ca_provider set_ca
    load_ca string_eq
readied = refl

no_controller_on_workers : start_controller manager default_flags false ≡ none
unfolding start_controller
no_controller_on_workers = refl

abbrev env : Env
env = record {
  get_csr = λ name. found (with_usages kubelet_server_usages);
  create_review = λ r. ok true;
  patch = λ old new. ok new;
  approve = λ c. none;
  decoders = record {
    decode = λ pem. some ("CERTIFICATE REQUEST", pem);
    parse_certificate_request = λ der. ok request;
  };
  tools = tools;
  first_read = files;
  second_read = record { cert_pem = []; key_pem = [] };
  wall = minutes 10;
}

abbrev queue : List Request
queue = record { env = env; name = "csr-a" } ∷ record { env = env; name = "csr-b" } ∷ []

controller_never_panics_example : All (λ o. o ≢ panicked) (reconcile_all queue (fresh made)).0
controller_never_panics_example =
    controller_never_panics manager default_flags tt made queue readied (refl, (refl, tt))
