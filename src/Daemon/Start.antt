-- ===== src/Daemon/Start.antt =====
-- The flags of cmd/kucero/main.go, `root`, which readies the daemon, and the goroutine that readies
-- the signing controller. `logrus.Fatal` ends the process.
pub mod Laws
pub mod Controller
mod Tests
use kucero.Base.{
  ℕ, ℤ, pos, negsuc, String, Bool, true, false, Option, none, some, List, ◌==◌, nat_eq, string_eq,
  ltb, ◌+◌, ◌-◌, ◌*◌, ◌%◌, ◌^◌, ◌&&◌, if◌then◌else◌,
}
use kucero.Api.Time.{Duration, seconds, minutes, nanoseconds_in_second}
use kucero.Api.Error.{Error, message, Result, ok, err, check, ◌>>=◌}
use kucero.Signer.CaProvider.{Content, Parsers}
use kucero.Signer.Sign.{Signer, new_signer}
use kucero.Controllers.Reconcile.{Watched, watched_version}
use kucero.Daemon.Loop.{is_control_plane_node}

pub record Flags : Type 0 where
  pub api_server_host : String
  pub kubeconfig : String
  pub polling_period : Duration
  pub expiry_time_to_rotate : Duration
  pub ds_namespace : String
  pub ds_name : String
  pub lock_annotation : String
  pub enable_kubelet_csr_controller : Bool
  pub metrics_addr : String
  pub leader_election_id : String
  pub ca_cert_path : String
  pub ca_key_path : String
  pub duration : Duration
  pub enable_kubelet_client_cert_rotation : Bool
  pub enable_kubelet_server_cert_rotation : Bool

abbrev hours : ℕ → Duration
hours n = minutes (60 * n)

-- The values of the flags that are not given.
abbrev pub default_flags : Flags
default_flags = record {
  api_server_host = "";
  kubeconfig = "";
  polling_period = hours 1;
  expiry_time_to_rotate = hours (24 * 30);
  ds_namespace = "kube-system";
  ds_name = "kucero";
  lock_annotation = "caasp.suse.com/kucero-node-lock";
  enable_kubelet_csr_controller = true;
  metrics_addr = ":8080";
  leader_election_id = "kucero-leader-election";
  ca_cert_path = "/etc/kubernetes/pki/ca.crt";
  ca_key_path = "/etc/kubernetes/pki/ca.key";
  duration = hours (24 * 365);
  enable_kubelet_client_cert_rotation = true;
  enable_kubelet_server_cert_rotation = true;
}

-- `corev1.Node`: its name and the keys of its labels.
pub record NodeObject : Type 0 where
  pub name : String
  pub labels : List String

-- What `root` takes from outside. `whole_seconds` is `int(d.Seconds())`, which rounds in floating
-- point, at a duration of so many nanoseconds; `intn` is `rand.Intn` at a positive number. `C` and
-- `K` are the types of the configuration and of the client.
pub record Environment (C K : Type 0) : Type 0 where
  pub getenv : String → String
  pub whole_seconds : ℕ → ℕ
  pub intn : ℕ → ℕ
  pub build_config : String → String → Result C
  pub new_for_config : C → Result K
  pub get_node : K → String → Result NodeObject

-- A sum of two durations in 64 bits, neither of them negative.
unfoldable pub wrap_64 : ℕ → Duration
wrap_64 n = let m = n % 2 ^ 64 in if ltb m (2 ^ 63) then pos m else negsuc (2 ^ 64 - m - 1)

-- How `root` ends: the process exits or panics, or the loop is entered.
pub data Start : Type 0 where
  exited : Error → Start
  panicked : Start
  entered : (node : NodeObject) (is_control_plane : Bool) (polling_period : Duration) → Start

module _ {C K : Type 0} (x : Environment C K) where
  -- `rand.Intn` panics at a number that is not positive.
  unfoldable pub shifted_period : Duration → Option Duration
  unfolding wrap_64
  shifted_period (negsuc n) = none
  shifted_period (pos n) =
      let bound = x.whole_seconds n in
      if bound == 0 then none else some (wrap_64 (n + x.intn bound * nanoseconds_in_second))

  abbrev pub found_node : Flags → String → Result NodeObject
  found_node flags node_name = do
    config ← x.build_config flags.api_server_host flags.kubeconfig
    client ← x.new_for_config config
    x.get_node client node_name

  abbrev pub enter : Duration → Result NodeObject → Start
  enter period (err e) = exited e
  enter period (ok node) = entered node (is_control_plane_node node.labels) period

  unfoldable pub root : Flags → Start
  unfolding shifted_period
  root flags =
      let node_name = x.getenv "KUCERO_NODE_NAME" in
      if node_name == ""
      then exited (message "KUCERO_NODE_NAME environment variable required")
      else elim (shifted_period flags.polling_period) [
        | none ↦ panicked
        | some period ↦ enter period (found_node flags node_name)
      ]

-- What the goroutine takes from outside: the manager, the loader of the authority's files and the
-- discovery of the API. `M` and `H` are the types of the manager and of the discovery helper. The
-- calls that end in `OrDie` end the process, here by their error.
pub record ManagerTools (M H : Type 0) : Type 0 where
  pub new_manager : Flags → Result M
  pub parsers : Parsers
  pub new_loader : String → String → Result String
  pub first_read : Content
  pub new_for_config_or_die : M → Option Error
  pub new_helper : Result H
  pub resource_for : H → String → String → Result String
  pub complete : M → Watched → Option Error
  pub start : M → Option Error

module _ {M H : Type 0} (x : ManagerTools M H) where
  abbrev pub watched : Result Watched
  watched = do
    helper ← x.new_helper
    version ← x.resource_for helper "certificates.k8s.io" "CertificateSigningRequest"
    watched_version version

  -- `SetupWithManager`.
  unfoldable pub setup_with_manager : M → Option Error
  setup_with_manager mgr = elim watched [ ok v ↦ x.complete mgr v | err e ↦ some e ]

  -- The goroutine up to the start of the manager; each error is fatal.
  unfoldable pub ready_controller : Flags → Result (M × Signer)
  unfolding setup_with_manager
  ready_controller flags = do
    mgr ← x.new_manager flags
    signer ←
        new_signer x.parsers flags.ca_cert_path (x.new_loader flags.ca_cert_path flags.ca_key_path)
          x.first_read flags.duration
    client ← check (x.new_for_config_or_die mgr) (λ e. e)
    started ← check (setup_with_manager mgr) (λ e. e)
    ok (mgr, signer)

  abbrev pub started : Result (M × Signer) → Option Error
  started (err e) = some e
  started (ok (mgr, signer)) = x.start mgr

  -- What ends the process from the goroutine, if anything does; it runs on the control plane only.
  unfoldable pub start_controller : Flags → Bool → Option Error
  unfolding ready_controller
  start_controller flags is_control_plane =
      if flags.enable_kubelet_csr_controller && is_control_plane
      then started (ready_controller flags)
      else none
