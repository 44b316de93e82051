-- ===== src/Daemon/Loop/Settle/Tests.antt =====
-- A worker with a small disk, on which both files need an update.
use kucero.Base.{
  Text, ◌≡◌, refl, true, false, none, some, List, [], ◌∷◌, ◌++◌, bytes, text_eq, nat_eq,
}
use kucero.Api.Time.{minutes}
use kucero.Api.Error.{ok}
use kucero.Host.Run.{Host, done, lock_acquired, set_unschedulable, drain as drain_effect}
use kucero.Host.Kubectl.{Drainer, cordon, drain}
use kucero.Host.Commands.{Shell, restart_kubelet}
use kucero.Kubeadm.Table.{contains_text}
use kucero.Kubelet.Files.{KubeConfig, KubeletConfiguration, Files}
use kucero.Kubelet.Kubeconfig.{check_etc, update_etc}
use kucero.Kubelet.ConfigYaml.{set_key, edited, check_var_lib, update_var_lib}
use kucero.Kubelet.Config.{
  new, etc_path, var_lib_path, check_config, update_config, update_loop, action_of,
}
use kucero.Kubelet.Config.Disk.{IsDisk, IsEditable}
use kucero.Daemon.Node.{NodeTools, new_node}
use kucero.Daemon.Lock.{NodeMeta, DaemonSetLock}
use kucero.Daemon.Loop.{tick, quit, loop}
use kucero.Daemon.Loop.Settle.{AreSame, IsApart, worker_settles}

record Disk : Type 0 where
  config : KubeConfig
  text : Text

abbrev old_config : KubeConfig
old_config = record {
  auth_infos =
      (
        bytes "node",
        record {
          client_certificate = [];
          client_certificate_data = bytes "pem";
          client_key = [];
          client_key_data = bytes "pem";
          others = [];
        },
      )
      ∷ [];
  others = [];
}

abbrev old_text : Text
old_text = bytes "rotateCertificates: false" ++ (10 ∷ [])

abbrev shell : Shell Disk
shell = record { exec = λ args w. record { stdout = []; error = none; world = w } }

abbrev decoded : Text → KubeletConfiguration
decoded t = record {
  rotate_certificates = contains_text t (bytes "rotateCertificates: true");
  server_tls_bootstrap = contains_text t (bytes "serverTLSBootstrap: true");
}

abbrev disk_files : Files Disk
disk_files = record {
  load_from_file = λ p w. ok w.config;
  write_to_file = λ c p w. record { error = none; world = record w { config = c } };
  read_file = λ p w. ok w.text;
  unmarshal = λ t. ok (decoded t);
  stat = λ p w. ok 420;
  write = λ p t mode w. record { error = none; world = record w { text = t } };
}

abbrev tools : NodeTools Disk
tools = record {
  kubelet = record { shell = shell; files = disk_files; etc_first = λ w. true };
  kubeadm = record {
    shell = shell;
    local_time = λ w. record { year = 2020; month = 5; day = 12; hour = 3; minute = 4; second = 5 };
    clock = record { now = λ w. record { time = minutes 1; world = w } };
    parse_time = λ date. none;
    range = λ m. m;
    at_least_1_20 = λ v. some true;
  };
}

abbrev drainer : Drainer Disk
drainer = record {
  run_cordon_or_uncordon = λ b w. record { error = none; world = w };
  run_node_drain = λ w. record { error = none; world = w };
}

abbrev lock : DaemonSetLock Disk
lock = record {
  test = λ meta w. record { holding = false; error = none; metadata = meta; world = w };
  acquire = λ meta ttl w. record {
    holding = true;
    holder = "a";
    error = none;
    metadata = meta;
    world = w;
  };
  release = λ w. record { error = none; world = w };
}

is_disk : IsDisk tools.kubelet true true
is_disk = record {
  load_written = λ config w fine. refl;
  read_written = λ text mode w fine. refl;
  load_apart = λ text mode w. refl;
  read_apart = λ config w. refl;
  load_run = λ args w. refl;
  read_run = λ args w. refl;
}

abbrev same : (w : Disk) → AreSame tools drainer lock w w
same w = record { loads = refl; reads = refl }

apart : IsApart tools drainer lock
apart = record {
  acquiring = λ meta w. same w;
  releasing = λ w. same w;
  cordoning = λ b w. same w;
  draining = λ w. same w;
}

abbrev start : Host Disk
start = record { world = record { config = old_config; text = old_text }; effects = [] }

is_editable : IsEditable tools.kubelet true true start.world
unfolding edited contains_text nat_eq set_key
is_editable = record {
  text = old_text;
  decoded = decoded old_text;
  reads = refl;
  decodes = refl;
  wanted = refl;
}

abbrev paths : List Text
paths = etc_path ∷ var_lib_path ∷ []

abbrev fresh : NodeMeta
fresh = record { unschedulable = false }

-- The worker has taken the lock, and its node is drained.
abbrev drained : Host Disk
drained = record start { effects = lock_acquired ∷ set_unschedulable true ∷ drain_effect ∷ [] }

abbrev updated : Host Disk
updated = (update_config tools.kubelet (new "a" true true) paths drained).1

checks : check_config tools.kubelet (new "a" true true) start ≡ (done (paths, none), start)
unfolding check_config check_etc check_var_lib contains_text nat_eq
checks = refl

updates : update_config tools.kubelet (new "a" true true) paths drained ≡ (done none, updated)
unfolding update_config update_loop action_of update_etc update_var_lib restart_kubelet text_eq
updates = refl

worker_settles_example :
    (meta' : NodeMeta) × (h' : Host Disk) × (loop
        (new_node tools false "a" (minutes 10) true true)
        drainer
        lock
        (tick ∷ [])
        fresh
        start
      ≡ (done meta', h'))
    × (loop
          (new_node tools false "a" (minutes 10) true true)
          drainer
          lock
          (tick ∷ tick ∷ tick ∷ quit ∷ [])
          fresh
          start
        ≡ (done meta', h'))
unfolding cordon drain new_node
worker_settles_example =
    worker_settles tools drainer lock "a" (minutes 10) true true apart fresh start drained updated
      paths none (tick ∷ tick ∷ quit ∷ []) is_disk is_editable checks refl refl refl updates
