-- ===== src/Daemon/Loop/Tests.antt =====
-- A control plane node on which everything is due, and a lock that is free.
use kucero.Base.{
  ◌⊎◌, ◌≡◌, refl, true, false, none, some, List, [], ◌∷◌, ◌++◌, text_eq, nat_eq, string_eq,
  words_eq,
}
use kucero.Api.Time.{minutes}
use kucero.Host.Run.{panicked, Effect, Host, done}
use kucero.Host.Kubectl.{cordon, drain, uncordon}
use kucero.Host.Commands.{restart_kubelet}
use kucero.Kubelet.Kubeconfig.{check_etc, update_etc}
use kucero.Kubelet.ConfigYaml.{check_var_lib, update_var_lib}
use kucero.Kubelet.Config.{
  etc_path, var_lib_path, action_of, check_config, update_config, update_loop,
}
use kucero.Daemon.Node.{NodeTools, Node, new_node}
use kucero.Daemon.Lock.{DaemonSetLock, NodeMeta, acquire, holding, release}
use kucero.Daemon.Loop.{
  tick, quit, is_control_plane_node, loop, maintain, check_and_rotate,
  rotate_certificate_when_needed,
}
use kucero.Daemon.Loop.Stage.{Stage, free, held, stage_after}
use kucero.Daemon.Loop.Endings.{run_ends}
use kucero.Daemon.Loop.Runs.{fresh_meta, run_ends_free, run_obeys, check_and_rotate_waits}
use kucero.Samples.{kubelet_tools, kubeadm_tools, idle, free_drainer}

abbrev node_tools : NodeTools Unit
node_tools = record { kubelet = kubelet_tools; kubeadm = kubeadm_tools }

abbrev free_lock : DaemonSetLock Unit
free_lock = record {
  test = λ meta w. record { holding = true; error = none; metadata = meta; world = w };
  acquire = λ meta ttl w. record {
    holding = true;
    holder = "a";
    error = none;
    metadata = meta;
    world = w;
  };
  release = λ w. record { error = none; world = w };
}

-- A lock that another node holds.
abbrev taken_lock : DaemonSetLock Unit
taken_lock = record free_lock {
  acquire = λ meta ttl w. record {
    holding = false;
    holder = "b";
    error = none;
    metadata = meta;
    world = w;
  };
}

a_control_plane : is_control_plane_node ("a" ∷ "node-role.kubernetes.io/master" ∷ []) ≡ true
unfolding is_control_plane_node string_eq
a_control_plane = refl

abbrev worker : Node Unit
worker = new_node node_tools false "a" (minutes 10) true true

worker_ends_free :
    (l : List Effect) × ((rotate_certificate_when_needed worker free_drainer free_lock
        (tick ∷ quit ∷ [])
        idle).1.effects
      ≡ [] ++ l)
    × (stage_after held l ≡ some free)
unfolding rotate_certificate_when_needed new_node holding release loop check_and_rotate check_config
    check_var_lib check_etc acquire maintain cordon drain update_config update_loop action_of
    text_eq update_var_lib update_etc nat_eq restart_kubelet uncordon
worker_ends_free =
    run_ends_free free_drainer free_lock node_tools false "a" (minutes 10) true true
      (tick ∷ quit ∷ []) idle
      (rotate_certificate_when_needed worker free_drainer free_lock (tick ∷ quit ∷ []) idle).1
      fresh_meta refl

refused_waits :
    (meta' : NodeMeta) × (h' : Host Unit) × (check_and_rotate worker free_drainer taken_lock
        fresh_meta idle
      ≡ (done meta', h'))
    × (h'.effects ≡ [])
unfolding new_node check_config check_var_lib check_etc nat_eq
refused_waits =
    check_and_rotate_waits free_drainer taken_lock worker fresh_meta idle idle idle
      (var_lib_path ∷ etc_path ∷ []) [] none none refl refl refl

run_ends_example :
    (meta : NodeMeta) × (h' : Host Unit) × (rotate_certificate_when_needed
        (new_node node_tools true "a" (minutes 10) true true)
        free_drainer
        taken_lock
        (tick ∷ tick ∷ quit ∷ [])
        idle
      ≡ (done meta, h'))
    × (l : List Effect) × (h'.effects ≡ [] ++ l)
    × (stage_after held l ≡ some free)
run_ends_example =
    run_ends free_drainer taken_lock node_tools true "a" (minutes 10) true true
      (tick ∷ tick ∷ quit ∷ []) idle (λ w fine. (true, refl))

-- A machine whose `kubeadm` prints no version.
abbrev no_version : NodeTools Unit
no_version = record {
  kubelet = kubelet_tools;
  kubeadm = record kubeadm_tools { at_least_1_20 = λ v. none };
}

run_obeys_example :
    (l : List Effect) × (u : Stage) × ((rotate_certificate_when_needed
        (new_node no_version true "a" (minutes 10) true true)
        free_drainer
        free_lock
        (tick ∷ quit ∷ [])
        idle).1.effects
      ≡ [] ++ l)
    × (stage_after held l ≡ some u)
    × (((rotate_certificate_when_needed
            (new_node no_version true "a" (minutes 10) true true)
            free_drainer
            free_lock
            (tick ∷ quit ∷ [])
            idle).0
          ≡ panicked)
        ⊎ (u ≡ free))
run_obeys_example =
    run_obeys free_drainer free_lock no_version true "a" (minutes 10) true true (tick ∷ quit ∷ [])
      idle
