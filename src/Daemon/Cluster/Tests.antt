-- ===== src/Daemon/Cluster/Tests.antt =====
-- Two worker nodes: the first has done its work, the second has begun.
use kucero.Kubelet.Kubeconfig.{check_etc, update_etc}
use kucero.Kubelet.ConfigYaml.{check_var_lib, update_var_lib}
use kucero.Base.{
  ℕ, ◌≡◌, refl, ◌⊎◌, true, false, none, some, List, [], ◌∷◌, ◌++◌, map, nat_eq, text_eq,
}
use kucero.Api.Time.{minutes}
use kucero.Host.Run.{
  Effect, command, write_file, set_unschedulable, drain, lock_acquired, lock_released,
}
use kucero.Host.Kubectl.{cordon, drain as drain_node, uncordon}
use kucero.Host.Commands.{restart_command, restart_kubelet}
use kucero.Kubelet.Config.{
  etc_path, var_lib_path, check_config, update_config, update_loop, action_of,
}
use kucero.Daemon.Node.{new_node}
use kucero.Daemon.Lock.{holding, acquire, release}
use kucero.Daemon.Loop.{
  tick, quit, loop, check_and_rotate, maintain, rotate_certificate_when_needed,
}
use kucero.Daemon.Loop.Stage.{Stage, free, stage_after}
use kucero.Daemon.Cluster.{
  Entry, of_node, Served, at_rest, next, take_free, give_back, leave, Daemon, effects_of,
}
use kucero.Daemon.Cluster.Exclusion.{one_at_a_time}
use kucero.Samples.{kubelet_tools, kubeadm_tools, free_drainer, open_lock}

abbrev at_node : ℕ → Effect → Entry
at_node i e = record { node = i; effect = e; time = minutes 0 }

abbrev worker : Daemon Unit
worker = record {
  name = "a";
  is_control_plane = false;
  expiry_time_to_rotate = minutes 10;
  enable_client = true;
  enable_server = true;
  tools = record { kubelet = kubelet_tools; kubeadm = kubeadm_tools };
  drainer = free_drainer;
  lock = open_lock;
  events = tick ∷ quit ∷ [];
  world = tt;
}

abbrev begun : List Effect
begun = lock_acquired ∷ set_unschedulable true ∷ []

abbrev ending : List Effect
ending =
    write_file var_lib_path
    ∷ write_file etc_path
    ∷ command restart_command
    ∷ set_unschedulable false
    ∷ lock_released
    ∷ []

abbrev still : List Effect
still = drain ∷ ending

abbrev merged : List Entry
merged = map (at_node 0) (begun ++ still) ++ map (at_node 1) begun

work : effects_of worker ≡ begun ++ still
unfolding rotate_certificate_when_needed new_node holding release loop check_and_rotate check_config
    check_var_lib check_etc acquire maintain cordon drain_node update_config update_loop action_of
    text_eq update_var_lib update_etc nat_eq restart_kubelet uncordon
work = refl

served : Served false none merged (some (record { node = 1; since = minutes 0 }))
unfolding nat_eq
served = next (take_free refl refl) (
    next (leave refl) (
      next (leave refl) (
        next (leave refl) (
          next (leave refl) (
            next (leave refl) (
              next (leave refl) (
                next (give_back refl refl)
                  (next (take_free refl refl) (next (leave refl) at_rest)))))))))

one_at_a_time_example :
    (s : Stage) × (t : Stage) × (stage_after free (of_node 0 merged) ≡ some s)
    × (stage_after free (of_node 1 merged) ≡ some t)
    × ((s ≡ free) ⊎ (t ≡ free))
unfolding nat_eq
one_at_a_time_example =
    one_at_a_time worker worker 0 1 [] still (λ e. cc) served refl refl work work
