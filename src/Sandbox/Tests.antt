-- ===== src/Sandbox/Tests.antt =====
-- The sandbox matrix's theorems at concrete inputs.
use k8e.Common.{
  ℕ, ◌-◌, ◌*◌, ◌≤◌, String, ◌≡◌, refl, true, false, some, List, [], ◌∷◌, arith, str_eq,
  if◌then◌else◌, length,
}
use k8e.Common.Int.{pos, pos_part, ◌+ℤ◌, ◌≤ℤ◌, wrap64}
use k8e.Sandbox.Pods.{Pod, PodState, Phase, Stamp, Number, SandboxConfig, delete_pod, update_pod}
use k8e.Sandbox.Sizing.{
  adaptive_target, adaptive_bounds, Quantity, Node, compute_max_pods, per_pod_resources,
  sum_node_allocatable,
}
use k8e.Sandbox.Sizing.Capacity.{max_pods_fit}
use k8e.Sandbox.WarmPool.{PoolSpec, target_of, reconcile_single_pool}
use k8e.Sandbox.WarmPool.Creates.{allowed, creates_exact}
use k8e.Sandbox.WarmPool.Recycle.{Culls, recycle_unhealthy_warm_pods, recycle-Culls, to_seconds}
use k8e.Sandbox.WarmPool.Reaper.{reap_turn, reap_two_passes, effective_ttl}

abbrev config : SandboxConfig
config = record {
  default_runtime = "gvisor";
  default_image = "sandbox:latest";
  default_cpu = "500m";
  default_memory = "512Mi";
}

abbrev pool : PoolSpec
pool = record {
  size = pos 2;
  runtime_class = "";
  min_size = pos 1;
  max_size = pos 6;
  idle_ttl_seconds = pos 0;
}

abbrev warm_pod : Pod
warm_pod = record {
  name = "sandbox-warm-a";
  phase = Phase.running;
  pod_ip = "10.0.0.7";
  conditions = [];
  created_at = 1_000_000_000;
  state = some PodState.warm;
  session_id = "";
  runtime_label = "gvisor";
  released_at = Stamp.missing;
  idle_ttl = Number.unset;
  gvisor_host_network = true;
  runtime_class_name = "gvisor";
  pvc_name = "";
  cpu = "500m";
  memory = "512Mi";
  image = "sandbox:latest";
}

-- A pod of 512 MiB and half a core, and a node of 4 GiB and 4 cores.
abbrev parse : String → Quantity
parse s =
    if str_eq s "500m"
    then record { value = pos 1; milli_value = pos 500; is_zero = false }
    else record { value = pos 536_870_912; milli_value = pos 536_870_912_000; is_zero = false }

abbrev node : ℕ → ℕ → Node
node mem cpu = record {
  memory = some (record { value = pos mem; milli_value = pos 0; is_zero = false });
  cpu = some (record { value = pos 0; milli_value = pos cpu; is_zero = false });
}

adaptive_bounds_example :
    (pos 2 ≤ℤ adaptive_target (pos 2) (pos 1) (pos 6) (pos 4))
    × (adaptive_target (pos 2) (pos 1) (pos 6) (pos 4) ≤ℤ pos 6)
    × (pos 4 ≤ℤ pos 6 → pos 4 ≤ℤ adaptive_target (pos 2) (pos 1) (pos 6) (pos 4))
    × (pos 1 ≤ℤ pos 6 → pos 1 ≤ℤ adaptive_target (pos 2) (pos 1) (pos 6) (pos 4))
adaptive_bounds_example = adaptive_bounds (pos 2) (pos 1) (pos 6) (pos 4) (omega arith)

creates_exact_example :
    length (
      reconcile_single_pool pool
        (pos 3)
        config
        (pos 5)
        (some (warm_pod ∷ []))
        (some (warm_pod ∷ [])))
    ≡ allowed (pos 3) (pos_part (target_of pool (pos 3) (pos 5)) - 1) 1
creates_exact_example = creates_exact pool (pos 3) config (pos 5) (warm_pod ∷ []) (warm_pod ∷ [])

max_pods_fit_example :
    let max_pods = pos_part (compute_max_pods parse (some (node 4_294_967_296 4000 ∷ [])) config) in
    (max_pods * 536_870_912 * 10 ≤ 4_294_967_296 * 9) × (max_pods * 500 * 10 ≤ 4000 * 9)
unfolding per_pod_resources sum_node_allocatable wrap64 ◌+ℤ◌
max_pods_fit_example =
    max_pods_fit parse config (node 4_294_967_296 4000) [] 4_294_967_296 4000 536_870_912 500 refl
      refl refl (omega arith) (omega arith) (omega arith) (omega arith) (omega arith) (omega arith)
      (omega arith)

-- 256 MiB and a tenth of a core.

abbrev observations : List (ℕ × ℕ)
observations = (10_000_000_000, 2) ∷ (20_000_000_000, 3) ∷ (400_000_000_000, 3) ∷ []

recycle-Culls_example :
    Culls 900_000_000_000
      (warm_pod ∷ [])
      (recycle_unhealthy_warm_pods 900_000_000_000 (some (warm_pod ∷ [])))
recycle-Culls_example = recycle-Culls 900_000_000_000 (warm_pod ∷ []) (omega arith)

abbrev stamped_pod : Pod
stamped_pod = record warm_pod { released_at = Stamp.at (to_seconds 5_500_000_000) }

reap_two_passes_example :
    (reap_turn warm_pod (pos 7200) 5_500_000_000 ≡ update_pod stamped_pod ∷ [])
    × (reap_turn stamped_pod (pos 7200) 8_000_000_000_000 ≡ delete_pod "sandbox-warm-a" ∷ [])
unfolding effective_ttl
reap_two_passes_example =
    reap_two_passes warm_pod 7200 5_500_000_000 8_000_000_000_000 7200 refl refl (omega arith)
      (omega arith) (omega arith)
