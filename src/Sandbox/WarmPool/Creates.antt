-- ===== src/Sandbox/WarmPool/Creates.antt =====
-- How many pods a pass of reconcileSinglePool creates, and which.
use Prim.Native.Nat.{min}
use k8e.Common.{ℕ, zero, suc, ◌+◌, ◌-◌, String, ◌≡◌, refl, some, List, arith, length}
use k8e.Common.Int.{ℤ, pos, negsuc, pos_part, ◌-ℤ◌}
use k8e.Sandbox.Pods.{Pod, SandboxConfig, Request, create_pod, PodState, or_default}
use k8e.Sandbox.WarmPool.{PoolSpec, new_warm_pod, create_loop, target_of, reconcile_single_pool}

-- The number of rounds that the capacity lets through.
abbrev pub allowed : ℤ → ℕ → ℕ → ℕ
allowed (pos zero) rounds pods = rounds
allowed (pos (suc m)) rounds pods = min rounds (suc m - pods)
allowed (negsuc m) rounds pods = rounds

length-create_loop :
    (rounds i : ℕ) (max_pods : ℤ) (pods : ℕ) (pod : Pod)
    → length (create_loop rounds i max_pods pods pod) ≡ allowed max_pods rounds (pods + i)
unfolding create_loop
length-create_loop zero i (pos zero) pods pod = refl
length-create_loop zero i (pos (suc m)) pods pod = omega arith
length-create_loop zero i (negsuc m) pods pod = refl
length-create_loop (suc rounds) i (pos zero) pods pod =
    omega (arith, length-create_loop rounds (i + 1) (pos 0) pods pod)
length-create_loop (suc rounds) i (pos (suc m)) pods pod =
    ground (arith, length-create_loop rounds (i + 1) (pos (suc m)) pods pod)
length-create_loop (suc rounds) i (negsuc m) pods pod =
    ground (arith, length-create_loop rounds (i + 1) (negsuc m) pods pod)

gap_parts : (t : ℤ) (w : ℕ) → pos_part (t -ℤ pos w) ≡ pos_part t - w
unfolding ◌-ℤ◌
gap_parts t w = ground arith

-- A pass over a pool whose two List calls succeed creates as many pods as the target lacks, and
-- with a positive capacity no more than what is left of the capacity beside all labelled pods.
pub creates_exact :
    (spec : PoolSpec) (max_pods : ℤ) (cfg : SandboxConfig) (boost : ℤ)
    (all_pods warm_pods : List Pod)
    → length (reconcile_single_pool spec max_pods cfg boost (some all_pods) (some warm_pods))
      ≡ allowed max_pods
          (pos_part (target_of spec max_pods boost) - length warm_pods)
          (length all_pods)
unfolding reconcile_single_pool
creates_exact spec max_pods cfg boost all_pods warm_pods =
    let t = target_of spec max_pods boost in
    let pod =
      new_warm_pod cfg (or_default spec.runtime_class cfg.default_runtime) spec.idle_ttl_seconds in
    let rounds = pos_part (t -ℤ pos (length warm_pods)) in
    ground (
      arith,
      gap_parts t (length warm_pods),
      length-create_loop rounds 0 max_pods (length all_pods) pod,
    )

-- A request that creates a pool pod of a runtime: labelled warm and with the runtime, unclaimed,
-- without a PVC.
pub data CreatesWarm (runtime : String) : Request → Type 0 where
  creates :
      (pod : Pod)
      → pod.state ≡ some PodState.warm
      → pod.session_id ≡ ""
      → pod.pvc_name ≡ ""
      → pod.runtime_label ≡ runtime
      → pod.runtime_class_name ≡ runtime
      → CreatesWarm runtime (create_pod pod)
