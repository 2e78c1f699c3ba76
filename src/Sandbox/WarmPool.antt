-- ===== src/Sandbox/WarmPool.antt =====
-- reconcileSinglePool and newWarmPod of pkg/sandboxmatrix/controller.go: the requests that one pass
-- over one pool sends, given what the API server answers. The answers to the requests themselves
-- are only logged by the code.
pub mod Creates
pub mod Recycle
pub mod Reaper
use k8e.Common.{
  ℕ, zero, suc, ◌+◌, ◌-◌, ◌*◌, ◌/◌, ◌%◌, ◌^◌, ◌≤◌, ◌<◌, String, ◌≡◌, refl, sym, ap, ◌∙◌, ◌≢◌, ◌↔◌,
  ◌⊎◌, inl, inr, Bool, true, false, ◌&&◌, ◌||◌, not, Option, none, some, List, [], ◌∷◌, ◌++◌, map,
  arith, str_eq, eq_iff, ltb, leb, ◌==◌, if◌then◌else◌, ltb→lt, lt→ltb, leb→le, ==_iff, Bool-cases,
  Option-cases, length, get_elem?, replicate, select, length-append, length-replicate, All,
}
use k8e.Common.Int.{
  ℤ, pos, negsuc, pos_part, neg_part, sub_ℕ, ◌+ℤ◌, ◌-ℤ◌, ◌*ℤ◌, ◌≤ℤ◌, ◌<ℤ◌, ltb_ℤ, leb_ℤ, eqb_ℤ,
  div_ℤ, wrap64, IsInt64, wrap64-IsInt64, wrap64_fits, +ℤ_parts, -ℤ_parts, eq_of_parts, int_laws,
}
use k8e.Sandbox.Pods.{
  Pod, PodState, Phase, Stamp, Number, SandboxConfig, Request, create_pod, gvisor_annotations,
  or_default,
}
use k8e.Sandbox.Sizing.{adaptive_target, pool_target_size}

-- spec of a SandboxWarmPool; a missing or mistyped field reads as 0 or "".
pub record PoolSpec : Type 0 where
  pub size : ℤ
  pub runtime_class : String
  pub min_size : ℤ
  pub max_size : ℤ
  pub idle_ttl_seconds : ℤ

-- The API server chooses the name ("sandbox-warm-" and a suffix) and fills in the status.
unfoldable pub new_warm_pod : SandboxConfig → String → ℤ → Pod
unfolding gvisor_annotations or_default
new_warm_pod cfg runtime_class idle_ttl_seconds = record {
  name = "";
  phase = Phase.pending;
  pod_ip = "";
  conditions = [];
  created_at = 0;
  state = some PodState.warm;
  session_id = "";
  runtime_label = runtime_class;
  released_at = Stamp.missing;
  idle_ttl =
      if ltb_ℤ (pos 0) idle_ttl_seconds then Number.number idle_ttl_seconds else Number.unset;
  gvisor_host_network = gvisor_annotations runtime_class;
  runtime_class_name = runtime_class;
  pvc_name = "";
  cpu = or_default cfg.default_cpu "500m";
  memory = or_default cfg.default_memory "512Mi";
  image = cfg.default_image;
}

-- `for i := 0; i < gap; i++`, with `rounds` of them left.
pub create_loop : ℕ → ℕ → ℤ → ℕ → Pod → List Request
create_loop zero i max_pods pods pod = []
create_loop (suc rounds) i max_pods pods pod =
    let rest = create_pod pod ∷ create_loop rounds (i + 1) max_pods pods pod in
    if ltb_ℤ (pos 0) max_pods && ltb_ℤ max_pods (pos (pods + i + 1)) then [] else rest

unfoldable pub target_of : PoolSpec → ℤ → ℤ → ℤ
target_of spec max_pods boost =
    pool_target_size (adaptive_target spec.size spec.min_size spec.max_size boost) max_pods

-- `none` for a failed List call.
pub reconcile_single_pool :
    PoolSpec → ℤ → SandboxConfig → ℤ → Option (List Pod) → Option (List Pod) → List Request
unfolding new_warm_pod or_default target_of
reconcile_single_pool spec max_pods cfg boost none warm_pods = []
reconcile_single_pool spec max_pods cfg boost (some all_pods) none = []
reconcile_single_pool spec max_pods cfg boost (some all_pods) (some warm_pods) =
    let gap = target_of spec max_pods boost -ℤ pos (length warm_pods) in
    let pod =
      new_warm_pod cfg (or_default spec.runtime_class cfg.default_runtime) spec.idle_ttl_seconds in
    let creates = create_loop (pos_part gap) 0 max_pods (length all_pods) pod in
    if ltb_ℤ (pos 0) max_pods && leb_ℤ max_pods (pos (length all_pods)) then [] else creates
