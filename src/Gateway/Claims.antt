-- ===== src/Gateway/Claims.antt =====
-- How a session gets its pod: claimOrCreatePod of pkg/sandboxmatrix/grpc/orchestrator.go, with the
-- counters of recordClaim, and SandboxPodSpec as far as Sandbox/Pods shows a pod.
use Prim.Native.String.{◌++◌ as str_append}
use k8e.Common.{
  ℕ, ◌+◌, String, Bool, true, false, ◌||◌, not, Option, none, some, List, [], ◌∷◌, str_eq,
  if◌then◌else◌,
}
use k8e.Common.Int.{ℤ, pos, ◌+ℤ◌, wrap64}
use k8e.Sandbox.Pods.{Phase, PodState, Stamp, Number, Pod, gvisor_annotations, or_default}
use k8e.Gateway.Api.{Api}

-- The counters of claims; Add wraps around at 64 bits.
pub record ClaimCounters : Type 0 where
  pub claimed_from_warm : ℤ
  pub cold_starts : ℤ
  pub claim_latency_total_ms : ℤ
  pub claim_count : ℤ

-- recordClaim, after `elapsed` milliseconds.
unfoldable pub record_claim : ClaimCounters → ℤ → Bool → ClaimCounters
record_claim m elapsed warm = record {
  claimed_from_warm = if warm then wrap64 (m.claimed_from_warm +ℤ pos 1) else m.claimed_from_warm;
  cold_starts = if warm then m.cold_starts else wrap64 (m.cold_starts +ℤ pos 1);
  claim_latency_total_ms = wrap64 (m.claim_latency_total_ms +ℤ elapsed);
  claim_count = wrap64 (m.claim_count +ℤ pos 1);
}

-- The pod that claimOrCreatePod creates: labels, annotations and SandboxPodSpec. The server fills in
-- its status.
unfoldable pub session_pod : String → String → String → String → String → Pod
unfolding gvisor_annotations or_default
session_pod session_id runtime_class pvc_name cpu memory = record {
  name = str_append "sandbox-" session_id;
  phase = Phase.pending;
  pod_ip = "";
  conditions = [];
  created_at = 0;
  state = some PodState.active;
  session_id = session_id;
  runtime_label = runtime_class;
  released_at = Stamp.missing;
  idle_ttl = Number.unset;
  gvisor_host_network = gvisor_annotations runtime_class;
  runtime_class_name = runtime_class;
  pvc_name = pvc_name;
  cpu = or_default cpu "500m";
  memory = or_default memory "512Mi";
  image = "ghcr.io/xiaods/k8e-sandbox:latest";
}

-- A warm pod as the session that claims it relabels it.
abbrev pub claimed : String → Pod → Pod
claimed session_id pod = record pod { state = some PodState.active; session_id = session_id }

-- Whether a pod's runtime label lets a session of the runtime class claim it.
unfoldable pub fits_runtime : String → Pod → Bool
fits_runtime runtime_class pod =
    str_eq pod.runtime_label "" || str_eq pod.runtime_label runtime_class

module _ {W : Type 0} (api : Api W) where
  -- The loop over the warm pods that were listed. `others i` is what other clients do to the cluster
  -- before the update of the pod at place `i`.
  unfoldable pub claim_warm : (ℕ → W → W) → String → String → W → ℕ → List Pod → W × Option Pod
  unfolding fits_runtime
  claim_warm others session_id runtime_class w i [] = (w, none)
  claim_warm others session_id runtime_class w i (pod ∷ pods) =
      let skipped = claim_warm others session_id runtime_class w (i + 1) pods in
      let (w', updated) = api.update_pod (others i w) pod (claimed session_id pod) in
      let lost = claim_warm others session_id runtime_class w' (i + 1) pods in
      if not (api.is_healthy w pod)
      then skipped
      else if not (fits_runtime runtime_class pod)
      then skipped
      else if updated
      then (w', some (claimed session_id pod))
      else lost

  -- The pod with which the session goes on, `none` for an error, and whether it was warm.
  unfoldable pub cold_start : W → Pod → W × Option Pod × Bool
  cold_start w pod = let (w', created) = api.create_pod w pod in (w', created, false)

  unfoldable pub after_warm : Pod → W × Option Pod → W × Option Pod × Bool
  unfolding cold_start
  after_warm pod (w, some p) = (w, some p, true)
  after_warm pod (w, none) = cold_start w pod

  -- claimOrCreatePod
  unfoldable pub claim_or_create_pod :
      (ℕ → W → W) → W → String → String → String → String → String → W × Option Pod × Bool
  unfolding session_pod claim_warm after_warm
  claim_or_create_pod others w session_id runtime_class pvc_name cpu memory =
      let pod = session_pod session_id runtime_class pvc_name cpu memory in
      let from_pool : W × Option Pod × Bool = elim (api.pods_in_state w PodState.warm) [
        | none ↦ cold_start w pod
        | some pods ↦ after_warm pod (claim_warm others session_id runtime_class w 0 pods)
      ] in
      if str_eq pvc_name "" then from_pool else cold_start w pod

-- The counters after a claim, which an error leaves alone.
unfoldable pub count_claim : ClaimCounters → ℤ → Option Pod → Bool → ClaimCounters
unfolding record_claim
count_claim m elapsed none warm = m
count_claim m elapsed (some pod) warm = record_claim m elapsed warm
