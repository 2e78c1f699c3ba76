-- ===== src/Gateway/Tests.antt =====
-- The gateway's theorems at concrete inputs, on the cluster in memory.
use native.Mathlib.Decide.{ℕ_discrete}
use k8e.Common.{ℕ, String, ◌≡◌, refl, true, false, Option, none, some, [], ◌∷◌}
use k8e.Common.Int.{pos}
use k8e.Common.Assoc.{lookup, contains}
use k8e.Sandbox.Pods.{Pod, PodState, Phase, Stamp, Number}
use k8e.Gateway.Api.{Session, SandboxPhase, DestroyStep}
use k8e.Gateway.Memory.{
  World, memory, set_at, session_named, pod_named, is_current, holds, pod_discrete, with_state,
  all_with_state, of_session, all_of_session,
}
use k8e.Gateway.Memory.Laws.{memory-IsStore, wipe_count, is_current_now}
use k8e.Gateway.Policy.{
  ExposedEntry, Exposures, find_exposed, expose_service, build_session_cnp_exposed,
  unexpose_service,
}
use k8e.Gateway.Ports.{is_exposed, admits, admits-build_session_cnp_exposed, SameEntries}
use k8e.Gateway.Exposed.{unexpose-expose}
use k8e.Gateway.Store.{with_status}
use k8e.Gateway.Claims.{claimed, session_pod, claim_or_create_pod}
use k8e.Gateway.Claimed.{IsClaim, claim_or_create_pod-IsClaim}
use k8e.Gateway.Sessions.{is_done, released}
use k8e.Gateway.Sessions.Destroy.{destroy_session}
use k8e.Gateway.Sessions.Pause.{pause_session, resume_session}
use k8e.Gateway.Sessions.SubAgent.{run_sub_agent}
use k8e.Gateway.Destroyed.{IsUntouched, resumed-IsUntouched}
use k8e.Gateway.Children.{sub_agent-IsUntouched}
use k8e.Gateway.Released.{destroy-IsFreed}
use k8e.Gateway.Paused.{resumed, kept_pvc}
use k8e.Gateway.Resumed.{resume-pause}

abbrev pub a_pod : Pod
a_pod = record {
  name = "pod-a";
  phase = Phase.running;
  pod_ip = "10.0.0.7";
  conditions = [];
  created_at = 0;
  state = some PodState.warm;
  session_id = "";
  runtime_label = "gvisor";
  released_at = Stamp.missing;
  idle_ttl = Number.unset;
  gvisor_host_network = false;
  runtime_class_name = "gvisor";
  pvc_name = "";
  cpu = "";
  memory = "";
  image = "";
}

-- The pod in the hands of the session.
abbrev pub own_pod : Pod
own_pod = claimed "s-1" a_pod

abbrev pub a_session : Session
a_session = record {
  name = "s-1";
  versioned = true;
  destroy_steps = [];
  background_runs = [];
  spec = record {
    tenant_id = "acme";
    allowed_hosts = [];
    runtime_class = "gvisor";
    parent_session_id = "";
    depth = pos 0;
    env = [];
    secret_refs = [];
  };
  status = record {
    phase = SandboxPhase.active;
    pod_name = "pod-a";
    pod_ip = "10.0.0.7";
    workspace_pvc = "workspace-s-1";
    created_at = some (pos 5);
    expires_at = none;
  };
}

abbrev pub cluster : Option Session → Pod → World
cluster s pod = record {
  sessions = set_at "s-1" s (λ j. none);
  pods = set_at "pod-a" (some pod) (λ j. none);
  policies = [];
  pvcs = [];
  wiped = [];
}

abbrev pub no_ports : Exposures
no_ports = record { exposed = []; fqdn_egress_enabled = false }

abbrev urls : ℕ → String
urls port = "https://s-1.example"

claim_or_create_pod-IsClaim_example :
    IsClaim memory "s-1" "gvisor" (memory.update_pod (cluster none a_pod) a_pod own_pod).0 own_pod
unfolding claim_or_create_pod set_at all_with_state with_state is_current pod_named holds
    pod_discrete ℕ_discrete
claim_or_create_pod-IsClaim_example =
    (claim_or_create_pod-IsClaim memory wipe_count (λ i w. w) "s-1" "gvisor" (cluster none a_pod) ""
      "" "" (memory.update_pod (cluster none a_pod) a_pod own_pod).0 own_pod memory-IsStore refl).1

-- A session whose destroy stopped after the workspace was reset.
abbrev half_destroyed : Session
half_destroyed = record a_session { destroy_steps = DestroyStep.cnp ∷ DestroyStep.workspace ∷ [] }

resumed-IsUntouched_example :
    IsUntouched memory wipe_count
      (cluster (some half_destroyed) own_pod)
      (destroy_session memory (cluster (some half_destroyed) own_pod) "s-1").0
unfolding session_named set_at is_done
resumed-IsUntouched_example =
    resumed-IsUntouched memory wipe_count (cluster (some half_destroyed) own_pod) "s-1"
      half_destroyed memory-IsStore refl refl

sub_agent-IsUntouched_example :
    IsUntouched memory wipe_count
      (cluster (some a_session) own_pod)
      (destroy_session memory
        (run_sub_agent memory (cluster (some a_session) own_pod) "s-1" "s-1-sub-9" (pos 9)).0
        "s-1-sub-9").0
unfolding run_sub_agent session_named set_at all_of_session of_session pod_named
sub_agent-IsUntouched_example =
    sub_agent-IsUntouched memory wipe_count (cluster (some a_session) own_pod)
      (run_sub_agent memory (cluster (some a_session) own_pod) "s-1" "s-1-sub-9" (pos 9)).0 "s-1"
      "s-1-sub-9" "s-1-sub-9" (pos 9) memory-IsStore refl refl

destroy-IsFreed_example :
    memory.get_pod (destroy_session memory (cluster (some a_session) own_pod) "s-1").0 "pod-a"
    ≡ some (released own_pod)
unfolding session_named set_at all_of_session of_session pod_named destroy_session
destroy-IsFreed_example =
    (destroy-IsFreed memory wipe_count (cluster (some a_session) own_pod) "s-1" a_session own_pod
      memory-IsStore (λ v h. rw (is_current_now v own_pod h) refl) refl refl refl refl refl refl
      refl).1

abbrev at_rest : World
at_rest = (pause_session memory (cluster (some a_session) own_pod) "s-1").0

abbrev awake : World
awake = (resume_session memory (λ i w. w) no_ports at_rest "s-1").0

abbrev new_pod : Pod
new_pod = session_pod "s-1" "gvisor" "workspace-s-1" "" ""

resume-pause_example :
    memory.get_session awake "s-1" ≡ some (resumed a_session (kept_pvc a_session) new_pod)
unfolding session_named set_at pause_session pod_named all_of_session resume_session with_status
    contains
resume-pause_example =
    (resume-pause memory wipe_count (λ i w. w) no_ports (cluster (some a_session) own_pod) at_rest
      awake "s-1" a_session true new_pod memory-IsStore (λ v t read. read) refl refl refl).0

abbrev exposed_80 : World × Exposures
exposed_80 =
    let (w, x, r) =
      expose_service memory urls no_ports (cluster (some a_session) own_pod) "s-1" (pos 80) ""
        (pos 9) in
    (w, x)

unexpose-expose_example :
    SameEntries no_ports (unexpose_service memory exposed_80.1 (cluster none a_pod) "s-1" 80).1
unfolding expose_service session_named set_at lookup contains
unexpose-expose_example =
    (unexpose-expose memory urls no_ports exposed_80.1 (cluster (some a_session) own_pod)
      exposed_80.0 (cluster none a_pod) "s-1" (pos 80) "" (pos 9) "https://s-1.example" refl refl).1

abbrev entry_80 : ExposedEntry
entry_80 = record { port = 80; host = "127.0.0.1"; url = "https://s-1.example"; started_at = pos 9 }

admits-build_session_cnp_exposed_example :
    admits "e2b-server" 80 (build_session_cnp_exposed a_session false (entry_80 ∷ [])).ingress
    ≡ true
unfolding is_exposed find_exposed
admits-build_session_cnp_exposed_example =
    admits-build_session_cnp_exposed a_session false (entry_80 ∷ []) "e2b-server" 80
