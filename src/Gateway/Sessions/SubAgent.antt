-- ===== src/Gateway/Sessions/SubAgent.antt =====
-- RunSubAgent: a session of its own in the pod of its parent.
use k8e.Common.{String, inl, inr, false, none, some, [], str_eq, if◌then◌else◌}
use k8e.Common.Int.{ℤ, pos, ◌+ℤ◌, leb_ℤ}
use k8e.Gateway.Api.{SandboxPhase, Status, Session, Error, Answer, Api}
use k8e.Gateway.Sessions.{no_status}

module _ {W : Type 0} (api : Api W) where
  -- The session of a sub-agent, as RunSubAgent creates it and then completes its status.
  unfoldable pub child_of : Session → String → Session
  child_of parent child_id = record {
    name = child_id;
    versioned = false;
    destroy_steps = [];
    background_runs = [];
    spec = record parent.spec {
      parent_session_id = parent.name;
      depth = parent.spec.depth +ℤ pos 1;
    };
    status = no_status;
  }

  unfoldable pub child_status : Session → ℤ → Status
  child_status parent now = record no_status {
    phase = SandboxPhase.active;
    pod_ip = parent.status.pod_ip;
    workspace_pvc = parent.status.workspace_pvc;
    created_at = some now;
  }

  unfoldable pub run_child : W → Session → String → ℤ → Answer W String
  unfolding child_of child_status
  run_child w parent child_id now =
      let (w', created) = api.create_session w (child_of parent child_id) in
      let child : Session = record (child_of parent child_id) {
        status = child_status parent now;
      } in
      if leb_ℤ (pos 1) parent.spec.depth
      then (w, inl Error.permission_denied)
      else if str_eq parent.status.workspace_pvc ""
      then (w, inl Error.failed_precondition)
      else if created
      then ((api.update_status w' child).0, inr child_id)
      else (w', inl Error.internal)

  -- RunSubAgent; `child_id` is the parent's ID, "-sub-" and the time.
  unfoldable pub run_sub_agent : W → String → String → ℤ → Answer W String
  unfolding run_child
  run_sub_agent w parent_id child_id now = elim (api.get_session w parent_id) [
    | none ↦ (w, inl Error.not_found)
    | some parent ↦ run_child w parent child_id now
  ]
