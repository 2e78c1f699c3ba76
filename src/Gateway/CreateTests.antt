-- ===== src/Gateway/CreateTests.antt =====
-- CreateSession at a concrete input, on the cluster in memory.
use k8e.Common.{◌≡◌, refl, ◌⊎◌, inl, true, false, none, some, [], ◌∷◌, str_eq, if◌then◌else◌}
use k8e.Common.Int.{pos, ◌+ℤ◌, ◌*ℤ◌, wrap64}
use k8e.Common.Assoc.{contains}
use k8e.Sandbox.Env.{Strings}
use k8e.Gateway.Api.{Session, SandboxPhase, Error}
use k8e.Gateway.Memory.{World, memory}
use k8e.Gateway.Memory.Laws.{memory-IsStore, wipe_count}
use k8e.Gateway.Sessions.{CreateSessionRequest, session_of_request, create_session}
use k8e.Gateway.Sessions.Pause.{pause_session}
use k8e.Gateway.Store.{as_stored}
use k8e.Gateway.Created.{create_session-IsReturned}
use k8e.Gateway.Tests.{a_pod, cluster, no_ports}

abbrev strings : Strings
strings = record {
  size = λ s. if str_eq s "" then 0 else 5;
  is_valid = λ s. true;
  has_nul = λ s. false;
  has_equals = λ s. false;
}

abbrev request : CreateSessionRequest
request = record {
  session_id = "s-1";
  tenant_id = "acme";
  runtime_class = "";
  allowed_hosts = [];
  env = ("MODEL", "large") ∷ [];
  secret_refs = [];
}

abbrev empty : World
empty = cluster none a_pod

abbrev asked : Session
asked = session_of_request memory request "sess-9" (memory.matrix_config empty).0

abbrev answer : World × (Error ⊎ Session)
answer = create_session memory strings (λ i w. w) no_ports empty request "sess-9" (pos 9)

-- What the call returns.
abbrev returned : Session
returned = record asked {
  status = record {
    phase = SandboxPhase.active;
    pod_name = "sandbox-s-1";
    pod_ip = "";
    workspace_pvc = "workspace-s-1";
    created_at = some (pos 9);
    expires_at = some (pos 3_600_000_000_009);
  };
}

create_session-IsReturned_example :
    (memory.get_session answer.0 "s-1" ≡ some (as_stored asked))
    × (pause_session memory answer.0 "s-1" ≡ (answer.0, inl Error.failed_precondition))
unfolding create_session contains ◌+ℤ◌ wrap64 ◌*ℤ◌
create_session-IsReturned_example =
    let made =
      create_session-IsReturned memory wipe_count strings (λ i w. w) no_ports empty request "sess-9"
        (pos 9) answer.0 returned memory-IsStore (λ i v j. refl) refl in
    (made.2.stored, made.3)
