-- ===== src/Gateway/Api.antt =====
-- What pkg/sandboxmatrix/grpc/orchestrator.go reads and writes through the Kubernetes API: sessions,
-- pods, claims of volumes, network policies; and the API itself, as a parameter over a state `W` of
-- the cluster. A read that fails and an object that is absent look alike where the code treats them
-- alike.
use k8e.Common.{ℕ, String, ◌⊎◌, inl, inr, Bool, Option, List}
use k8e.Common.Int.{ℤ}
use k8e.Sandbox.Pods.{Pod, PodState}
use k8e.Sandbox.Env.{SecretRef}

pub data SandboxPhase : Type 0 where
  unset warm active paused resetting terminating : SandboxPhase
  background_running background_completed : SandboxPhase

-- The entries of the annotation sandbox.k8e.io/destroy-steps.
pub data DestroyStep : Type 0 where
  cnp workspace release : DestroyStep

pub record Spec : Type 0 where
  pub tenant_id : String
  pub allowed_hosts : List String
  pub runtime_class : String
  pub parent_session_id : String
  pub depth : ℤ
  pub env : List (String × String)
  pub secret_refs : List SecretRef

pub record Status : Type 0 where
  pub phase : SandboxPhase
  pub pod_name : String
  pub pod_ip : String
  pub workspace_pvc : String
  pub created_at : Option ℤ
  pub expires_at : Option ℤ

-- The two annotations that the code writes are lists here; their texts join the entries by commas.
-- `versioned`: the object carries a resourceVersion, as one does that was read from the server and one
-- that the code has built does not.
pub record Session : Type 0 where
  pub name : String
  pub versioned : Bool
  pub destroy_steps : List DestroyStep
  pub background_runs : List String
  pub spec : Spec
  pub status : Status

-- One rule of a CiliumNetworkPolicy, with the port that it opens.
pub data Egress : Type 0 where
  to_world : ℕ → Egress
  to_fqdns : List String → ℕ → Egress

pub data Ingress : Type 0 where
  from_host : ℕ → Ingress
  from_app : String → ℕ → Ingress

-- The policy of the session that it is named after and selects.
pub record Policy : Type 0 where
  pub session : String
  pub ingress : List Ingress
  pub egress : List Egress

pub data Deletion : Type 0 where
  deleted absent failed : Deletion

pub data Lookup : Type 0 where
  found missing broken : Lookup

-- gRPC codes, and an error that is passed on as it is.
pub data Error : Type 0 where
  api_error not_found invalid_argument permission_denied failed_precondition : Error
  resource_exhausted internal : Error

-- The state after a call, and its result.
abbrev pub Answer : Type 0 → Type 0 → Type 0
Answer W A = W × (Error ⊎ A)

pub record Api (W : Type 0) : Type 0 where
  pub get_session : W → String → Option Session
  pub list_sessions : W → Option (List Session)
  pub create_session : W → Session → W × Bool
  -- Update: spec and metadata.
  pub update_session : W → Session → W × Bool
  -- UpdateStatus: the status alone.
  pub update_status : W → Session → W × Bool
  pub delete_session : W → String → W × Bool
  pub pods_in_state : W → PodState → Option (List Pod)
  pub pods_of_session : W → String → Option (List Pod)
  pub get_pod : W → String → Option Pod
  -- The pod as it was read, whose resourceVersion the call carries, and as it is to be.
  pub update_pod : W → Pod → Pod → W × Bool
  -- The pod as the server stores it.
  pub create_pod : W → Pod → W × Option Pod
  pub delete_pod : W → String → W × Deletion
  pub has_pvc : W → String → Bool
  pub create_pvc : W → String → W × Bool
  pub find_policy : W → String → Lookup
  pub create_policy : W → Policy → W × Bool
  pub update_policy : W → Policy → W × Bool
  pub delete_policy : W → String → W
  -- The defaults of the first SandboxMatrix: hosts, session TTL, CPU and memory.
  pub matrix_config : W → List String × ℤ × String × String
  -- sandboxd's /workspace/reset, whose answer the code does not look at.
  pub reset_workspace : W → String → W
  -- The health check of a warm pod.
  pub is_healthy : W → Pod → Bool

unfoldable pub chain : {W A B : Type 0} → Answer W A → (W → A → Answer W B) → Answer W B
chain (w, inl e) f = (w, inl e)
chain (w, inr a) f = f w a
