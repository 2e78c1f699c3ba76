-- ===== src/Sandbox/Pods.antt =====
-- What pkg/sandboxmatrix/controller.go and pkg/sandboxmatrix/grpc/orchestrator.go read and write
-- of a pod: labels, annotations, status and the parts of the spec that the code sets.
use k8e.Common.{ℕ, String, Bool, true, false, Option, some, List, [], ◌∷◌, str_eq, if◌then◌else◌}
use k8e.Common.Int.{ℤ}

pub data Phase : Type 0 where
  pending running succeeded failed unknown : Phase

abbrev pub is_running : Phase → Bool
is_running Phase.running = true
is_running _ = false

abbrev pub is_failed : Phase → Bool
is_failed Phase.failed = true
is_failed _ = false

-- The values of the label sandbox.k8e.io/state.
pub data PodState : Type 0 where
  warm active resetting : PodState

abbrev pub is_state : PodState → Option PodState → Bool
is_state PodState.warm (some PodState.warm) = true
is_state PodState.active (some PodState.active) = true
is_state PodState.resetting (some PodState.resetting) = true
is_state _ _ = false

-- An annotation that holds a time, by what its text reads as: absent or empty, an RFC 3339 time in
-- nanoseconds since the epoch, or a text that does not parse.
pub data Stamp : Type 0 where
  missing : Stamp
  at : ℕ → Stamp
  garbled : Stamp

-- An annotation that holds an integer, by what strconv.ParseInt makes of its text.
pub data Number : Type 0 where
  unset : Number
  number : ℤ → Number
  not_number : Number

-- One entry of a pod's status conditions: whether its type is Ready, and whether its status is True.
pub record Condition : Type 0 where
  pub is_ready_type : Bool
  pub is_true : Bool

pub record Pod : Type 0 where
  pub name : String
  pub phase : Phase
  pub pod_ip : String
  pub conditions : List Condition
  pub created_at : ℕ
  pub state : Option PodState
  pub session_id : String
  pub runtime_label : String
  pub released_at : Stamp
  pub idle_ttl : Number
  pub gvisor_host_network : Bool
  pub runtime_class_name : String
  pub pvc_name : String
  pub cpu : String
  pub memory : String
  pub image : String

-- PodReadyCondition
unfoldable pub ready_condition : List Condition → Bool
ready_condition [] = false
ready_condition (c ∷ cs) =
    let rest = ready_condition cs in
    if c.is_ready_type then (if c.is_true then true else rest) else rest

-- config.SandboxConfig, the fields that the pool uses.
pub record SandboxConfig : Type 0 where
  pub default_runtime : String
  pub default_image : String
  pub default_cpu : String
  pub default_memory : String

-- GvisorAnnotations: whether the pod gets `gvisor.dev/network: host`.
unfoldable pub gvisor_annotations : String → Bool
gvisor_annotations runtime_class = str_eq runtime_class "gvisor"

unfoldable pub or_default : String → String → String
or_default value fallback = if str_eq value "" then fallback else value

-- What the code asks the API server to do, in the order in which it asks.
pub data Request : Type 0 where
  create_pod : Pod → Request
  delete_pod : String → Request
  update_pod : Pod → Request
