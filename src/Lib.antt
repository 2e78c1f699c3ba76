-- ===== src/Lib.antt =====
-- Verification of k8e: the cluster's own control logic, below the Kubernetes components it starts.
--
-- Parts, and the files that model them. Each stands for Go code of the repository; definitions keep
-- the names of the functions, in snake_case.
--
-- - Sandbox: the sandbox matrix, pkg/sandboxmatrix. Sandbox/Pods has the pods as the controller
--   reads and writes them; Sandbox/Sizing, Demand and WarmPool are controller.go: how many warm pods
--   a pool wants and the cluster holds (adaptiveTarget, computeMaxPods), the measure of recent cold
--   starts (observe), one pass over a pool (reconcileSinglePool), the removal of unhealthy pods
--   (recycleUnhealthyWarmPods), the detection of released pods (detectResetting) and the idle reaper
--   (reapIdlePods). Sandbox/Env is grpc/env.go, the validation that CreateSession makes;
--   Sandbox/RateLimit is ratelimit/ratelimit.go; Sandbox/ApiKeys is pkg/sandbox/apikey/store.go.
-- - E2b: the daemon that speaks the E2B protocol over the sandbox gateway, pkg/sandbox/e2b.
--   E2b/Registry is registry.go, with the pass of the deadline scan gcExpired, which asks the gateway
--   to pause or destroy sessions; E2b/ProcessTable is process.go. E2b/CrdState is crd_state.go, the
--   same interface of state_store.go on annotations of the sessions; whether the API server serves a
--   call, and the text of a time, are parameters.
-- - LoadBalancer: the agent's client load balancer, pkg/agent/loadbalancer. LoadBalancer/Sorting is
--   sortServers of utility.go, Servers and Health are servers.go, Dial is the dial loop of
--   loadbalancer.go. Tunnels and the agent's kubelet reach the servers through it.
-- - Gateway: the sandbox gateway, pkg/sandboxmatrix/grpc. Gateway/Api is the Kubernetes API as it
--   uses it, a parameter over a state of the cluster, and Gateway/Store the laws that it relies on;
--   Gateway/Memory is a cluster in memory that has these laws. Gateway/Policy is expose.go and
--   buildSessionCNPExposed, Gateway/Claims is claimOrCreatePod, and Gateway/Sessions with its child
--   modules is createSessionWithTTL, DestroySession with its ledger, PauseSession, ResumeSession and
--   RunSubAgent of orchestrator.go, and gcExpiredSessions of controller.go. Gateway/Runs is the
--   registry of background runs (ExecBackground, RebuildRunRegistry), Gateway/Approvals the approvals
--   (ConfirmAction, Approve, StartApprovalGC), with steps of other calls in between.
-- - Secrets: encryption of Kubernetes secrets at rest. Secrets/Cluster is pkg/secretsencrypt/config.go
--   and the state, Secrets/Stages is pkg/server/secrets-encrypt.go with its stages
--   (Secrets/Checks has the tests of the annotations and the picking of keys).
-- - Etcd: the embedded etcd, pkg/etcd. Etcd/Learners is manageLearners and trackLearnerProgress of
--   etcd.go, which promote or remove a new member; Etcd/Snapshots is snapshotRetention of snapshot.go,
--   SnapshotRetention of s3/s3.go, and retainMissingETCDSnapshotFile.
-- - Layers: the content-addressed layers of the sandbox snapshots. Layers/Store and Layers/Collection
--   are pkg/sandboxlayer/layerstore.go (Put, PutChunks, Assemble, SaveManifest with its squash; GC and
--   the manifests that lease layers), Layers/Snapshots its callers: storeSnapshotLayer,
--   readSnapshotPayload and the end of the delete command of pkg/sandboxcli/snapshot.go, and the
--   snapshot registry of grpc/server.go. SHA-256, zstd and the answers of the disk are parameters.
-- - Config: pkg/configfilearg/parser.go, the configuration files that are merged into the command line.
--   Config/Values is the entries and the arguments they become (processConfigEntry,
--   formatCommandLineArgs, findTargetValue), Config/Flags the regular expression of stripInvalidFlags,
--   Config/Parser is Parse and FindString. The environment, the files as entries and TrimSpace are
--   parameters; the words of After come with their numbers parsed.
-- - Passwd: pkg/passwd/passwd.go, the file of user names, passwords and roles of the supervisor, with
--   encoding/csv as a parameter.
--
-- Common has the helpers: Go's signed 64-bit integers with wrap-around (Common/Int), maps with text
-- keys as association lists (Common/Assoc), lists and tests.
--
-- How state and effects are modelled. A struct is a record and a method is a function from the state
-- to the state and its results. One call runs at a time: each of the modelled components holds a lock
-- over its operation, except nextServer, whose races are not modelled, and the gateway, where the
-- claim of a warm pod, the registration of a run and the approvals have other calls in between. The
-- layer store has no lock: its commands run one after another here. The CRD-backed store meets other
-- writers as updates that are refused. Calls of the Kubernetes API are lists of requests in the
-- controller, and the API's answers are arguments: `none` where a List fails; in the gateway the API
-- is a record of functions on a state of the cluster. A session there tells whether it carries a
-- resourceVersion, without which the API refuses to write its status. The network, the random source,
-- the file system, etcd's client, the sorting and the text of times are parameters too. The order in
-- which Go iterates over a map is the order of the list
-- that stands for it. Logging is left out. Times are nanoseconds since the epoch unless a file says
-- otherwise, and durations are signed 64-bit; the count of a session's runs is a natural number.
--
-- Bounds and fuel. The dial loop runs on fuel of one more than twice the number of servers: the loop
-- stops when the index is back at its start for the second time, and it passes each position once a
-- turn; the results below include that this fuel is enough. PutChunks runs on the length of the content,
-- of which every turn takes a byte at least. All other loops are recursion on lists.
-- Float64 is a parameter of the rate limiter, used with laws on whole numbers up to 2^53.
--
-- Not modelled: gRPC, HTTP and Connect transport, JSON and protobuf, TLS, the file system, the
-- construction of the containers of a pod, CheckCapacity of grpc/orchestrator.go, the start and the
-- join of etcd and its uploads, the start-up of the Kubernetes components, the flags of the commands,
-- generated code.
pub mod Common
pub mod Sandbox
pub mod LoadBalancer
pub mod E2b
pub mod Secrets
pub mod Gateway
pub mod Etcd
pub mod Layers
pub mod Config
pub mod Passwd
