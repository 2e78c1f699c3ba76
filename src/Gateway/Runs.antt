-- ===== src/Gateway/Runs.antt =====
-- Background runs of pkg/sandboxmatrix/grpc/orchestrator.go: ExecBackground, PollRun and
-- RebuildRunRegistry. The registry's lock makes each access to it one step; ExecBackground counts in
-- one step and registers in a later one.
pub mod Cap
pub mod Rebuilt
pub mod Restart
use k8e.Common.{
  ℕ, zero, suc, ◌+◌, ◌-◌, ◌*◌, ◌/◌, ◌%◌, ◌^◌, ◌≤◌, ◌<◌, String, ◌≡◌, refl, sym, ap, ◌∙◌, ◌≢◌, ◌↔◌,
  ◌⊎◌, inl, inr, Bool, true, false, ◌&&◌, ◌||◌, not, Option, none, some, List, [], ◌∷◌, ◌++◌, map,
  arith, str_eq, eq_iff, ltb, leb, ◌==◌, if◌then◌else◌, ltb→lt, lt→ltb, leb→le, ==_iff, Bool-cases,
  Option-cases, length, get_elem?, replicate, select, length-append, length-replicate, All,
}
use k8e.Common.Int.{
  ℤ, pos, negsuc, pos_part, neg_part, sub_ℕ, ◌+ℤ◌, ◌-ℤ◌, ◌*ℤ◌, ◌≤ℤ◌, ◌<ℤ◌, ltb_ℤ, leb_ℤ, eqb_ℤ,
  div_ℤ, wrap64, IsInt64, wrap64-IsInt64, wrap64_fits, +ℤ_parts, -ℤ_parts, eq_of_parts, int_laws,
}
use k8e.Common.Assoc.{lookup, insert, has}
use k8e.Sandbox.Pods.{Pod}
use k8e.Gateway.Api.{Session, Error, Api}
use k8e.Gateway.Sessions.{first_pod}

-- runRegistry: the session of each run.
abbrev pub Runs : Type 0
Runs = List (String × String)

-- defaultMaxBackgroundRuns
abbrev pub max_background_runs : ℕ
max_background_runs = 5

-- countBackgroundRuns
unfoldable pub count_background_runs : String → Runs → ℕ
count_background_runs session_id [] = 0
count_background_runs session_id ((run, sid) ∷ runs) =
    let n = count_background_runs session_id runs in if str_eq sid session_id then suc n else n

-- The runs that a session lists are put in unless the registry has them.
unfoldable pub rebuild_session : String → List String → Runs → Runs
rebuild_session session_id [] reg = reg
rebuild_session session_id (run ∷ runs) reg =
    rebuild_session session_id runs
      (if str_eq run "" || has run reg then reg else insert run session_id reg)

unfoldable pub rebuild_sessions : List Session → Runs → Runs
unfolding rebuild_session
rebuild_sessions [] reg = reg
rebuild_sessions (s ∷ ss) reg = rebuild_sessions ss (rebuild_session s.name s.background_runs reg)

-- The address in a status, or of the first pod of the session's.
unfoldable pub ip_or : String → String × String → Option String
ip_or pod_ip by_label =
    if not (str_eq pod_ip "")
    then some pod_ip
    else if str_eq by_label.0 ""
    then none
    else some by_label.0

module _ {W : Type 0} (api : Api W) where
  -- RebuildRunRegistry
  unfoldable pub rebuild_run_registry : W → Runs → Runs
  unfolding rebuild_sessions
  rebuild_run_registry w reg = elim (api.list_sessions w) [
    | none ↦ reg
    | some ss ↦ rebuild_sessions ss reg
  ]

  -- getPodIPBySession
  unfoldable pub get_pod_ip_by_session : W → String → Option String
  unfolding ip_or first_pod
  get_pod_ip_by_session w session_id = elim (api.get_session w session_id) [
    | none ↦ none
    | some s ↦ ip_or s.status.pod_ip (first_pod (api.pods_of_session w session_id))
  ]

  -- recordRunOnSession
  unfoldable pub record_run_on_session : W → String → String → W
  record_run_on_session w session_id run = elim (api.get_session w session_id) [
    | none ↦ w
    | some s ↦
        (api.update_session w (record s { background_runs = s.background_runs ++ run ∷ [] })).0
  ]

  -- What the code asks of sandboxd at an address: to start a run, and how a run does.
  module _ {R : Type 0} (submit : W → String → String → W × Bool)
      (poll : W → String → String → Option R) where
    -- The first step of ExecBackground: the address to go on with.
    unfoldable pub admit_run : W → Runs → String → Error ⊎ String
    unfolding count_background_runs get_pod_ip_by_session
    admit_run w reg session_id =
        if leb max_background_runs (count_background_runs session_id reg)
        then inl Error.resource_exhausted
        else elim (get_pod_ip_by_session w session_id) [
          | none ↦ inl Error.api_error
          | some ip ↦ inr ip
        ]

    -- The rest of it: the run is submitted, registered and recorded on the session.
    unfoldable pub start_run : W → Runs → String → String → String → W × Runs × (Error ⊎ String)
    unfolding record_run_on_session
    start_run w reg session_id run ip =
        let (w', submitted) = submit w ip run in
        if submitted
        then (record_run_on_session w' session_id run, insert run session_id reg, inr run)
        else (w', reg, inl Error.api_error)

    -- ExecBackground, when no other call runs meanwhile.
    unfoldable pub exec_background : W → Runs → String → String → W × Runs × (Error ⊎ String)
    unfolding admit_run start_run
    exec_background w reg session_id run = elim (admit_run w reg session_id) [
      | inl err ↦ (w, reg, inl err)
      | inr ip ↦ start_run w reg session_id run ip
    ]

    -- PollRun
    unfoldable pub poll_run : W → Runs → String → Error ⊎ R
    unfolding get_pod_ip_by_session
    poll_run w reg run = elim (lookup run reg) [
      | none ↦ inl Error.api_error
      | some session_id ↦ elim (get_pod_ip_by_session w session_id) [
        | none ↦ inl Error.api_error
        | some ip ↦ elim (poll w ip run) [ none ↦ inl Error.api_error | some r ↦ inr r ]
      ]
    ]
