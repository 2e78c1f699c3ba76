-- ===== src/Gateway/RunTests.antt =====
-- The theorems on runs and approvals at concrete inputs.
use k8e.Common.{
  ℕ, ◌≤◌, String, ◌≡◌, refl, ◌⊎◌, inl, true, false, Option, none, some, [], ◌∷◌, arith,
}
use k8e.Common.Int.{pos}
use k8e.Common.Assoc.{lookup, insert, has}
use k8e.Gateway.Api.{Error}
use k8e.Gateway.Memory.{World, memory, set_at, session_named, all_sessions, with_meta}
use k8e.Gateway.Memory.Records.{submits, memory-IsRecorded}
use k8e.Gateway.Runs.{
  Runs, count_background_runs, exec_background, rebuild_run_registry, admit_run, start_run,
}
use k8e.Gateway.Runs.Cap.{State, count_calls, Step, Steps, runs_capped, exhausted_forever}
use k8e.Gateway.Runs.Restart.{rebuild-exec_background}
use k8e.Gateway.Approvals.{
  Approvals, Waited, approve, request_approval, take_decision, find_channel,
}
use k8e.Gateway.Approvals.Decisions.{take_decision-approve}
use k8e.Gateway.Tests.{a_session, own_pod, cluster}

abbrev polls : World → String → String → Option ℕ
polls w ip run = none

abbrev active : World
active = cluster (some a_session) own_pod

abbrev one_call : State
one_call = record { reg = []; calls = "s-1" ∷ [] }

abbrev one_run : State
one_run = record { reg = ("r-1", "s-1") ∷ []; calls = [] }

few_calls : (id : String) → count_calls id ("s-1" ∷ []) ≤ 1
unfolding count_calls
few_calls id = ground arith

-- One call that is admitted and ends.
first_move : Step memory submits polls (record { reg = []; calls = [] }) one_call
unfolding admit_run session_named set_at
first_move = Step.admitted active (record { reg = []; calls = [] }) "s-1" "10.0.0.7" refl

abbrev started : World × Runs × (Error ⊎ String)
started = start_run memory submits polls active [] "s-1" "r-1" "10.0.0.7"

second_move : Step memory submits polls one_call one_run
unfolding start_run insert has
second_move =
    Step.ended active started.0 [] one_run.reg "s-1" "r-1" "10.0.0.7" [] [] started.2 refl refl

no_calls : (id : String) → count_calls id [] ≤ 1
unfolding count_calls
no_calls id = omega arith

runs_capped_example : count_background_runs "s-1" one_run.reg ≤ 5
runs_capped_example = runs_capped memory submits polls 1 one_run "s-1" (
    Steps.step (record { reg = []; calls = [] }) one_call one_run
      (Steps.step (record { reg = []; calls = [] }) (record { reg = []; calls = [] }) one_call
        (Steps.done (record { reg = []; calls = [] })) first_move few_calls)
      second_move no_calls)

abbrev five_runs : State
five_runs = record {
  reg = ("r-1", "s-1") ∷ ("r-2", "s-1") ∷ ("r-3", "s-1") ∷ ("r-4", "s-1") ∷ ("r-5", "s-1") ∷ [];
  calls = [];
}

exhausted_forever_example :
    exec_background memory submits polls active five_runs.reg "s-1" "r-6"
    ≡ (active, five_runs.reg, inl Error.resource_exhausted)
unfolding count_background_runs
exhausted_forever_example =
    exhausted_forever memory submits polls 1 five_runs five_runs active "s-1" "r-6"
      (Steps.done five_runs) (omega arith)

abbrev after_run : World × Runs
after_run = let (w, reg, r) = exec_background memory submits polls active [] "s-1" "r-1" in (w, reg)

rebuild-exec_background_example :
    lookup "r-1" (rebuild_run_registry memory after_run.0 []) ≡ some "s-1"
unfolding exec_background session_named set_at all_sessions with_meta
rebuild-exec_background_example =
    (rebuild-exec_background memory submits polls "s-1" active after_run.0 [] after_run.1 "r-1"
      (all_sessions (memory.get_session after_run.0 "s-1")) memory-IsRecorded refl refl refl
      (λ h. refl, tt)).1

abbrev no_approvals : Approvals
no_approvals = record {
  pending = [];
  channels = λ k. record { buffer = none; closed = false };
  next = 0;
}

abbrev asked : Approvals
asked = request_approval no_approvals "a-1" "rm" (pos 7)

take_decision-approve_example :
    (r : Approvals) × (take_decision (approve asked "a-1" true).0 "a-1" 0
      ≡ some (r, Waited.decided true))
    × (find_channel r "a-1" ≡ none)
take_decision-approve_example =
    let (found, sent, r, taken, gone) =
      take_decision-approve no_approvals "a-1" "rm" (pos 7) true (approve asked "a-1" true).0
        refl in
    (r, taken, gone)
