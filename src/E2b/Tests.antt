-- ===== src/E2b/Tests.antt =====
-- The daemon's theorems at concrete inputs.
use k8e.Common.{String, ◌≡◌, refl, true, false, some, List, [], ◌∷◌}
use k8e.Common.Int.{pos}
use k8e.Common.Assoc.{lookup}
use k8e.E2b.Registry
use k8e.E2b.Registry.{
  Entry, Registry, Gateway, name_of, by_key_name, put, del, later, candidate, extend_deadline,
  clear_deadline, gc_expired,
}
use k8e.E2b.Registry.Deadlines.{gc_expired_lem, Fate}
use k8e.E2b.ProcessTable.{new_process_table}
use k8e.E2b.ProcessTable.Calls.{Call, no_processes, trace, trace_spec}
use k8e.E2b.ProcessTable.Refine.{trace-trace_spec}

abbrev entry : String → Entry
entry id = record {
  sandbox_id = id;
  deadline_at = some (pos 5_000_000_000);
  on_deadline = "kill";
  created_at = some (pos 1_000_000_000);
  metadata = ("name", "build") ∷ [];
  runtime_name = "gvisor";
  paused_by_user = false;
}

abbrev registry : Registry
registry = record { by_id = ("sb-1", entry "sb-1") ∷ []; by_name = ("build", "sb-1") ∷ [] }

abbrev gateway : Gateway
gateway = record { pauses = λ id. false; destroys = λ id. true }

gc_expired_lem_example :
    Fate gateway 6_000_000_000 "sb-1"
      (entry "sb-1")
      (Registry.get (gc_expired gateway 6_000_000_000 registry) "sb-1")
unfolding lookup Registry.get
gc_expired_lem_example = gc_expired_lem gateway 6_000_000_000 registry "sb-1" (entry "sb-1") refl

abbrev some_calls : List Call
some_calls =
    Call.starts "sb-1"
    ∷ Call.subscribes 1000 7
    ∷ Call.subscribes 1000 8
    ∷ Call.subscribes 1000 9
    ∷ Call.unsubscribes 1000 7
    ∷ Call.replaces 1000 8 5
    ∷ Call.gets "sb-2" 1000
    ∷ Call.broadcasts 1000
    ∷ Call.finishes 1000
    ∷ Call.subscribes 1000 7
    ∷ []

trace-trace_spec_example : trace new_process_table some_calls ≡ trace_spec no_processes some_calls
trace-trace_spec_example = trace-trace_spec some_calls
