-- ===== src/E2b/ProcessTable/Calls.antt =====
-- The calls of a process table and what is seen of them, and as their specification a map from pids to
-- processes, in which the subscribers of a process are a multiset: how often each one listens.
use k8e.Common.{
  ℕ, ◌+◌, ◌-◌, String, Bool, true, false, Option, none, some, List, [], ◌∷◌, str_eq, ◌==◌,
  if◌then◌else◌,
}
use k8e.E2b.ProcessTable.{
  ProcessRecord, ProcessTable, start, get, set_guest_pid, guest_pid, subscribe, unsubscribe,
  replace_subscriber, broadcast, finish,
}

-- The calls of a table, and what a caller sees of them.
pub data Call : Type 0 where
  starts : String → Call
  gets : String → ℕ → Call
  sets_guest_pid subscribes unsubscribes : ℕ → ℕ → Call
  replaces : ℕ → ℕ → ℕ → Call
  reads_guest_pid broadcasts finishes : ℕ → Call

-- A process, with how often each subscriber listens to it.
pub record Process : Type 0 where
  pub sandbox_id : String
  pub guest_pid : Option ℕ
  pub listens : ℕ → ℕ

-- How often a subscriber is in a list: what it receives of a delivery.
unfoldable pub count : List ℕ → ℕ → ℕ
count [] sub = 0
count (s ∷ subs) sub = (if s == sub then 1 else 0) + count subs sub

abbrev pub as_process : ProcessRecord → Process
as_process rec = record {
  sandbox_id = rec.sandbox_id;
  guest_pid = rec.guest_pid;
  listens = count rec.subs;
}

unfoldable pub mapped : {A B : Type 0} → (A → B) → Option A → Option B
mapped f none = none
mapped f (some a) = some (f a)

pub data Seen : Type 0 where
  quiet : Seen
  pid : ℕ → Seen
  process : Option Process → Seen
  guest : Option ℕ → Seen
  accepted : Bool → Seen
  told : (ℕ → ℕ) → Seen

unfoldable pub call : ProcessTable → Call → ProcessTable × Seen
unfolding start get set_guest_pid guest_pid subscribe unsubscribe replace_subscriber broadcast
    finish mapped count
call t (Call.starts sandbox_id) = let (t', p) = start t sandbox_id in (t', Seen.pid p)
call t (Call.gets sandbox_id p) = (t, Seen.process (mapped as_process (get t sandbox_id p)))
call t (Call.sets_guest_pid p g) = (set_guest_pid t p g, Seen.quiet)
call t (Call.reads_guest_pid p) = (t, Seen.guest (guest_pid t p))
call t (Call.subscribes p sub) = let (t', ok) = subscribe t p sub in (t', Seen.accepted ok)
call t (Call.unsubscribes p sub) = (unsubscribe t p sub, Seen.quiet)
call t (Call.replaces p old fresh) = (replace_subscriber t p old fresh, Seen.quiet)
call t (Call.broadcasts p) = (t, Seen.told (count (broadcast t p)))
call t (Call.finishes p) = let (t', subs) = finish t p in (t', Seen.told (count subs))

-- What is seen of the calls that are made one after the other.
unfoldable pub trace : ProcessTable → List Call → List Seen
unfolding call
trace t [] = []
trace t (c ∷ cs) = let (t', seen) = call t c in seen ∷ trace t' cs

-- The specification: processes by pid, and the next pid.
pub record Processes : Type 0 where
  pub next : ℕ
  pub at : ℕ → Option Process

abbrev pub no_processes : Processes
no_processes = record { next = 1000; at = λ q. none }

unfoldable pub set_at : ℕ → Option Process → (ℕ → Option Process) → ℕ → Option Process
set_at p o at q = if p == q then o else at q

-- A process as one sandbox sees it.
unfoldable pub own : String → Option Process → Option Process
own sandbox_id none = none
own sandbox_id (some proc) = if str_eq proc.sandbox_id sandbox_id then some proc else none

unfoldable pub is_some : Option Process → Bool
is_some none = false
is_some (some proc) = true

unfoldable pub listeners : Option Process → ℕ → ℕ
listeners none sub = 0
listeners (some proc) sub = proc.listens sub

unfoldable pub guest_of : Option Process → Option ℕ
guest_of none = none
guest_of (some proc) = proc.guest_pid

-- One listening more or less of a subscriber, and one that passes from a subscriber that has any to
-- another.
abbrev pub one_more : ℕ → (ℕ → ℕ) → ℕ → ℕ
one_more sub listens s = listens s + (if s == sub then 1 else 0)

abbrev pub one_less : ℕ → (ℕ → ℕ) → ℕ → ℕ
one_less sub listens s = listens s - (if s == sub then 1 else 0)

abbrev pub handed_over : ℕ → ℕ → (ℕ → ℕ) → ℕ → ℕ
handed_over old fresh listens s =
    if listens old == 0 then listens s else one_more fresh (one_less old listens) s

abbrev pub alter : Processes → ℕ → (Process → Process) → Processes
alter s p f = record s { at = set_at p (mapped f (s.at p)) s.at }

unfoldable pub call_spec : Processes → Call → Processes × Seen
unfolding set_at mapped own is_some listeners guest_of
call_spec s (Call.starts sandbox_id) = (
  record {
    next = s.next + 1;
    at =
        set_at s.next
          (some (record { sandbox_id = sandbox_id; guest_pid = none; listens = λ sub. 0 })) s.at;
  },
  Seen.pid s.next,
)
call_spec s (Call.gets sandbox_id p) = (s, Seen.process (own sandbox_id (s.at p)))
call_spec s (Call.sets_guest_pid p g) =
    (alter s p (λ proc. record proc { guest_pid = some g }), Seen.quiet)
call_spec s (Call.reads_guest_pid p) = (s, Seen.guest (guest_of (s.at p)))
call_spec s (Call.subscribes p sub) = (
  alter s p (λ proc. record proc { listens = one_more sub proc.listens }),
  Seen.accepted (is_some (s.at p)),
)
call_spec s (Call.unsubscribes p sub) =
    (alter s p (λ proc. record proc { listens = one_less sub proc.listens }), Seen.quiet)
call_spec s (Call.replaces p old fresh) =
    (alter s p (λ proc. record proc { listens = handed_over old fresh proc.listens }), Seen.quiet)
call_spec s (Call.broadcasts p) = (s, Seen.told (listeners (s.at p)))
call_spec s (Call.finishes p) =
    (record s { at = set_at p none s.at }, Seen.told (listeners (s.at p)))

unfoldable pub trace_spec : Processes → List Call → List Seen
unfolding call_spec
trace_spec s [] = []
trace_spec s (c ∷ cs) = let (s', seen) = call_spec s c in seen ∷ trace_spec s' cs
