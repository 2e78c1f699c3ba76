-- ===== src/E2b/ProcessTable.antt =====
-- The process table of pkg/sandbox/e2b/process.go. Subscribers are numbered; what they are told is
-- reported as a list of deliveries. The table's lock makes every operation one step.
pub mod Pids
pub mod Calls
pub mod Refine
use k8e.Common.{
  ℕ, zero, suc, ◌+◌, ◌-◌, ◌*◌, ◌/◌, ◌%◌, ◌^◌, ◌≤◌, ◌<◌, String, ◌≡◌, refl, sym, ap, ◌∙◌, ◌≢◌, ◌↔◌,
  ◌⊎◌, inl, inr, Bool, true, false, ◌&&◌, ◌||◌, not, Option, none, some, List, [], ◌∷◌, ◌++◌, map,
  arith, str_eq, eq_iff, ltb, leb, ◌==◌, if◌then◌else◌, ltb→lt, lt→ltb, leb→le, ==_iff, Bool-cases,
  Option-cases, length, get_elem?, replicate, select, length-append, length-replicate, All,
}

pub record ProcessRecord : Type 0 where
  pub sandbox_id : String
  pub subs : List ℕ
  pub guest_pid : Option ℕ

-- The records by pid, and the next pid.
pub record ProcessTable : Type 0 where
  pub next_pid : ℕ
  pub records : List (ℕ × ProcessRecord)

abbrev pub new_process_table : ProcessTable
new_process_table = record { next_pid = 1000; records = [] }

unfoldable pub find : ℕ → List (ℕ × ProcessRecord) → Option ProcessRecord
find pid [] = none
find pid ((p, rec) ∷ rest) = if p == pid then some rec else find pid rest

unfoldable pub change :
    (ProcessRecord → ProcessRecord) → ℕ → List (ℕ × ProcessRecord) → List (ℕ × ProcessRecord)
change f pid [] = []
change f pid ((p, rec) ∷ rest) =
    if p == pid then (p, f rec) ∷ rest else (p, rec) ∷ change f pid rest

unfoldable pub discard : ℕ → List (ℕ × ProcessRecord) → List (ℕ × ProcessRecord)
discard pid [] = []
discard pid ((p, rec) ∷ rest) =
    let others = discard pid rest in if p == pid then others else (p, rec) ∷ others

-- Start: the table and the new pid.
unfoldable pub start : ProcessTable → String → ProcessTable × ℕ
start t sandbox_id = (
  record {
    next_pid = t.next_pid + 1;
    records =
        (t.next_pid, record { sandbox_id = sandbox_id; subs = []; guest_pid = none }) ∷ t.records;
  },
  t.next_pid,
)

unfoldable pub get : ProcessTable → String → ℕ → Option ProcessRecord
unfolding find
get t sandbox_id pid = elim (find pid t.records) [
  | none ↦ none
  | some rec ↦ if str_eq rec.sandbox_id sandbox_id then some rec else none
]

unfoldable pub set_guest_pid : ProcessTable → ℕ → ℕ → ProcessTable
set_guest_pid t pid guest = record t {
  records = change (λ rec. record rec { guest_pid = some guest }) pid t.records;
}

unfoldable pub guest_pid : ProcessTable → ℕ → Option ℕ
guest_pid t pid = elim (find pid t.records) [ none ↦ none | some rec ↦ rec.guest_pid ]

unfoldable pub subscribe : ProcessTable → ℕ → ℕ → ProcessTable × Bool
subscribe t pid sub = (
  record t { records = change (λ rec. record rec { subs = rec.subs ++ sub ∷ [] }) pid t.records },
  elim (find pid t.records) [ none ↦ false | some rec ↦ true ],
)

-- The first occurrence goes.
unfoldable pub drop_sub : ℕ → List ℕ → List ℕ
drop_sub sub [] = []
drop_sub sub (s ∷ subs) = if s == sub then subs else s ∷ drop_sub sub subs

unfoldable pub unsubscribe : ProcessTable → ℕ → ℕ → ProcessTable
unfolding drop_sub
unsubscribe t pid sub = record t {
  records = change (λ rec. record rec { subs = drop_sub sub rec.subs }) pid t.records;
}

unfoldable pub replace_sub : ℕ → ℕ → List ℕ → List ℕ
replace_sub old fresh [] = []
replace_sub old fresh (s ∷ subs) = if s == old then fresh ∷ subs else s ∷ replace_sub old fresh subs

unfoldable pub replace_subscriber : ProcessTable → ℕ → ℕ → ℕ → ProcessTable
unfolding replace_sub
replace_subscriber t pid old fresh = record t {
  records = change (λ rec. record rec { subs = replace_sub old fresh rec.subs }) pid t.records;
}

-- Who receives a chunk.
unfoldable pub broadcast : ProcessTable → ℕ → List ℕ
broadcast t pid = elim (find pid t.records) [ none ↦ [] | some rec ↦ rec.subs ]

-- End: the table without the process, and who is told.
unfoldable pub finish : ProcessTable → ℕ → ProcessTable × List ℕ
finish t pid = (
  record t { records = discard pid t.records },
  elim (find pid t.records) [ none ↦ [] | some rec ↦ rec.subs ],
)
