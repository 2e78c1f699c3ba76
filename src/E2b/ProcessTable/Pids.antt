-- ===== src/E2b/ProcessTable/Pids.antt =====
-- Looking up a pid after a change or the end of a process.
use k8e.Common.{ℕ, ◌≡◌, none, some, List, [], ◌∷◌, arith, ◌==◌, if◌then◌else◌}
use k8e.E2b.ProcessTable.{ProcessRecord, find, change, discard}

pub find-change :
    (f : ProcessRecord → ProcessRecord) (pid q : ℕ) (l : List (ℕ × ProcessRecord))
    → find q (change f pid l)
      ≡ (if pid == q then elim (find q l) [ none ↦ none | some rec ↦ some (f rec) ] else find q l)
unfolding find change
find-change f pid q [] = ground arith
find-change f pid q ((p, rec) ∷ l) = ground (arith, find-change f pid q l)

pub find-discard :
    (pid q : ℕ) (l : List (ℕ × ProcessRecord))
    → find q (discard pid l) ≡ (if pid == q then none else find q l)
unfolding find discard
find-discard pid q [] = ground arith
find-discard pid q ((p, rec) ∷ l) = ground (arith, find-discard pid q l)
