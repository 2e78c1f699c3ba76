-- ===== src/Gateway/Runs/Cap.antt =====
-- The cap on the runs of a session, when calls of ExecBackground overlap.
use k8e.Common.{
  ℕ, suc, ◌+◌, ◌≤◌, ◌<◌, String, ◌≡◌, refl, sym, ap, ◌⊎◌, inl, inr, Bool, true, false, Option, List,
  [], ◌∷◌, ◌++◌, arith, str_eq, eq_iff, leb, if◌then◌else◌, Bool-cases,
}
use k8e.Common.Assoc.{insert, has}
use k8e.Gateway.Api.{Error, Api}
use k8e.Gateway.Runs.{
  Runs, max_background_runs, count_background_runs, admit_run, start_run, exec_background,
}

-- How often a session is in a list: the calls of it that are under way.
unfoldable pub count_calls : String → List String → ℕ
count_calls id [] = 0
count_calls id (x ∷ xs) = let n = count_calls id xs in if str_eq x id then suc n else n

calls-append :
    (id : String) (xs ys : List String)
    → count_calls id (xs ++ ys) ≡ count_calls id xs + count_calls id ys
unfolding count_calls
calls-append id [] ys = ground arith
calls-append id (x ∷ xs) ys = ground (arith, calls-append id xs ys)

-- A new run of a session.
count-insert :
    (id sid run : String) (reg : Runs)
    → has run reg ≡ false
    → count_background_runs id (insert run sid reg)
      ≡ count_background_runs id reg + (if str_eq sid id then 1 else 0)
unfolding count_background_runs insert has
count-insert id sid run [] fresh = ground arith
count-insert id sid run ((r, s) ∷ reg) fresh = ground (arith, count-insert id sid run reg)

-- The registry, and the sessions of the calls that have been admitted and have not ended.
pub record State : Type 0 where
  pub reg : Runs
  pub calls : List String

module _ {W : Type 0} (api : Api W) {R : Type 0} (submit : W → String → String → W × Bool)
    (poll : W → String → String → Option R) where
  -- One step of some call: it is admitted; or it ends, with its run under an ID that is not taken.
  pub data Step : State → State → Type 0 where
    admitted :
        (w : W) (s : State) (id ip : String)
        → admit_run api submit poll w s.reg id ≡ inr ip
        → Step s (record s { calls = id ∷ s.calls })
    ended :
        (w w' : W) (reg reg' : Runs) (id run ip : String) (before after : List String)
        (res : Error ⊎ String)
        → has run reg ≡ false
        → start_run api submit poll w reg id run ip ≡ (w', reg', res)
        → Step
            (record { reg = reg; calls = before ++ id ∷ after })
            (record { reg = reg'; calls = before ++ after })

  -- Steps, with at most `limit` calls of any one session under way.
  pub data Steps (limit : ℕ) : State → State → Type 0 where
    done : (s : State) → Steps limit s s
    step :
        (s t u : State)
        → Steps limit s t
        → Step t u
        → ((id : String) → count_calls id u.calls ≤ limit)
        → Steps limit s u

  admit_below :
      (w : W) (reg : Runs) (id ip : String)
      → admit_run api submit poll w reg id ≡ inr ip
      → count_background_runs id reg < max_background_runs
  unfolding admit_run
  admit_below w reg id ip h =
      elim (Bool-cases (leb max_background_runs (count_background_runs id reg))) [
        | inl full ↦ cc (rw (full, admit_run) at h)
        | inr free ↦ ground arith
      ]

  start_run_reg :
      (w w' : W) (reg reg' : Runs) (id run ip : String) (res : Error ⊎ String)
      → start_run api submit poll w reg id run ip ≡ (w', reg', res)
      → (reg' ≡ reg) ⊎ (reg' ≡ insert run id reg)
  unfolding start_run
  start_run_reg w w' reg reg' id run ip res h = elim (Bool-cases (submit w ip run).1) [
    | inl submitted ↦ inr (sym (ap (λ r. r.1) (rw (submitted, start_run) at h)))
    | inr lost ↦ inl (sym (ap (λ r. r.1) (rw (lost, start_run) at h)))
  ]

  -- What a step adds to the runs of a session.
  ended_lem :
      (w w' : W) (reg reg' : Runs) (id run ip asked : String) (res : Error ⊎ String)
      → has run reg ≡ false
      → start_run api submit poll w reg id run ip ≡ (w', reg', res)
      → (count_background_runs asked reg ≤ count_background_runs asked reg')
        × (count_background_runs asked reg'
            ≤ count_background_runs asked reg + (if str_eq id asked then 1 else 0))
  ended_lem w w' reg reg' id run ip asked res fresh h =
      elim (start_run_reg w w' reg reg' id run ip res h) [
        | inl same ↦ rw same (ground arith)
        | inr put ↦ rw (put, count-insert asked id run reg fresh) (ground arith)
      ]

  abbrev pub load : State → String → ℕ
  load s id = count_background_runs id s.reg + count_calls id s.calls

  load_below :
      (limit : ℕ) (s t : State) (asked : String)
      → Step s t
      → count_calls asked t.calls ≤ limit
      → load s asked ≤ 4 + limit
      → load t asked ≤ 4 + limit
  unfolding count_calls
  load_below limit _ _ asked (Step.admitted w s id ip ok) few below =
      elim (Bool-cases (str_eq id asked)) [
        | inr other ↦ rw (other, count_calls) below
        | inl same ↦
            let here : id ≡ asked = (eq_iff id asked).0 same in
            let room : count_background_runs asked s.reg < max_background_runs =
              rw (sym here) (admit_below w s.reg id ip ok) in
            ground arith
      ]
  load_below limit _ _ asked (Step.ended w w' reg reg' id run ip before after res fresh ends) few
        below =
      let (more, bound) = ended_lem w w' reg reg' id run ip asked res fresh ends in
      let now = calls-append asked before after in
      let before_it = calls-append asked before (id ∷ after) in ground arith

  loads_below :
      (limit : ℕ) (s t : State) (asked : String)
      → Steps limit s t
      → load s asked ≤ 4 + limit
      → load t asked ≤ 4 + limit
  loads_below limit _ _ asked (Steps.done s) below = below
  loads_below limit _ _ asked (Steps.step s t u earlier last few) below =
      load_below limit t u asked last (few asked) (loads_below limit s t asked earlier below)

  runs_grow_once :
      (s t : State) (asked : String)
      → Step s t
      → count_background_runs asked s.reg ≤ count_background_runs asked t.reg
  runs_grow_once _ _ asked (Step.admitted w s id ip ok) = omega arith
  runs_grow_once _ _ asked (Step.ended w w' reg reg' id run ip before after res fresh ends) =
      (ended_lem w w' reg reg' id run ip asked res fresh ends).0

  runs_grow :
      (limit : ℕ) (s t : State) (asked : String)
      → Steps limit s t
      → count_background_runs asked s.reg ≤ count_background_runs asked t.reg
  runs_grow limit _ _ asked (Steps.done s) = omega arith
  runs_grow limit _ _ asked (Steps.step s t u earlier last few) =
      omega (arith, runs_grow limit s t asked earlier, runs_grow_once t u asked last)

  full_lem :
      (w : W) (reg : Runs) (id run : String)
      → max_background_runs ≤ count_background_runs id reg
      → exec_background api submit poll w reg id run ≡ (w, reg, inl Error.resource_exhausted)
  unfolding exec_background admit_run
  full_lem w reg id run full =
      let refuses : leb max_background_runs (count_background_runs id reg) ≡ true = ground arith in
      rw (refuses, exec_background, admit_run) refl

-- From an empty registry, while at most `limit` calls of ExecBackground for any one session are under
-- way at a time, and no two runs get the same ID, a session never has more than four runs and `limit`
-- more: the cap of five holds when the calls for a session do not overlap.
pub runs_capped :
    {W : Type 0} (api : Api W) {R : Type 0} (submit : W → String → String → W × Bool)
    (poll : W → String → String → Option R) (limit : ℕ) (t : State) (id : String)
    → Steps api submit poll limit (record { reg = []; calls = [] }) t
    → count_background_runs id t.reg ≤ 4 + limit
unfolding count_background_runs count_calls
runs_capped api submit poll limit t id steps =
    let total =
      loads_below api submit poll limit (record { reg = []; calls = [] }) t id steps
        (ground arith) in
    omega arith

-- Once a session has five runs or more, ExecBackground refuses every later one, whatever calls have run in
-- between and whether or not those have ended: nothing takes a run out of the registry.
pub exhausted_forever :
    {W : Type 0} (api : Api W) {R : Type 0} (submit : W → String → String → W × Bool)
    (poll : W → String → String → Option R) (limit : ℕ) (s t : State) (w : W) (id run : String)
    → Steps api submit poll limit s t
    → max_background_runs ≤ count_background_runs id s.reg
    → exec_background api submit poll w t.reg id run ≡ (w, t.reg, inl Error.resource_exhausted)
exhausted_forever api submit poll limit s t w id run steps full =
    full_lem api submit poll w t.reg id run
      (omega (arith, runs_grow api submit poll limit s t id steps))
