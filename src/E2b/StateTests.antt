-- ===== src/E2b/StateTests.antt =====
-- The CRD-backed store at concrete inputs: times of three seconds, with one digit as their text.
use k8e.Common.{
  ◌*◌, ◌/◌, ◌≤◌, ◌<◌, String, ◌≡◌, refl, ap, inl, inr, true, false, Option, none, some, List, [],
  ◌∷◌, arith, str_eq, ltb, if◌then◌else◌, Bool-cases, All,
}
use k8e.Common.Int.{ℤ, pos, negsuc, ◌≤ℤ◌, ◌+ℤ◌, ◌*ℤ◌, wrap64}
use k8e.Common.Assoc.{lookup, insert, remove, has}
use k8e.E2b.Registry
use k8e.E2b.Registry.{Entry, new_registry, candidate}
use k8e.E2b.CrdState
use k8e.E2b.CrdState.{
  E2bState, CrdStore, ApiAnswers, get, deadline_of, is_paused, extend_deadline, is_after,
}
use k8e.E2b.CrdState.Refine.{served, IsRfc3339, AreYears, rounded, to_seconds}
use k8e.E2b.CrdState.Operations.{
  StateOperation, puts, extends, marks, deletes, run_registry, run_sessions,
}
use k8e.E2b.CrdState.Trace.{IsAdmissible, run_sessions-run_registry}
use k8e.E2b.CrdState.Refused.{run_answered, promised, extend_refused}

unfoldable format : ℤ → String
format (pos n) = if ltb n 1_000_000_000 then "0" else if ltb n 2_000_000_000 then "1" else "2"
format (negsuc n) = "0"

unfoldable parse : String → Option ℤ
parse text =
    if str_eq text "0"
    then some (pos 0)
    else if str_eq text "1"
    then some (pos 1_000_000_000)
    else if str_eq text "2"
    then some (pos 2_000_000_000)
    else none

unfoldable seconds : ℤ → ℤ
seconds (pos n) = pos (n / 1_000_000_000 * 1_000_000_000)
seconds (negsuc n) = negsuc n

unfoldable InYears : ℤ → Type 0
InYears (pos n) = n < 3_000_000_000
InYears (negsuc n) = 1 ≤ 0

some_text : (t : ℤ) → InYears t → str_eq (format t) "" ≡ false
unfolding format InYears
some_text (pos n) year = elim (Bool-cases (ltb n 1_000_000_000)) [
  | inl zero_s ↦ rw (zero_s, format) refl
  | inr later ↦
      rw (later, format)
        (elim (Bool-cases (ltb n 2_000_000_000)) [
          | inl one_s ↦ rw one_s refl
          | inr two_s ↦ rw two_s refl
        ])
]
some_text (negsuc n) year = refl

parse-format : (t : ℤ) → InYears t → parse (format t) ≡ some (seconds t)
unfolding format parse seconds InYears
parse-format (pos n) year = elim (Bool-cases (ltb n 1_000_000_000)) [
  | inl zero_s ↦
      let down : 0 ≡ n / 1_000_000_000 * 1_000_000_000 = ground arith in
      rw (zero_s, format) (ap (λ k. some (pos k)) down)
  | inr not_zero ↦
      rw (not_zero, format)
        (elim (Bool-cases (ltb n 2_000_000_000)) [
          | inl one_s ↦
              let down : 1_000_000_000 ≡ n / 1_000_000_000 * 1_000_000_000 = ground arith in
              rw one_s (ap (λ k. some (pos k)) down)
          | inr two_s ↦
              let down : 2_000_000_000 ≡ n / 1_000_000_000 * 1_000_000_000 = ground arith in
              rw two_s (ap (λ k. some (pos k)) down)
        ])
]
parse-format (negsuc n) year = absurd (omega arith)

in_years : (t : ℤ) → InYears t → InYears (seconds t)
unfolding seconds InYears
in_years (pos n) year = omega arith
in_years (negsuc n) year = year

down : (t : ℤ) → seconds t ≤ℤ t
unfolding seconds
down (pos n) = omega arith
down (negsuc n) = omega arith

monotone : (t u : ℤ) → t ≤ℤ u → seconds t ≤ℤ seconds u
unfolding seconds
monotone (pos n) (pos m) h = omega arith
monotone (pos n) (negsuc m) h = absurd (omega arith)
monotone (negsuc n) (pos m) h = omega arith
monotone (negsuc n) (negsuc m) h = omega arith

again : (t : ℤ) → seconds (seconds t) ≡ seconds t
unfolding seconds
again (pos n) =
    let same : n / 1_000_000_000 * 1_000_000_000 / 1_000_000_000 * 1_000_000_000
        ≡ n / 1_000_000_000 * 1_000_000_000 =
      omega arith in
    ap pos same
again (negsuc n) = refl

rfc3339 : IsRfc3339 format parse seconds InYears
rfc3339 = record {
  some_text = some_text;
  parse-format = parse-format;
  keeps = in_years;
  down = down;
  monotone = monotone;
  again = again;
}

abbrev sandbox : Entry
sandbox = record {
  sandbox_id = "sb-1";
  deadline_at = some (pos 1_500_000_000);
  on_deadline = "pause";
  created_at = some (pos 700_000_000);
  metadata = ("name", "build") ∷ [];
  runtime_name = "kata";
  paused_by_user = false;
}

-- Two sessions, without bookkeeping.
abbrev sessions : CrdStore
sessions = record {
  sessions =
      ("sb-1", record { state = none; name_index = none })
      ∷ ("sb-2", record { state = none; name_index = none })
      ∷ [];
  by_name = [];
}

abbrev operations : List StateOperation
operations =
    puts sandbox
    ∷ extends "sb-1" 900_000_000 (pos 1)
    ∷ marks "sb-1" true
    ∷ extends "sb-2" 900_000_000 (pos 1)
    ∷ deletes "sb-2"
    ∷ []

operations-IsAdmissible : All (IsAdmissible format parse seconds InYears sessions) operations
unfolding IsAdmissible AreYears InYears has wrap64 ◌+ℤ◌ ◌*ℤ◌
operations-IsAdmissible =
    ((refl, ground arith, ground arith), (ground arith, (tt, (ground arith, (tt, tt)))))

abbrev extended : Entry
extended = record sandbox { deadline_at = some (pos 1_900_000_000); paused_by_user = true }

run_sessions-run_registry_example :
    let after = run_sessions format parse operations sessions in
    (get format parse served "sb-1" after ≡ some (rounded seconds extended))
    × (deadline_of format parse served "sb-1" after ≡ to_seconds seconds extended.deadline_at)
    × (is_paused format parse served "sb-1" after
        ≡ Registry.is_paused (run_registry operations new_registry) "sb-1")
unfolding run_registry Registry.get lookup Registry.del remove Registry.extend_deadline
    Registry.mark_paused Registry.put insert ◌+ℤ◌ wrap64 ◌*ℤ◌
run_sessions-run_registry_example =
    run_sessions-run_registry format parse seconds InYears rfc3339 operations sessions "sb-1"
      extended operations-IsAdmissible refl

abbrev conflict : ApiAnswers
conflict = record { gets = true; updates = false; lists = true }

abbrev stored : CrdStore
stored = record {
  sessions =
      (
        "sb-1",
        record {
          state = some (
              some (record {
                deadline_at = "1";
                on_deadline = "pause";
                created_at = "0";
                metadata = [];
                runtime_name = "kata";
                paused_by_user = false;
              }));
          name_index = none;
        },
      )
      ∷ [];
  by_name = [];
}

-- Two operations that are refused, and then an extension.
abbrev refused_operations : List (ApiAnswers × StateOperation)
refused_operations = (conflict, marks "sb-1" true) ∷ (conflict, deletes "sb-1") ∷ []

abbrev read : Entry
read = record sandbox {
  deadline_at = some (pos 1_000_000_000);
  created_at = some (pos 0);
  metadata = [];
}

extend_refused_example :
    let r =
      extend_deadline format parse conflict "sb-1" 900_000_000
        (pos 1)
        (run_answered format parse refused_operations stored) in
    (r.1 ≡ some (pos 1_900_000_000)) × (get format parse served "sb-1" r.0 ≡ some read)
unfolding lookup get CrdState.get_session parse ◌+ℤ◌ wrap64 ◌*ℤ◌ promised Registry.later
extend_refused_example =
    extend_refused format parse refused_operations conflict served "sb-1" 900_000_000 (pos 1) stored
      (refl, (refl, tt)) refl
