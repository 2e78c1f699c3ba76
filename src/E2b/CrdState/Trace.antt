-- ===== src/E2b/CrdState/Trace.antt =====
-- Histories of operations on the CRD-backed store and on the in-memory registry.
use k8e.Common.{
  String, ◌≡◌, refl, sym, ap, ◌∙◌, inl, inr, true, Option, none, some, List, [], ◌∷◌, str_eq,
  Bool-cases, All,
}
use mathlib.Core.Option.{none-ne-some}
use k8e.Common.Int.{ℤ}
use k8e.Common.Assoc.{lookup, has, lookup-insert, lookup-remove}
use k8e.E2b.Registry
use k8e.E2b.Registry.{Entry, Registry, new_registry, candidate, later, modify}
use k8e.E2b.CrdState
use k8e.E2b.CrdState.{
  E2bState, Annotations, CrdStore, ApiAnswers, get_session, write_found, write_state, found,
  is_after, entry, state, get, extend_found, change_found, del_found,
}
use k8e.E2b.CrdState.Refine.{served, IsRfc3339, to_seconds, AreYears, rounded, entry-state}
use k8e.E2b.CrdState.Extensions.{extend-Agrees}
use k8e.E2b.CrdState.Operations.{
  StateOperation, puts, extends, clears, marks, deletes, on_registry, on_sessions, run_registry,
  run_sessions, lookup-del, has-del, has-on_sessions,
}
use k8e.E2b.CrdState.Agreement.{Agrees, write_lem, modify-Agrees, clear-IsUniform, mark-IsUniform}

module _ (format : ℤ → String) (parse : String → Option ℤ) (seconds : ℤ → ℤ)
    (InYears : ℤ → Type 0) where
  -- When an operation may be made: a put has a session and times of a year from 0 to 9999, and the
  -- deadline that an extension asks for is such a time.
  unfoldable pub IsAdmissible : CrdStore → StateOperation → Type 0
  IsAdmissible s (puts e) =
      (has e.sandbox_id s.sessions ≡ true)
      × AreYears InYears e.deadline_at
      × AreYears InYears e.created_at
  IsAdmissible s (extends id now timeout) = InYears (candidate now timeout)
  IsAdmissible s (clears id) = Unit
  IsAdmissible s (marks id paused) = Unit
  IsAdmissible s (deletes id) = Unit

  abbrev Agreed : Registry → CrdStore → Type 0
  Agreed r s = Agrees format parse seconds InYears r s

  module _ (law : IsRfc3339 format parse seconds InYears) where
    put-Agrees :
        (e : Entry) (r : Registry) (s : CrdStore)
        → IsAdmissible s (puts e)
        → Agreed r s
        → Agreed (Registry.put r e) (CrdState.put format parse served e s)
    unfolding IsAdmissible Registry.put CrdState.put
    put-Agrees e r s (there, years_d, years_c) a =
        write_lem format parse seconds InYears law e.sandbox_id e e r (Registry.put r e) s
          (λ j. lookup-insert e.sandbox_id j e r.by_id) there refl years_d years_c
          (entry-state format parse seconds InYears law e years_d years_c) a

    del-Agrees :
        (id : String) (r : Registry) (s : CrdStore)
        → Agreed r s
        → Agreed (Registry.del r id) (CrdState.del served id s)
    unfolding Registry.del Agrees get get_session
    del-Agrees id r s a j e h =
        let rest = lookup-remove id j r.by_id in
        elim (Bool-cases (str_eq id j)) [
          | inl same ↦ absurd (none-ne-some e (sym (rw same at rest) ∙ h))
          | inr other ↦
              let old = a j e (sym (rw other at rest) ∙ h) in
              record {
                named = old.named;
                deadline_years = old.deadline_years;
                created_years = old.created_years;
                session = has-del format parse seconds InYears law id j s old.session;
                held =
                    ap (found format parse j)
                      (lookup-del format parse seconds InYears law id j s other)
                    ∙ old.held;
              }
        ]

    operation-Agrees :
        (o : StateOperation) (r : Registry) (s : CrdStore)
        → IsAdmissible s o
        → Agreed r s
        → Agreed (on_registry o r) (on_sessions format parse o s)
    unfolding on_registry on_sessions IsAdmissible Registry.clear_deadline CrdState.clear_deadline
        Registry.mark_paused CrdState.mark_paused
    operation-Agrees (puts e) r s ok a = put-Agrees e r s ok a
    operation-Agrees (extends id now timeout) r s ok a =
        extend-Agrees format parse seconds InYears law id now timeout r s ok a
    operation-Agrees (clears id) r s ok a =
        modify-Agrees format parse seconds InYears law (λ e. record e { deadline_at = none }) id r s
          (clear-IsUniform format parse seconds InYears law) a
    operation-Agrees (marks id paused) r s ok a =
        modify-Agrees format parse seconds InYears law (λ e. record e { paused_by_user = paused })
          id r s (mark-IsUniform format parse seconds InYears law paused) a
    operation-Agrees (deletes id) r s ok a = del-Agrees id r s a

    still-IsAdmissible :
        (o p : StateOperation) (s : CrdStore)
        → IsAdmissible s o
        → IsAdmissible (on_sessions format parse p s) o
    unfolding IsAdmissible
    still-IsAdmissible (puts e) p s (there, years_d, years_c) =
        (has-on_sessions format parse seconds InYears law p e.sandbox_id s there, years_d, years_c)
    still-IsAdmissible (extends id now timeout) p s ok = ok
    still-IsAdmissible (clears id) p s ok = ok
    still-IsAdmissible (marks id paused) p s ok = ok
    still-IsAdmissible (deletes id) p s ok = ok

    All-IsAdmissible :
        (os : List StateOperation) (p : StateOperation) (s : CrdStore)
        → All (IsAdmissible s) os
        → All (IsAdmissible (on_sessions format parse p s)) os
    All-IsAdmissible [] p s ok = ok
    All-IsAdmissible (o ∷ os) p s (here, ok) =
        (still-IsAdmissible o p s here, All-IsAdmissible os p s ok)

    run-Agrees :
        (os : List StateOperation) (r : Registry) (s : CrdStore)
        → All (IsAdmissible s) os
        → Agreed r s
        → Agreed (run_registry os r) (run_sessions format parse os s)
    unfolding run_registry run_sessions
    run-Agrees [] r s ok a = a
    run-Agrees (o ∷ os) r s (here, ok) a =
        run-Agrees os (on_registry o r) (on_sessions format parse o s) (All-IsAdmissible os o s ok)
          (operation-Agrees o r s here a)

    -- The CRD-backed store refines the registry: after a history of operations from an empty registry,
    -- any sessions at the start, with every call of the API server served, sessions for the sandboxes
    -- that are put and times of the years 0 to 9999, a sandbox that the registry has is read from its
    -- session with the same fields and its times in whole seconds; so are its deadline and its pause mark.
    pub run_sessions-run_registry :
        (os : List StateOperation) (s : CrdStore) (id : String) (e : Entry)
        → All (IsAdmissible s) os
        → Registry.get (run_registry os new_registry) id ≡ some e
        → let after = run_sessions format parse os s in
          (get format parse served id after ≡ some (rounded seconds e))
          × (CrdState.deadline_of format parse served id after ≡ to_seconds seconds e.deadline_at)
          × (CrdState.is_paused format parse served id after
              ≡ Registry.is_paused (run_registry os new_registry) id)
    unfolding Agrees lookup Registry.get CrdState.deadline_of CrdState.is_paused Registry.is_paused
        rounded
    run_sessions-run_registry os s id e ok known =
        let h =
          run-Agrees os new_registry s ok (λ j x empty. absurd (none-ne-some x empty)) id e known in
        (
          h.held,
          rw (h.held, CrdState.deadline_of) refl,
          rw (h.held, known, CrdState.is_paused, Registry.is_paused) refl,
        )
