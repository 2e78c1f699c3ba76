-- ===== src/E2b/CrdState/Operations.antt =====
-- Histories of operations of the interface StateStore (state_store.go). None takes a session away.
use k8e.Common.{
  ℕ, String, ◌≡◌, refl, ◌∙◌, inl, inr, Bool, true, false, Option, none, some, List, [], ◌∷◌, arith,
  str_eq, Bool-cases, Option-cases,
}
use k8e.Common.Int.{ℤ}
use k8e.Common.Assoc.{lookup, has, lookup-insert, has-insert}
use k8e.E2b.Registry
use k8e.E2b.Registry.{Entry, Registry, new_registry, candidate, later, modify}
use k8e.E2b.CrdState
use k8e.E2b.CrdState.{
  E2bState, Annotations, CrdStore, ApiAnswers, get_session, write_found, write_state, found,
  is_after, entry, state, get, extend_found, change_found, del_found,
}
use k8e.E2b.CrdState.Refine.{served, IsRfc3339, has-write_state}

-- An operation of the interface StateStore.
pub data StateOperation : Type 0 where
  puts : Entry → StateOperation
  extends : String → ℕ → ℤ → StateOperation
  clears : String → StateOperation
  marks : String → Bool → StateOperation
  deletes : String → StateOperation

unfoldable pub on_registry : StateOperation → Registry → Registry
on_registry (puts e) r = Registry.put r e
on_registry (extends id now timeout) r = (Registry.extend_deadline r id now timeout).0
on_registry (clears id) r = Registry.clear_deadline r id
on_registry (marks id paused) r = Registry.mark_paused r id paused
on_registry (deletes id) r = Registry.del r id

module _ (format : ℤ → String) (parse : String → Option ℤ) where
  unfoldable pub on_sessions : StateOperation → CrdStore → CrdStore
  on_sessions (puts e) s = CrdState.put format parse served e s
  on_sessions (extends id now timeout) s =
      (CrdState.extend_deadline format parse served id now timeout s).0
  on_sessions (clears id) s = CrdState.clear_deadline format parse served id s
  on_sessions (marks id paused) s = CrdState.mark_paused format parse served id paused s
  on_sessions (deletes id) s = CrdState.del served id s

  unfoldable pub run_sessions : List StateOperation → CrdStore → CrdStore
  unfolding on_sessions
  run_sessions [] s = s
  run_sessions (o ∷ os) s = run_sessions os (on_sessions o s)

unfoldable pub run_registry : List StateOperation → Registry → Registry
unfolding on_registry
run_registry [] r = r
run_registry (o ∷ os) r = run_registry os (on_registry o r)

module _ (format : ℤ → String) (parse : String → Option ℤ) (seconds : ℤ → ℤ)
    (InYears : ℤ → Type 0) where
  module _ (law : IsRfc3339 format parse seconds InYears) where
    pub lookup-del :
        (id j : String) (s : CrdStore)
        → str_eq id j ≡ false
        → lookup j (CrdState.del served id s).sessions ≡ lookup j s.sessions
    unfolding CrdState.del del_found get_session
    lookup-del id j s other = elim (Option-cases (lookup id s.sessions)) [
      | inl gone ↦ rw (gone, CrdState.del, del_found, get_session) refl
      | inr (ann, stored) ↦
          let cleared : Annotations = record { state = none; name_index = none } in
          rw (stored, CrdState.del, del_found, get_session)
            (lookup-insert id j cleared s.sessions ∙ rw other refl)
    ]

    pub has-del :
        (id j : String) (s : CrdStore)
        → has j s.sessions ≡ true
        → has j (CrdState.del served id s).sessions ≡ true
    unfolding CrdState.del del_found get_session
    has-del id j s there = elim (Option-cases (lookup id s.sessions)) [
      | inl gone ↦ rw (gone, CrdState.del, del_found, get_session) there
      | inr (ann, stored) ↦
          let cleared : Annotations = record { state = none; name_index = none } in
          rw (stored, CrdState.del, del_found, get_session)
            (has-insert id j cleared s.sessions ∙ ground (arith, there))
    ]

    has-change_found :
        (f : Entry → Entry) (id j : String) (o : Option Entry) (s : CrdStore)
        → has j s.sessions ≡ true
        → has j (change_found format parse served id f s o).sessions ≡ true
    unfolding change_found
    has-change_found f id j none s there = there
    has-change_found f id j (some e) s there =
        has-write_state format parse seconds InYears law id j (state format parse (f e)) s there

    has-extend_found :
        (id j : String) (t : ℤ) (o : Option Entry) (s : CrdStore)
        → has j s.sessions ≡ true
        → has j (extend_found format parse served id t s o).0.sessions ≡ true
    unfolding extend_found
    has-extend_found id j t none s there = there
    has-extend_found id j t (some e) s there =
        let moved : Entry = record e { deadline_at = some t } in
        elim (Bool-cases (is_after t e.deadline_at)) [
          | inl after ↦
              rw (after, extend_found)
                (has-write_state format parse seconds InYears law id j (state format parse moved) s
                  there)
          | inr not_after ↦ rw (not_after, extend_found) there
        ]

    -- No operation takes a session away.
    pub has-on_sessions :
        (o : StateOperation) (j : String) (s : CrdStore)
        → has j s.sessions ≡ true
        → has j (on_sessions format parse o s).sessions ≡ true
    unfolding on_sessions CrdState.put CrdState.extend_deadline CrdState.clear_deadline
        CrdState.mark_paused
    has-on_sessions (puts e) j s there =
        has-write_state format parse seconds InYears law e.sandbox_id j (state format parse e) s
          there
    has-on_sessions (extends id now timeout) j s there =
        has-extend_found id j (candidate now timeout) (get format parse served id s) s there
    has-on_sessions (clears id) j s there =
        has-change_found (λ e. record e { deadline_at = none }) id j (get format parse served id s)
          s there
    has-on_sessions (marks id paused) j s there =
        has-change_found (λ e. record e { paused_by_user = paused }) id j
          (get format parse served id s) s there
    has-on_sessions (deletes id) j s there = has-del id j s there
