-- ===== src/E2b/CrdState/Refused.antt =====
-- The operations of crd_state.go while the API server refuses the Updates.
use k8e.Common.{
  ℕ, String, ◌≡◌, refl, ap, ◌∙◌, inl, inr, true, false, Option, none, some, List, [], ◌∷◌, All,
  Bool-cases, Option-cases,
}
use k8e.Common.Int.{ℤ}
use k8e.E2b.Registry.{Entry, candidate, later}
use k8e.E2b.CrdState
use k8e.E2b.CrdState.{
  E2bState, Annotations, CrdStore, ApiAnswers, get_session, write_found, write_state, is_after,
  found, state, get, extend_found, extend_deadline, change_found, del_found,
}
use k8e.E2b.CrdState.Operations.{StateOperation, puts, extends, clears, marks, deletes}

write_refused :
    (a : ApiAnswers) (id : String) (st : E2bState) (s : CrdStore)
    → a.updates ≡ false
    → (write_state a id st s).0 ≡ s
unfolding write_state write_found
write_refused a id st s refused = elim (Option-cases (get_session a id s)) [
  | inl gone ↦ rw (gone, write_state, write_found) refl
  | inr (ann, there) ↦ ap (λ o. (write_found a id st s o).0) there ∙ rw refused refl
]

del_refused :
    (a : ApiAnswers) (id : String) (s : CrdStore) (o : Option Annotations)
    → a.updates ≡ false
    → (del_found a id s o).sessions ≡ s.sessions
unfolding del_found
del_refused a id s none refused = refl
del_refused a id s (some ann) refused = rw refused refl

told_after : (t : ℤ) (o : Option ℤ) → is_after t o ≡ true → some t ≡ some (later o t)
unfolding is_after later
told_after t none after = refl
told_after t (some d) after = ap some (rw (after, later) refl)

told_before : (t : ℤ) (o : Option ℤ) → is_after t o ≡ false → o ≡ some (later o t)
unfolding is_after later
told_before t none not_after = cc
told_before t (some d) not_after = ap some (rw (not_after, later) refl)

module _ (format : ℤ → String) (parse : String → Option ℤ) where
  -- An operation with what the API server answers to it.
  unfoldable pub answered : ApiAnswers → StateOperation → CrdStore → CrdStore
  answered a (puts e) s = CrdState.put format parse a e s
  answered a (extends id now timeout) s = (extend_deadline format parse a id now timeout s).0
  answered a (clears id) s = CrdState.clear_deadline format parse a id s
  answered a (marks id paused) s = CrdState.mark_paused format parse a id paused s
  answered a (deletes id) s = CrdState.del a id s

  unfoldable pub run_answered : List (ApiAnswers × StateOperation) → CrdStore → CrdStore
  unfolding answered
  run_answered [] s = s
  run_answered ((a, o) ∷ os) s = run_answered os (answered a o s)

  change_refused :
      (a : ApiAnswers) (id : String) (f : Entry → Entry) (s : CrdStore) (o : Option Entry)
      → a.updates ≡ false
      → (change_found format parse a id f s o).sessions ≡ s.sessions
  unfolding change_found
  change_refused a id f s none refused = refl
  change_refused a id f s (some e) refused =
      ap (λ s. s.sessions) (write_refused a id (state format parse (f e)) s refused)

  moved_refused :
      (a : ApiAnswers) (id : String) (t : ℤ) (s : CrdStore) (o : Option Entry)
      → a.updates ≡ false
      → (extend_found format parse a id t s o).0.sessions ≡ s.sessions
  unfolding extend_found
  moved_refused a id t s none refused = refl
  moved_refused a id t s (some e) refused =
      let moved : Entry = record e { deadline_at = some t } in
      elim (Bool-cases (is_after t e.deadline_at)) [
        | inl after ↦
            rw (after, extend_found)
              (ap (λ s. s.sessions) (write_refused a id (state format parse moved) s refused))
        | inr not_after ↦ rw (not_after, extend_found) refl
      ]

  answered_refused :
      (a : ApiAnswers) (o : StateOperation) (s : CrdStore)
      → a.updates ≡ false
      → (answered a o s).sessions ≡ s.sessions
  unfolding answered CrdState.put extend_deadline CrdState.clear_deadline CrdState.mark_paused
      CrdState.del
  answered_refused a (puts e) s refused =
      ap (λ s. s.sessions) (write_refused a e.sandbox_id (state format parse e) s refused)
  answered_refused a (extends id now timeout) s refused =
      moved_refused a id (candidate now timeout) s (get format parse a id s) refused
  answered_refused a (clears id) s refused =
      change_refused a id (λ e. record e { deadline_at = none }) s (get format parse a id s) refused
  answered_refused a (marks id paused) s refused =
      change_refused a id (λ e. record e { paused_by_user = paused }) s (get format parse a id s)
        refused
  answered_refused a (deletes id) s refused = del_refused a id s (get_session a id s) refused

  run_refused :
      (os : List (ApiAnswers × StateOperation)) (s : CrdStore)
      → All (λ o. o.0.updates ≡ false) os
      → (run_answered os s).sessions ≡ s.sessions
  unfolding run_answered
  run_refused [] s refused = refl
  run_refused ((a, o) ∷ os) s (first, refused) =
      run_refused os (answered a o s) refused ∙ answered_refused a o s first

  get-sessions :
      (a : ApiAnswers) (id : String) (s s' : CrdStore)
      → s'.sessions ≡ s.sessions
      → get format parse a id s' ≡ get format parse a id s
  unfolding get get_session
  get-sessions a id s s' same = ap (λ m. get format parse a id (record s { sessions = m })) same

  -- The deadline that the caller of an extension is told: of a sandbox that is known, the later one.
  unfoldable pub promised : Option Entry → ℤ → Option ℤ
  promised none t = none
  promised (some e) t = some (later e.deadline_at t)

  promised_lem :
      (a : ApiAnswers) (id : String) (t : ℤ) (s : CrdStore) (o : Option Entry)
      → (extend_found format parse a id t s o).1 ≡ promised o t
  unfolding extend_found promised
  promised_lem a id t s none = refl
  promised_lem a id t s (some e) = elim (Bool-cases (is_after t e.deadline_at)) [
    | inl after ↦ rw (after, extend_found) (told_after t e.deadline_at after)
    | inr not_after ↦ rw (not_after, extend_found) (told_before t e.deadline_at not_after)
  ]

  -- While the API server refuses the Updates, on conflicts or otherwise, no operation changes what is
  -- read of a sandbox, whatever has been put, extended, cleared, marked and deleted; but the caller of
  -- an extension is told the later deadline all the same, as if it were stored.
  pub extend_refused :
      (os : List (ApiAnswers × StateOperation)) (a b : ApiAnswers) (id : String) (now : ℕ)
      (timeout : ℤ) (s : CrdStore)
      → All (λ o. o.0.updates ≡ false) os
      → a.updates ≡ false
      → let r = extend_deadline format parse a id now timeout (run_answered os s) in
        (r.1 ≡ promised (get format parse a id s) (candidate now timeout))
        × (get format parse b id r.0 ≡ get format parse b id s)
  unfolding extend_deadline
  extend_refused os a b id now timeout s all refused =
      let s' = run_answered os s in
      let t = candidate now timeout in
      let before = run_refused os s all in
      (
        promised_lem a id t s' (get format parse a id s')
            ∙ ap (λ o. promised o t) (get-sessions a id s s' before),
        get-sessions b id s (extend_found format parse a id t s' (get format parse a id s')).0
            (moved_refused a id t s' (get format parse a id s') refused ∙ before),
      )
