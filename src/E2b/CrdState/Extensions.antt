-- ===== src/E2b/CrdState/Extensions.antt =====
-- extendDeadline of crd_state.go and of the registry.
use k8e.Common.{
  ℕ, String, ◌≡◌, refl, sym, ap, ◌∙◌, inl, inr, true, false, Option, none, some, arith, str_eq,
  eq_iff, Bool-cases, Option-cases,
}
use k8e.Common.Int.{ℤ, ◌≤ℤ◌, ltb_ℤ, eq_of_parts}
use k8e.Common.Assoc.{lookup}
use k8e.E2b.Registry
use k8e.E2b.Registry.{Entry, Registry, candidate, later, modify}
use k8e.E2b.CrdState
use k8e.E2b.CrdState.{
  E2bState, Annotations, CrdStore, ApiAnswers, get_session, write_found, write_state, is_after,
  entry, state, get, extend_found, change_found, del_found,
}
use k8e.E2b.CrdState.Refine.{
  served, IsRfc3339, to_seconds, AreYears, rounded, entry-state, to_seconds_again,
  to_seconds-AreYears,
}
use k8e.E2b.CrdState.Agreement.{
  IsHeld, Agrees, change-Agrees, write_lem, modify_lem, modify-none, unknown_lem,
}

module _ (format : ℤ → String) (parse : String → Option ℤ) (seconds : ℤ → ℤ)
    (InYears : ℤ → Type 0) where
  abbrev Agreed : Registry → CrdStore → Type 0
  Agreed r s = Agrees format parse seconds InYears r s

  module _ (law : IsRfc3339 format parse seconds InYears) where
    later_years : (o : Option ℤ) (t : ℤ) → AreYears InYears o → InYears t → InYears (later o t)
    unfolding later AreYears
    later_years none t years year = year
    later_years (some d) t years year = elim (Bool-cases (ltb_ℤ d t)) [
      | inl before ↦ rw (before, later) year
      | inr not_before ↦ rw (not_before, later) years
    ]

    -- A time after the deadline in whole seconds is the later one, up to a second.
    later_after :
        (o : Option ℤ) (t : ℤ)
        → is_after t (to_seconds seconds o) ≡ true
        → seconds (later o t) ≡ seconds t
    unfolding is_after to_seconds later
    later_after none t after = refl
    later_after (some d) t after = elim (Bool-cases (ltb_ℤ d t)) [
      | inl before ↦ rw (before, later) refl
      | inr not_before ↦
          let up : seconds t ≤ℤ seconds d = law.monotone t d (ground arith) in
          let again = law.monotone (seconds d) t (ground arith) in
          let down = rw (law.again d) at again in
          rw (not_before, later) (eq_of_parts (seconds d) (seconds t) (omega (arith, up, down)))
    ]

    later_not_after :
        (o : Option ℤ) (t : ℤ) → is_after t (to_seconds seconds o) ≡ false → some (later o t) ≡ o
    unfolding is_after to_seconds later
    later_not_after none t h = absurd (cc)
    later_not_after (some d) t h = elim (Bool-cases (ltb_ℤ d t)) [
      | inl before ↦ absurd (ground (arith, law.down d, before, h))
      | inr not_before ↦ rw (not_before, later) refl
    ]

    extended : ℤ → Entry → Entry
    unfolding later
    extended t e = record e { deadline_at = some (later e.deadline_at t) }

    -- The session holds the deadline that the registry keeps.
    unmoved_lem :
        (id : String) (t : ℤ) (e : Entry) (r : Registry) (s : CrdStore)
        → lookup id r.by_id ≡ some e
        → IsHeld format parse seconds InYears s id e
        → InYears t
        → some (later e.deadline_at t) ≡ e.deadline_at
        → Agreed r s
        → Agreed (modify (extended t) r id) s
    unfolding extended AreYears
    unmoved_lem id t e r s known h year same a =
        let unchanged : extended t e ≡ e = ap (λ d. record e { deadline_at = d }) same in
        change-Agrees format parse seconds InYears id (extended t e) r (modify (extended t) r id) s
          s
          (record {
            in_registry =
                λ j. modify_lem format parse seconds InYears law (extended t) r id j e known;
            in_sessions = λ j. elim (Bool-cases (str_eq id j)) [
              | inl here ↦
                  rw (here, unchanged)
                    (ap (λ k. get format parse served k s) (sym ((eq_iff id j).0 here)) ∙ h.held)
              | inr other ↦ rw other refl
            ];
            kept = λ j there. there;
            there = h.session;
            named = h.named;
            deadline_years = later_years e.deadline_at t h.deadline_years year;
            created_years = h.created_years;
          })
          a

    moved_lem :
        (id : String) (t : ℤ) (e : Entry) (r : Registry) (s : CrdStore)
        → lookup id r.by_id ≡ some e
        → IsHeld format parse seconds InYears s id e
        → InYears t
        → seconds (later e.deadline_at t) ≡ seconds t
        → Agreed r s
        → let x : Entry = record (rounded seconds e) { deadline_at = some t } in
          Agreed (modify (extended t) r id) (write_state served id (state format parse x) s).0
    unfolding extended rounded to_seconds AreYears
    moved_lem id t e r s known h year same a =
        let x : Entry = record (rounded seconds e) { deadline_at = some t } in
        write_lem format parse seconds InYears law id (extended t e) x r (modify (extended t) r id)
          s (λ j. modify_lem format parse seconds InYears law (extended t) r id j e known) h.session
          h.named (later_years e.deadline_at t h.deadline_years year) h.created_years
          (ap (λ i. entry format parse i (state format parse x)) (sym h.named)
            ∙ entry-state format parse seconds InYears law x year
                (to_seconds-AreYears format parse seconds InYears law e.created_at h.created_years)
            ∙ ap (λ c. record e { deadline_at = some (seconds t); created_at = c })
                (to_seconds_again format parse seconds InYears law e.created_at)
            ∙ ap
                (λ d. record e {
                  deadline_at = some d;
                  created_at = to_seconds seconds e.created_at;
                })
                (sym same))
          a

    extend_unknown :
        (id : String) (t : ℤ) (o : Option Entry) (r : Registry) (s : CrdStore)
        → lookup id r.by_id ≡ none
        → Agreed r s
        → Agreed r (extend_found format parse served id t s o).0
    unfolding extend_found
    extend_unknown id t none r s unknown a = a
    extend_unknown id t (some x) r s unknown a =
        let moved : Entry = record x { deadline_at = some t } in
        elim (Bool-cases (is_after t x.deadline_at)) [
          | inl after ↦
              rw (after, extend_found)
                (unknown_lem format parse seconds InYears law id (state format parse moved) r s
                  unknown a)
          | inr not_after ↦ rw (not_after, extend_found) a
        ]

    extend_known :
        (id : String) (t : ℤ) (e : Entry) (r : Registry) (s : CrdStore)
        → lookup id r.by_id ≡ some e
        → InYears t
        → Agreed r s
        → Agreed
            (modify (extended t) r id)
            (extend_found format parse served id t s (some (rounded seconds e))).0
    unfolding extend_found Agrees rounded
    extend_known id t e r s known year a =
        elim (Bool-cases (is_after t (to_seconds seconds e.deadline_at))) [
          | inl after ↦
              rw (after, extend_found)
                (moved_lem id t e r s known (a id e known) year (later_after e.deadline_at t after)
                  a)
          | inr not_after ↦
              rw (not_after, extend_found)
                (unmoved_lem id t e r s known (a id e known) year
                  (later_not_after e.deadline_at t not_after) a)
        ]

    pub extend-Agrees :
        (id : String) (now : ℕ) (timeout : ℤ) (r : Registry) (s : CrdStore)
        → InYears (candidate now timeout)
        → Agreed r s
        → Agreed
            (Registry.extend_deadline r id now timeout).0
            (CrdState.extend_deadline format parse served id now timeout s).0
    unfolding Registry.extend_deadline CrdState.extend_deadline extended Agrees
    extend-Agrees id now timeout r s year a = elim (Option-cases (lookup id r.by_id)) [
      | inl unknown ↦
          rw
            (modify-none format parse seconds InYears law (extended (candidate now timeout)) r id
              unknown)
            (extend_unknown id (candidate now timeout) (get format parse served id s) r s unknown a)
      | inr (e, known) ↦
          rw (a id e known).held (extend_known id (candidate now timeout) e r s known year a)
    ]
