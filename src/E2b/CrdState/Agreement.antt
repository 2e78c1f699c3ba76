-- ===== src/E2b/CrdState/Agreement.antt =====
-- The CRD-backed store agrees with the in-memory registry: what an operation on one sandbox keeps.
use k8e.Common.{
  String, ◌≡◌, refl, sym, ap, ◌∙◌, inl, inr, Bool, true, Option, none, some, str_eq, eq_iff,
  if◌then◌else◌, Bool-cases, Option-cases,
}
use mathlib.Core.Option.{some-injective, none-ne-some}
use mathlib.Core.Path.{subst}
use text.Mathlib.TextPositions.{eq_refl as text_refl}
use k8e.Common.Int.{ℤ}
use k8e.Common.Assoc.{lookup, has, lookup-insert, lookup-has}
use k8e.E2b.Registry.{Entry, Registry, modify}
use k8e.E2b.CrdState.{
  E2bState, CrdStore, get_session, write_found, write_state, entry, state, get, change_found,
}
use k8e.E2b.CrdState.Refine.{
  served, IsRfc3339, to_seconds, AreYears, rounded, entry-state, get-write_state, has-write_state,
  to_seconds_again, to_seconds-AreYears,
}

module _ (format : ℤ → String) (parse : String → Option ℤ) (seconds : ℤ → ℤ)
    (InYears : ℤ → Type 0) where
  -- An entry of the registry is read from the session, with its times in whole seconds.
  pub record IsHeld (s : CrdStore) (id : String) (e : Entry) : Type 0 where
    pub named : e.sandbox_id ≡ id
    pub deadline_years : AreYears InYears e.deadline_at
    pub created_years : AreYears InYears e.created_at
    pub session : has id s.sessions ≡ true
    pub held : get format parse served id s ≡ some (rounded seconds e)

  unfoldable pub Agrees : Registry → CrdStore → Type 0
  Agrees r s = (id : String) (e : Entry) → lookup id r.by_id ≡ some e → IsHeld s id e

  -- What an operation has done to both: an entry under one name, nothing else.
  pub record IsChange (id : String) (e : Entry) (r r' : Registry) (s s' : CrdStore) : Type 0 where
    pub in_registry :
        (j : String) → lookup j r'.by_id ≡ (if str_eq id j then some e else lookup j r.by_id)
    pub in_sessions :
        (j : String)
        → get format parse served j s'
          ≡ (if str_eq id j then some (rounded seconds e) else get format parse served j s)
    pub kept : (j : String) → has j s.sessions ≡ true → has j s'.sessions ≡ true
    pub there : has id s.sessions ≡ true
    pub named : e.sandbox_id ≡ id
    pub deadline_years : AreYears InYears e.deadline_at
    pub created_years : AreYears InYears e.created_at

  pub change-Agrees :
      (id : String) (e : Entry) (r r' : Registry) (s s' : CrdStore)
      → IsChange id e r r' s s'
      → Agrees r s
      → Agrees r' s'
  unfolding Agrees
  change-Agrees id e r r' s s' c a j x h = elim (Bool-cases (str_eq id j)) [
    | inl same ↦
        let reg = c.in_registry j in
        let is_e = some-injective e x (sym (rw same at reg) ∙ h) in
        subst (λ k. IsHeld s' k x) ((eq_iff id j).0 same)
          (subst (IsHeld s' id) is_e (record {
            named = c.named;
            deadline_years = c.deadline_years;
            created_years = c.created_years;
            session = c.kept id c.there;
            held = c.in_sessions id ∙ rw (text_refl id) refl;
          }))
    | inr other ↦
        let reg = c.in_registry j in
        let old = a j x (sym (rw other at reg) ∙ h) in
        record {
          named = old.named;
          deadline_years = old.deadline_years;
          created_years = old.created_years;
          session = c.kept j old.session;
          held = c.in_sessions j ∙ rw other old.held;
        }
  ]

  module _ (law : IsRfc3339 format parse seconds InYears) where
    pub write_lem :
        (id : String) (e x : Entry) (r r' : Registry) (s : CrdStore)
        → ((j : String) → lookup j r'.by_id ≡ (if str_eq id j then some e else lookup j r.by_id))
        → has id s.sessions ≡ true
        → e.sandbox_id ≡ id
        → AreYears InYears e.deadline_at
        → AreYears InYears e.created_at
        → entry format parse id (state format parse x) ≡ rounded seconds e
        → Agrees r s
        → Agrees r' (write_state served id (state format parse x) s).0
    write_lem id e x r r' s reg there named years_d years_c reads a =
        change-Agrees id e r r' s (write_state served id (state format parse x) s).0
          (record {
            in_registry = reg;
            in_sessions = λ j.
                get-write_state format parse seconds InYears law id j (state format parse x) s there
                ∙ ap (λ y. if str_eq id j then some y else get format parse served j s) reads;
            kept =
                λ j. has-write_state format parse seconds InYears law id j (state format parse x) s;
            there = there;
            named = named;
            deadline_years = years_d;
            created_years = years_c;
          })
          a

    pub modify_lem :
        (f : Entry → Entry) (r : Registry) (id j : String) (e : Entry)
        → lookup id r.by_id ≡ some e
        → lookup j (modify f r id).by_id ≡ (if str_eq id j then some (f e) else lookup j r.by_id)
    unfolding modify
    modify_lem f r id j e h = rw (h, modify) (lookup-insert id j (f e) r.by_id)

    pub modify-none :
        (f : Entry → Entry) (r : Registry) (id : String)
        → lookup id r.by_id ≡ none
        → modify f r id ≡ r
    unfolding modify
    modify-none f r id h = rw (h, modify) refl

    -- A write for a sandbox that the registry does not know.
    pub unknown_lem :
        (id : String) (st : E2bState) (r : Registry) (s : CrdStore)
        → lookup id r.by_id ≡ none
        → Agrees r s
        → Agrees r (write_state served id st s).0
    unfolding Agrees write_state get_session write_found
    unknown_lem id st r s unknown a = elim (Option-cases (lookup id s.sessions)) [
      | inl gone ↦ rw (gone, write_state, get_session, write_found) a
      | inr (ann, stored) ↦ λ j e h. elim (Bool-cases (str_eq id j)) [
        | inl same ↦
            absurd
              (none-ne-some e (sym unknown ∙ ap (λ k. lookup k r.by_id) ((eq_iff id j).0 same) ∙ h))
        | inr other ↦
            let old = a j e h in
            let read =
              get-write_state format parse seconds InYears law id j st s
                (lookup-has id ann s.sessions stored) in
            record {
              named = old.named;
              deadline_years = old.deadline_years;
              created_years = old.created_years;
              session = has-write_state format parse seconds InYears law id j st s old.session;
              held = rw other at read ∙ old.held;
            }
      ]
    ]

    change_unknown :
        (f : Entry → Entry) (id : String) (o : Option Entry) (r : Registry) (s : CrdStore)
        → lookup id r.by_id ≡ none
        → Agrees r s
        → Agrees r (change_found format parse served id f s o)
    unfolding change_found
    change_unknown f id none r s unknown a = a
    change_unknown f id (some x) r s unknown a =
        unknown_lem id (state format parse (f x)) r s unknown a

    -- A change that does the same to an entry and to what its session holds of it.
    pub record IsUniform (f : Entry → Entry) : Type 0 where
      pub named : (e : Entry) → (f e).sandbox_id ≡ e.sandbox_id
      pub deadline_years :
          (e : Entry) → AreYears InYears e.deadline_at → AreYears InYears (f e).deadline_at
      pub created_years :
          (e : Entry) → AreYears InYears e.created_at → AreYears InYears (f e).created_at
      pub same : (e : Entry) → rounded seconds (f (rounded seconds e)) ≡ rounded seconds (f e)

    pub modify-Agrees :
        (f : Entry → Entry) (id : String) (r : Registry) (s : CrdStore)
        → IsUniform f
        → Agrees r s
        → Agrees
            (modify f r id)
            (change_found format parse served id f s (get format parse served id s))
    unfolding Agrees change_found rounded
    modify-Agrees f id r s u a = elim (Option-cases (lookup id r.by_id)) [
      | inl unknown ↦
          rw (modify-none f r id unknown)
            (change_unknown f id (get format parse served id s) r s unknown a)
      | inr (e, known) ↦
          let h = a id e known in
          let x = f (rounded seconds e) in
          let named = u.named (rounded seconds e) ∙ h.named in
          rw (h.held, change_found)
            (write_lem id (f e) x r (modify f r id) s (λ j. modify_lem f r id j e known) h.session
              (u.named e ∙ h.named) (u.deadline_years e h.deadline_years)
              (u.created_years e h.created_years)
              (ap (λ i. entry format parse i (state format parse x)) (sym named)
                ∙ entry-state format parse seconds InYears law x
                    (u.deadline_years (rounded seconds e) (
                      to_seconds-AreYears format parse seconds InYears law e.deadline_at
                        h.deadline_years))
                    (u.created_years (rounded seconds e) (
                      to_seconds-AreYears format parse seconds InYears law e.created_at
                        h.created_years))
                ∙ u.same e)
              a)
    ]

    pub clear-IsUniform : IsUniform (λ e. record e { deadline_at = none })
    unfolding rounded to_seconds AreYears
    clear-IsUniform = record {
      named = λ e. refl;
      deadline_years = λ e years. tt;
      created_years = λ e years. years;
      same = λ e.
          ap (λ c. record e { deadline_at = none; created_at = c })
            (to_seconds_again format parse seconds InYears law e.created_at);
    }

    pub mark-IsUniform : (paused : Bool) → IsUniform (λ e. record e { paused_by_user = paused })
    unfolding rounded to_seconds AreYears
    mark-IsUniform paused = record {
      named = λ e. refl;
      deadline_years = λ e years. years;
      created_years = λ e years. years;
      same = λ e.
          ap
            (λ d. record e {
              deadline_at = d;
              created_at = to_seconds seconds (to_seconds seconds e.created_at);
              paused_by_user = paused;
            })
            (to_seconds_again format parse seconds InYears law e.deadline_at)
          ∙ ap
              (λ c. record e {
                deadline_at = to_seconds seconds e.deadline_at;
                created_at = c;
                paused_by_user = paused;
              })
              (to_seconds_again format parse seconds InYears law e.created_at);
    }
