-- ===== src/E2b/CrdState/Refine.antt =====
-- The CRD-backed store and the in-memory registry side by side: what one operation does to both.
use k8e.Common.{
  String, ◌≡◌, refl, ap, ◌∙◌, inl, inr, Bool, true, false, Option, none, some, arith, str_eq,
  eq_iff, if◌then◌else◌, Option-cases,
}
use k8e.Common.Int.{ℤ, ◌≤ℤ◌}
use k8e.Common.Assoc.{lookup, insert, has, lookup-insert, has-insert, has-lookup}
use k8e.E2b.Registry.{Entry}
use k8e.E2b.CrdState.{
  E2bState, Annotations, CrdStore, ApiAnswers, read_state, get_session, annotations_of, write_found,
  write_state, parse_rfc3339, time_text, entry, state, found, get,
}

-- Every call of the API server succeeds.
abbrev pub served : ApiAnswers
served = record { gets = true; updates = true; lists = true }

-- The times of a year from 0 to 9999 parse to what they are in whole seconds.
pub record IsRfc3339 (format : ℤ → String) (parse : String → Option ℤ) (seconds : ℤ → ℤ)
    (InYears : ℤ → Type 0) : Type 0 where
  pub some_text : (t : ℤ) → InYears t → str_eq (format t) "" ≡ false
  pub parse-format : (t : ℤ) → InYears t → parse (format t) ≡ some (seconds t)
  pub keeps : (t : ℤ) → InYears t → InYears (seconds t)
  pub down : (t : ℤ) → seconds t ≤ℤ t
  pub monotone : (t u : ℤ) → t ≤ℤ u → seconds t ≤ℤ seconds u
  pub again : (t : ℤ) → seconds (seconds t) ≡ seconds t

unfoldable pub to_seconds : (ℤ → ℤ) → Option ℤ → Option ℤ
to_seconds seconds none = none
to_seconds seconds (some t) = some (seconds t)

unfoldable pub AreYears : (ℤ → Type 0) → Option ℤ → Type 0
AreYears InYears none = Unit
AreYears InYears (some t) = InYears t

-- The entry with its times in whole seconds.
unfoldable pub rounded : (ℤ → ℤ) → Entry → Entry
unfolding to_seconds
rounded seconds e = record e {
  deadline_at = to_seconds seconds e.deadline_at;
  created_at = to_seconds seconds e.created_at;
}

module _ (format : ℤ → String) (parse : String → Option ℤ) (seconds : ℤ → ℤ) (InYears : ℤ → Type 0)
    (law : IsRfc3339 format parse seconds InYears) where
  parse-time_text :
      (o : Option ℤ)
      → AreYears InYears o
      → parse_rfc3339 format parse (time_text format parse o) ≡ to_seconds seconds o
  unfolding parse_rfc3339 time_text to_seconds AreYears
  parse-time_text none years = refl
  parse-time_text (some t) years =
      rw (law.some_text t years, parse_rfc3339) (law.parse-format t years)

  pub to_seconds_again :
      (o : Option ℤ) → to_seconds seconds (to_seconds seconds o) ≡ to_seconds seconds o
  unfolding to_seconds
  to_seconds_again none = refl
  to_seconds_again (some t) = ap some (law.again t)

  pub to_seconds-AreYears :
      (o : Option ℤ) → AreYears InYears o → AreYears InYears (to_seconds seconds o)
  unfolding to_seconds AreYears
  to_seconds-AreYears none years = years
  to_seconds-AreYears (some t) years = law.keeps t years

  pub entry-state :
      (e : Entry)
      → AreYears InYears e.deadline_at
      → AreYears InYears e.created_at
      → entry format parse e.sandbox_id (state format parse e) ≡ rounded seconds e
  unfolding entry state rounded
  entry-state e years_d years_c =
      ap
        (λ d. record e {
          deadline_at = d;
          created_at = parse_rfc3339 format parse (time_text format parse e.created_at);
        })
        (parse-time_text e.deadline_at years_d)
      ∙ ap (λ c. record e { deadline_at = to_seconds seconds e.deadline_at; created_at = c })
          (parse-time_text e.created_at years_c)

  found_lem :
      (id j : String) (b : Bool) (st : E2bState) (o : Option Annotations)
      → str_eq id j ≡ b
      → found format parse j (if b then some (annotations_of id st) else o)
        ≡ (if b then some (entry format parse id st) else found format parse j o)
  unfolding found entry read_state annotations_of
  found_lem id j true st o same = rw ((eq_iff id j).0 same) refl
  found_lem id j false st o other = refl

  -- What is read after a write to a session that is there.
  pub get-write_state :
      (id j : String) (st : E2bState) (s : CrdStore)
      → has id s.sessions ≡ true
      → get format parse served j (write_state served id st s).0
        ≡ (if str_eq id j then some (entry format parse id st) else get format parse served j s)
  unfolding get get_session write_state write_found found read_state annotations_of entry
  get-write_state id j st s there =
      let (ann, stored) = has-lookup id s.sessions there in
      let after = lookup-insert id j (annotations_of id st) s.sessions in
      let written : (write_state served id st s).0.sessions
          ≡ insert id (annotations_of id st) s.sessions =
        rw (stored, write_state, get_session, write_found) refl in
      (ap (λ m. found format parse j (lookup j m)) written
        ∙ ap (found format parse j) after
        ∙ found_lem id j (str_eq id j) st (lookup j s.sessions) refl)

  -- A session that is there stays.
  pub has-write_state :
      (id j : String) (st : E2bState) (s : CrdStore)
      → has j s.sessions ≡ true
      → has j (write_state served id st s).0.sessions ≡ true
  unfolding write_state get_session write_found
  has-write_state id j st s there = elim (Option-cases (lookup id s.sessions)) [
    | inl gone ↦ rw (gone, write_state, get_session, write_found) there
    | inr (ann, stored) ↦
        rw (stored, write_state, get_session, write_found)
          (has-insert id j (annotations_of id st) s.sessions ∙ ground (arith, there))
  ]
