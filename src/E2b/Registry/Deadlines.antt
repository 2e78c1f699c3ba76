-- ===== src/E2b/Registry/Deadlines.antt =====
-- Deadlines: gcExpired ends the sandboxes that are due and no other.
use k8e.Common.{
  ℕ, String, ◌≡◌, sym, ap, ◌∙◌, ◌≢◌, ◌⊎◌, inl, inr, true, false, Option, none, some, arith, str_eq,
  eq_iff, if◌then◌else◌, Bool-cases, Option-cases,
}
use k8e.Common.Int.{ℤ, pos, ◌≤ℤ◌, ◌<ℤ◌, leb_ℤ}
use mathlib.Core.Bool.{true≢false}
use mathlib.Core.Path.{subst}
use k8e.E2b.Registry.{Entry, Registry, Gateway, get, is_due, gc_expired, ids}
use k8e.E2b.Registry.Pass.{verdict, judged, contains-keys}

-- What is to become of a registered sandbox at a time: it is left alone while its deadline is not set
-- or still to come; from its deadline on it is paused if that is asked for and the gateway can, and
-- otherwise it is removed once the gateway has destroyed it.
pub data Fate (gw : Gateway) (now : ℕ) (j : String) (e : Entry) : Option Entry → Type 0 where
  not_set : e.deadline_at ≡ none → Fate gw now j e (some e)
  to_come : (d : ℤ) → e.deadline_at ≡ some d → pos now <ℤ d → Fate gw now j e (some e)
  pauses :
      (d : ℤ)
      → e.deadline_at ≡ some d
      → d ≤ℤ pos now
      → e.on_deadline ≡ "pause"
      → gw.pauses j ≡ true
      → Fate gw now j e (some (record e { paused_by_user = true }))
  dies :
      (d : ℤ)
      → e.deadline_at ≡ some d
      → d ≤ℤ pos now
      → (e.on_deadline ≢ "pause") ⊎ (gw.pauses j ≡ false)
      → gw.destroys j ≡ true
      → Fate gw now j e none
  survives :
      (d : ℤ)
      → e.deadline_at ≡ some d
      → d ≤ℤ pos now
      → (e.on_deadline ≢ "pause") ⊎ (gw.pauses j ≡ false)
      → gw.destroys j ≡ false
      → Fate gw now j e (some e)

-- A sandbox whose deadline has come and that is not to be paused or cannot be.
end-Fate :
    (gw : Gateway) (now : ℕ) (j : String) (e : Entry) (d : ℤ)
    → e.deadline_at ≡ some d
    → d ≤ℤ pos now
    → (e.on_deadline ≢ "pause") ⊎ (gw.pauses j ≡ false)
    → Fate gw now j e (if gw.destroys j then none else some e)
end-Fate gw now j e d set reached kill = elim (Bool-cases (gw.destroys j)) [
  | inl done ↦ rw done (dies d set reached kill done)
  | inr fails ↦ rw fails (survives d set reached kill fails)
]

due_lem :
    (now : ℕ) (e : Entry) (o : Option ℤ)
    → e.deadline_at ≡ o
    → is_due now e ≡ elim o [ none ↦ false | some d ↦ leb_ℤ d (pos now) ]
unfolding is_due
due_lem now e o set = ap (λ o. elim o [ none ↦ false | some d ↦ leb_ℤ d (pos now) ]) set

verdict_as :
    (gw : Gateway) (now : ℕ) (j : String) (e : Entry) (o : Option Entry)
    → verdict gw now j e ≡ o
    → Fate gw now j e o
    → Fate gw now j e (verdict gw now j e)
verdict_as gw now j e o same fate = subst (Fate gw now j e) (sym same) fate

verdict-Fate :
    (gw : Gateway) (now : ℕ) (j : String) (e : Entry) → Fate gw now j e (verdict gw now j e)
unfolding verdict
verdict-Fate gw now j e = elim (Option-cases e.deadline_at) [
  | inl never ↦
      verdict_as gw now j e (some e) (ground (arith, due_lem now e none never)) (not_set never)
  | inr (d, set) ↦
      let due = due_lem now e (some d) set in
      elim (Bool-cases (leb_ℤ d (pos now))) [
        | inr before ↦
            verdict_as gw now j e (some e) (ground (arith, due, before))
              (to_come d set (ground arith))
        | inl reached ↦
            let come : d ≤ℤ pos now = ground arith in
            let ends = end-Fate gw now j e d set come in
            elim (Bool-cases (str_eq e.on_deadline "pause")) [
              | inr kill ↦
                  verdict_as gw now j e (if gw.destroys j then none else some e)
                    (ground (arith, due, reached, kill))
                    (ends (
                      inl
                        (λ same. true≢false (sym ((eq_iff e.on_deadline "pause").1 same) ∙ kill))))
              | inl pause ↦ elim (Bool-cases (gw.pauses j)) [
                | inl can ↦
                    verdict_as gw now j e (some (record e { paused_by_user = true }))
                      (ground (arith, due, reached, pause, can))
                      (pauses d set come ((eq_iff e.on_deadline "pause").0 pause) can)
                | inr cannot ↦
                    verdict_as gw now j e (if gw.destroys j then none else some e)
                      (ground (arith, due, reached, pause, cannot)) (ends (inr cannot))
              ]
            ]
      ]
]

-- After a pass of gcExpired a registered sandbox has the fate that its deadline decides: left as it
-- was while the deadline is not set or still to come; from then on paused, removed, or, when the
-- gateway fails to destroy it, left as it was.
pub gc_expired_lem :
    (gw : Gateway) (now : ℕ) (r : Registry) (j : String) (e : Entry)
    → get r j ≡ some e
    → Fate gw now j e (get (gc_expired gw now r) j)
unfolding gc_expired
gc_expired_lem gw now r j e h =
    subst (Fate gw now j e)
      (sym (judged gw now (ids r) r j e (unfold get in contains-keys r.by_id j e h) h))
      (verdict-Fate gw now j e)
