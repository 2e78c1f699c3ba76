-- ===== src/E2b/Registry/Pass.antt =====
-- A pass of gcExpired over the registry: what it does to the entry of one sandbox.
use k8e.Common.{
  ℕ, String, ◌≡◌, sym, ◌∙◌, inl, inr, true, false, ◌&&◌, not, Option, none, some, List, [], ◌∷◌,
  map, arith, str_eq, eq_iff, if◌then◌else◌, Bool-cases, Option-cases,
}
use mathlib.Core.Path.{subst}
use text.Mathlib.TextPositions.{eq_refl as text_refl}
use k8e.Common.Assoc.{contains, lookup, lookup-insert, lookup-remove}
use k8e.E2b.Registry.{
  Entry, Registry, Gateway, get, is_due, del, gc_one, gc_ids, destroy, mark_paused, modify,
}

get-gc_one :
    (gw : Gateway) (now : ℕ) (r : Registry) (id j : String)
    → str_eq id j ≡ false
    → get (gc_one gw now r id) j ≡ get r j
unfolding get gc_one del
get-gc_one gw now r id j n = elim (Option-cases (lookup id r.by_id)) [
  | inl e ↦ rw (e, gc_one)
  | inr (e, h) ↦
      rw (h, gc_one)
        (ground (
          arith,
          lookup-remove id j r.by_id,
          lookup-insert id j (record e { paused_by_user = true }) r.by_id,
        ))
]

gone_one :
    (gw : Gateway) (now : ℕ) (r : Registry) (id j : String)
    → get r j ≡ none
    → get (gc_one gw now r id) j ≡ none
unfolding get gc_one
gone_one gw now r id j h = elim (Bool-cases (str_eq id j)) [
  | inl same ↦ rw ((eq_iff id j).0 same) (rw (h, gc_one) h)
  | inr other ↦ get-gc_one gw now r id j other ∙ h
]

gone_all :
    (gw : Gateway) (now : ℕ) (todo : List String) (r : Registry) (j : String)
    → get r j ≡ none
    → get (gc_ids gw now todo r) j ≡ none
unfolding gc_ids
gone_all gw now [] r j h = h
gone_all gw now (id ∷ todo) r j h =
    gone_all gw now todo (gc_one gw now r id) j (gone_one gw now r id j h)

-- The entry that a pass leaves, by the tests of the code.
unfoldable pub verdict : Gateway → ℕ → String → Entry → Option Entry
verdict gw now j e =
    if not (is_due now e)
    then some e
    else if str_eq e.on_deadline "pause" && gw.pauses j
    then some (record e { paused_by_user = true })
    else if gw.destroys j
    then none
    else some e

verdict_one :
    (gw : Gateway) (now : ℕ) (r : Registry) (j : String) (e : Entry)
    → get r j ≡ some e
    → get (gc_one gw now r j) j ≡ verdict gw now j e
unfolding get gc_one del destroy verdict mark_paused modify
verdict_one gw now r j e h =
    rw (h, gc_one)
      (ground (
        arith,
        h,
        lookup-remove j j r.by_id,
        lookup-insert j j (record e { paused_by_user = true }) r.by_id,
        text_refl j,
      ))

-- A second look changes nothing.
verdict_again :
    (gw : Gateway) (now : ℕ) (j : String) (e e' : Entry)
    → verdict gw now j e ≡ some e'
    → verdict gw now j e' ≡ some e'
unfolding verdict is_due
verdict_again gw now j e e' h = elim (Bool-cases (is_due now e)) [
  | inr early ↦
      let same : e ≡ e' = cc (rw (early, verdict) at h) in
      subst (λ k. verdict gw now j k ≡ some k) same (ground (arith, early))
  | inl due ↦ elim (Bool-cases (str_eq e.on_deadline "pause" && gw.pauses j)) [
    | inl can ↦
        let same : record e { paused_by_user = true } ≡ e' = cc (rw (due, can, verdict) at h) in
        subst (λ k. verdict gw now j k ≡ some k) same (ground (arith, due, can))
    | inr cannot ↦ elim (Bool-cases (gw.destroys j)) [
      | inl gone ↦ cc (rw (due, cannot, gone, verdict) at h)
      | inr stays ↦
          let same : e ≡ e' = cc (rw (due, cannot, stays, verdict) at h) in
          subst (λ k. verdict gw now j k ≡ some k) same (ground (arith, due, cannot, stays))
    ]
  ]
]

settled :
    (gw : Gateway) (now : ℕ) (todo : List String) (r : Registry) (j : String) (e : Entry)
    → get r j ≡ some e
    → verdict gw now j e ≡ some e
    → get (gc_ids gw now todo r) j ≡ some e
unfolding gc_ids
settled gw now [] r j e h v = h
settled gw now (id ∷ todo) r j e h v =
    settled gw now todo (gc_one gw now r id) j e
      (elim (Bool-cases (str_eq id j)) [
        | inl same ↦ rw ((eq_iff id j).0 same) (verdict_one gw now r j e h ∙ v)
        | inr other ↦ get-gc_one gw now r id j other ∙ h
      ])
      v

pub judged :
    (gw : Gateway) (now : ℕ) (todo : List String) (r : Registry) (j : String) (e : Entry)
    → contains j todo ≡ true
    → get r j ≡ some e
    → get (gc_ids gw now todo r) j ≡ verdict gw now j e
unfolding gc_ids contains
judged gw now [] r j e c h = cc
judged gw now (id ∷ todo) r j e c h = elim (Bool-cases (str_eq id j)) [
  | inl same ↦ rw ((eq_iff id j).0 same) (
      let first = verdict_one gw now r j e h in
      elim (Option-cases (verdict gw now j e)) [
        | inl gone ↦ gone_all gw now todo _ j (first ∙ gone) ∙ sym gone
        | inr (e', stays) ↦
            settled gw now todo _ j e' (first ∙ stays) (verdict_again gw now j e e' stays)
            ∙ sym stays
      ])
  | inr other ↦
      judged gw now todo (gc_one gw now r id) j e (ground arith)
        (get-gc_one gw now r id j other ∙ h)
]

pub contains-keys :
    (m : List (String × Entry)) (j : String) (e : Entry)
    → lookup j m ≡ some e
    → contains j (map (λ x. x.0) m) ≡ true
unfolding lookup contains
contains-keys [] j e h = cc
contains-keys ((i, x) ∷ m) j e h = ground (arith, contains-keys m j e)
