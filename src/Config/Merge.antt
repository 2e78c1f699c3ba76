-- ===== src/Config/Merge.antt =====
-- What a key has after the configuration files: the values since the last entry without a plus.
use mathlib.Core.Option.{some-injective}
use mathlib.Core.List.{append-nil, append_assoc}
use k8e.Common.{
  String, ◌≡◌, refl, sym, ap, ◌∙◌, inl, inr, Bool, true, false, ◌||◌, not, Option, none, some, List,
  [], ◌∷◌, ◌++◌, map, str_eq, eq_iff, if◌then◌else◌, Bool-cases,
}
use k8e.Common.Assoc.{lookup, lookup-insert}
use k8e.Config.Values.{
  Value, items, MapItem, Config, key_of, is_append, to_slice, updated, process_config_entry,
  process_entries, pairs_of,
}

-- The values of a key's entries, each with whether it is appended.
unfoldable pub entries_of : String → List MapItem → List (Value × Bool)
entries_of k [] = []
entries_of k (item ∷ rest) =
    let more = entries_of k rest in
    if str_eq (key_of item) k then (item.value, is_append item) ∷ more else more

unfoldable pub any_plain : List (Value × Bool) → Bool
any_plain [] = false
any_plain ((v, append) ∷ vs) = not append || any_plain vs

-- The values from the last plain one on, or all.
unfoldable pub values_since : List (Value × Bool) → List Value
unfolding any_plain
values_since [] = []
values_since ((v, append) ∷ vs) =
    let later = values_since vs in if any_plain vs then later else v ∷ map (λ e. e.0) vs

module _ (trim : String → String) where
  unfoldable pub slices : List Value → List String
  slices [] = []
  slices (v ∷ vs) = to_slice trim v ++ slices vs

  -- One value is printed as it is, several as a list.
  unfoldable pub combined : List Value → Option Value
  unfolding slices
  combined [] = none
  combined (v ∷ []) = some v
  combined (v ∷ w ∷ vs) = some (items (slices (v ∷ w ∷ vs)))

  unfoldable pub settled : Option Value → List (Value × Bool) → Option Value
  settled old [] = old
  settled old ((v, append) ∷ vs) = settled (some (updated trim old append v)) vs

  pub lookup-process_entries :
      (k : String) (es : List MapItem) (config : Config)
      → lookup k (process_entries trim es config).values
        ≡ settled (lookup k config.values) (entries_of k es)
  unfolding process_entries process_config_entry settled entries_of
  lookup-process_entries k [] config = refl
  lookup-process_entries k (item ∷ rest) config =
      let next = process_config_entry trim item config in
      let v = updated trim (lookup (key_of item) config.values) (is_append item) item.value in
      let found = lookup-insert (key_of item) k v config.values in
      elim (Bool-cases (str_eq (key_of item) k)) [
        | inl same ↦
            lookup-process_entries k rest next
            ∙ rw same (
                ap (λ o. settled o (entries_of k rest))
                  (rw same at found
                    ∙ ap
                        (λ n.
                          some (updated trim (lookup n config.values) (is_append item) item.value))
                        ((eq_iff (key_of item) k).0 same)))
        | inr differs ↦
            lookup-process_entries k rest next
            ∙ rw differs (ap (λ o. settled o (entries_of k rest)) (rw differs at found))
      ]

  slices-append : (vs ws : List Value) → slices (vs ++ ws) ≡ slices vs ++ slices ws
  unfolding slices
  slices-append [] ws = refl
  slices-append (v ∷ vs) ws =
      ap (λ l. to_slice trim v ++ l) (slices-append vs ws)
      ∙ sym (append_assoc (to_slice trim v) (slices vs) (slices ws))

  -- An appended value, after the values so far.
  combined_lem :
      (u : Value) (us : List Value) (v old : Value)
      → combined (u ∷ us) ≡ some old
      → combined (u ∷ us ++ v ∷ []) ≡ some (items (to_slice trim old ++ to_slice trim v))
  unfolding combined to_slice slices
  combined_lem u [] v old h =
      let is_u = some-injective u old h in
      ap (λ l. some (items l))
        (ap (λ l. to_slice trim u ++ l) (append-nil (to_slice trim v))
          ∙ ap (λ x. to_slice trim x ++ to_slice trim v) is_u)
  combined_lem u (w ∷ us) v old h =
      let is_list = some-injective (items (slices (u ∷ w ∷ us))) old h in
      ap (λ l. some (items l))
        (slices-append (u ∷ w ∷ us) (v ∷ [])
          ∙ ap (λ l. slices (u ∷ w ∷ us) ++ l) (append-nil (to_slice trim v))
          ∙ ap (λ x. to_slice trim x ++ to_slice trim v) is_list)

  combined_one : (v : Value) → combined (v ∷ []) ≡ some v
  unfolding combined
  combined_one v = refl

  firsts : List (Value × Bool) → List Value
  firsts vs = map (λ e. e.0) vs

  -- The state of the loop is what the values since the last plain one come to.
  settled_lem :
      (u : Value) (us : List Value) (old : Value) (vs : List (Value × Bool))
      → combined (u ∷ us) ≡ some old
      → settled (some old) vs
        ≡ combined (if any_plain vs then values_since vs else u ∷ us ++ firsts vs)
  unfolding settled updated any_plain values_since firsts
  settled_lem u us old [] h = sym h ∙ ap (λ l. combined (u ∷ l)) (sym (append-nil us))
  settled_lem u us old ((v, true) ∷ vs) h =
      let next =
        settled_lem u (us ++ v ∷ []) (items (to_slice trim old ++ to_slice trim v)) vs
          (combined_lem u us v old h) in
      next ∙ elim (Bool-cases (any_plain vs)) [
        | inl plain ↦ rw plain refl
        | inr none_plain ↦
            rw none_plain (ap (λ l. combined (u ∷ l)) (append_assoc us (v ∷ []) (firsts vs)))
      ]
  settled_lem u us old ((v, false) ∷ vs) h = settled_lem v [] v vs (combined_one v)

  pub settled-none : (vs : List (Value × Bool)) → settled none vs ≡ combined (values_since vs)
  unfolding settled updated values_since firsts combined
  settled-none [] = refl
  settled-none ((v, append) ∷ vs) = settled_lem v [] v vs (combined_one v)

  -- The arguments of the key in the reference: none, the value's own, or those of the list.
  unfoldable pub reference : String → List (Value × Bool) → List (String × String)
  unfolding pairs_of combined
  reference k [] = []
  reference k (v ∷ vs) = pairs_of k (combined (values_since (v ∷ vs)))
