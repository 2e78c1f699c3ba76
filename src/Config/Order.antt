-- ===== src/Config/Order.antt =====
-- The keys of the configuration files: each once, in the order of the first entry.
use mathlib.Core.List.{append-nil}
use k8e.Common.{
  String, ◌≡◌, refl, sym, ap, ◌∙◌, ◌⊎◌, inl, inr, Bool, true, false, ◌||◌, Option, none, some, List,
  [], ◌∷◌, ◌++◌, map, arith, str_eq, eq_iff, if◌then◌else◌, Bool-cases, select,
}
use k8e.Common.Assoc.{contains, contains-append, lookup}
use k8e.Common.Sorting.{IsDistinct}
use k8e.Config.Values.{
  Value, MapItem, Config, empty_config, key_of, is_append, process_config_entry, process_entries,
  texts_of, pairs_of, pairs,
}
use k8e.Config.Merge.{entries_of, settled, lookup-process_entries, settled-none, reference}

append-IsDistinct :
    (xs : List String) (k : String)
    → IsDistinct xs
    → contains k xs ≡ false
    → IsDistinct (xs ++ k ∷ [])
unfolding contains
append-IsDistinct [] k d fresh = (refl, tt)
append-IsDistinct (x ∷ xs) k d fresh = (
  contains-append x xs (k ∷ []) ∙ ground (arith, d.0, eq_iff x k, eq_iff k x),
  append-IsDistinct xs k d.1 (ground arith),
)

process_entries-IsDistinct :
    (trim : String → String) (es : List MapItem) (config : Config)
    → IsDistinct config.key_order
    → IsDistinct (process_entries trim es config).key_order
unfolding process_entries process_config_entry
process_entries-IsDistinct trim [] config d = d
process_entries-IsDistinct trim (item ∷ rest) config d =
    process_entries-IsDistinct trim rest (process_config_entry trim item config)
      (elim (Bool-cases (contains (key_of item) config.key_order)) [
        | inl seen ↦ rw seen d
        | inr fresh ↦ rw fresh (append-IsDistinct config.key_order (key_of item) d fresh)
      ])

-- A key is listed when it was, or has an entry.
contains-process_entries :
    (trim : String → String) (k : String) (es : List MapItem) (config : Config)
    → contains k (process_entries trim es config).key_order
      ≡ contains k config.key_order || contains k (map key_of es)
unfolding process_entries process_config_entry contains
contains-process_entries trim k [] config = ground arith
contains-process_entries trim k (item ∷ rest) config =
    let next = process_config_entry trim item config in
    contains-process_entries trim k rest next
    ∙ (elim (Bool-cases (contains (key_of item) config.key_order)) [
      | inl seen ↦ rw seen (ground (arith, seen, eq_iff (key_of item) k))
      | inr fresh ↦ rw fresh (ground (arith, contains-append k config.key_order (key_of item ∷ [])))
    ])

select-append :
    (p : String × String → Bool) (xs ys : List (String × String))
    → select p (xs ++ ys) ≡ select p xs ++ select p ys
select-append p [] ys = refl
select-append p (x ∷ xs) ys = ground (arith, select-append p xs ys)

-- The pairs of the key.
unfoldable pub of_key : String → String × String → Bool
of_key k p = str_eq p.0 k

select-texts :
    (k j : String) (ts : List String)
    → select (of_key k) (map (λ t. (j, t)) ts) ≡ (if str_eq j k then map (λ t. (j, t)) ts else [])
unfolding of_key
select-texts k j [] = ground arith
select-texts k j (t ∷ ts) = elim (Bool-cases (str_eq j k)) [
  | inl same ↦ rw same (ap (λ l. (j, t) ∷ l) (select-texts k j ts ∙ rw same refl))
  | inr differs ↦ rw differs (select-texts k j ts ∙ rw differs refl)
]

select-pairs_of :
    (k j : String) (o : Option Value)
    → select (of_key k) (pairs_of j o) ≡ (if str_eq j k then pairs_of j o else [])
unfolding pairs_of of_key
select-pairs_of k j none = ground arith
select-pairs_of k j (some v) = select-texts k j (texts_of v)

select-pairs :
    (k : String) (ks : List String) (values : List (String × Value))
    → IsDistinct ks
    → select (of_key k) (pairs ks values)
      ≡ (if contains k ks then pairs_of k (lookup k values) else [])
unfolding pairs contains
select-pairs k [] values d = refl
select-pairs k (j ∷ ks) values (fresh, d) =
    let here = select-pairs_of k j (lookup j values) in
    let rest = select-pairs k ks values d in
    select-append (of_key k) (pairs_of j (lookup j values)) (pairs ks values)
    ∙ ap (λ l. l ++ select (of_key k) (pairs ks values)) here
    ∙ ap (λ l. (if str_eq j k then pairs_of j (lookup j values) else []) ++ l) rest
    ∙ (elim (Bool-cases (str_eq j k)) [
      | inl same ↦
          let absent = ap (λ i. contains i ks) (sym ((eq_iff j k).0 same)) ∙ fresh in
          rw (same, absent)
            (append-nil (pairs_of j (lookup j values))
              ∙ ap (λ i. pairs_of i (lookup i values)) ((eq_iff j k).0 same))
      | inr differs ↦ rw differs refl
    ])

entries_cases :
    (k : String) (es : List MapItem)
    → ((entries_of k es ≡ []) × (contains k (map key_of es) ≡ false))
      ⊎ ((e : Value × Bool) × (vs : List (Value × Bool)) × (entries_of k es ≡ e ∷ vs)
          × (contains k (map key_of es) ≡ true))
unfolding entries_of contains
entries_cases k [] = inl (refl, refl)
entries_cases k (item ∷ rest) = elim (Bool-cases (str_eq (key_of item) k)) [
  | inl same ↦ rw same (inr ((item.value, is_append item), entries_of k rest, refl, refl))
  | inr differs ↦ rw differs (entries_cases k rest)
]

-- The arguments that the configuration files give for a key, in order, are those of the values since its
-- last entry without a plus, whatever other entries stand in between: the value itself when it is one,
-- and the elements of all of them when they are several; a key without an entry gives none.
pub merged_lem :
    (trim : String → String) (k : String) (es : List MapItem)
    → let config = process_entries trim es empty_config in
      select (of_key k) (pairs config.key_order config.values) ≡ reference trim k (entries_of k es)
unfolding reference lookup contains
merged_lem trim k es =
    let config = process_entries trim es empty_config in
    let listed = contains-process_entries trim k es empty_config in
    select-pairs k config.key_order config.values
      (process_entries-IsDistinct trim es empty_config tt)
    ∙ (elim (entries_cases k es) [
      | inl (absent, unnamed) ↦ rw (listed, unnamed, absent) refl
      | inr (e, vs, present, named) ↦
          ap (λ b. if b then pairs_of k (lookup k config.values) else []) (listed ∙ named)
          ∙ ap (pairs_of k) (
              lookup-process_entries trim k es empty_config
              ∙ ap (settled trim none) present
              ∙ settled-none trim (e ∷ vs))
          ∙ ap (reference trim k) (sym present)
    ])
