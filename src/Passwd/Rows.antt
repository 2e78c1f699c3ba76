-- ===== src/Passwd/Rows.antt =====
-- The records of the password file: what is written is what is read.
use mathlib.Core.Sum.{inl-ne-inr, inr-injective}
use mathlib.Core.Bool.{true≢false}
use mathlib.Core.Path.{subst}
use k8e.Common.{
  String, ◌≡◌, refl, sym, ap, ◌∙◌, inl, inr, false, none, List, [], ◌∷◌, arith, str_eq, eq_iff,
  if◌then◌else◌, Bool-cases, Option-cases,
}
use k8e.Common.Assoc.{lookup, insert, has, has-insert, lookup-has, lookup-insert}
use k8e.Passwd.Users.{UserEntry, role_of, read_records, rows_of}

-- No name twice.
unfoldable pub HasDistinct : List (String × UserEntry) → Type 0
HasDistinct [] = Unit
HasDistinct ((k, e) ∷ m) = (has k m ≡ false) × HasDistinct m

pub insert-HasDistinct :
    (k : String) (e : UserEntry) (m : List (String × UserEntry))
    → HasDistinct m
    → HasDistinct (insert k e m)
unfolding HasDistinct insert has
insert-HasDistinct k e [] d = (refl, tt)
insert-HasDistinct k e ((j, x) ∷ m) (fresh, d) = elim (Bool-cases (str_eq j k)) [
  | inl same ↦ rw same (ap (λ i. has i m) (sym ((eq_iff j k).0 same)) ∙ fresh, d)
  | inr differs ↦ rw differs (
    has-insert k j e m ∙ ground (arith, fresh, differs, eq_iff k j, eq_iff j k),
    insert-HasDistinct k e m d,
  )
]

-- Reading what was written finds the names.
pub rows_lem :
    (m names : List (String × UserEntry))
    → HasDistinct m
    → (read : List (String × UserEntry)) × (read_records (rows_of m) names ≡ inr read)
      × ((j : String) → lookup j read ≡ (if has j m then lookup j m else lookup j names))
unfolding HasDistinct read_records rows_of has lookup role_of
rows_lem [] names d = (names, refl, λ j. refl)
rows_lem ((k, e) ∷ m) names (fresh, d) =
    let (read, got, found) = rows_lem m (insert k e names) d in
    (
      read,
      got,
      λ j. found j ∙ (elim (Bool-cases (str_eq k j)) [
        | inl same ↦
            let fresh_j = ap (λ i. has i m) (sym ((eq_iff k j).0 same)) ∙ fresh in
            let inserted = lookup-insert k j e names in rw (fresh_j, same) (rw same at inserted)
        | inr differs ↦
            let inserted = lookup-insert k j e names in
            rw differs (ap (λ o. if has j m then lookup j m else o) (rw differs at inserted))
      ]),
    )

pub lookup_lem :
    (j : String) (m : List (String × UserEntry))
    → (if has j m then lookup j m else none) ≡ lookup j m
lookup_lem j m = elim (Bool-cases (has j m)) [
  | inl there ↦ rw there refl
  | inr gone ↦ elim (Option-cases (lookup j m)) [
    | inl nothing ↦ rw gone (sym nothing)
    | inr (e, found) ↦ absurd (true≢false (sym (lookup-has j e m found) ∙ gone))
  ]
]

pub read_records-HasDistinct :
    (rows : List (List String)) (names read : List (String × UserEntry))
    → HasDistinct names
    → read_records rows names ≡ inr read
    → HasDistinct read
unfolding read_records
read_records-HasDistinct [] names read d h = subst HasDistinct (inr-injective names read h) d
read_records-HasDistinct ([] ∷ rows) names read d h = absurd (inl-ne-inr h)
read_records-HasDistinct ((pass ∷ []) ∷ rows) names read d h = absurd (inl-ne-inr h)
read_records-HasDistinct ((pass ∷ name ∷ rest) ∷ rows) names read d h =
    let e : UserEntry = record { pass = pass; role = role_of rest } in
    read_records-HasDistinct rows (insert name e names) read (insert-HasDistinct name e names d) h
