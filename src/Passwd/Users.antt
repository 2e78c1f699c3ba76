-- ===== src/Passwd/Users.antt =====
-- passwd.go of pkg/passwd. encoding/csv is a parameter over a type `T` of contents of a file; the
-- random token and the outcome of the writing are parameters too.
use k8e.Common.{
  ◌+◌, String, ◌⊎◌, inl, inr, Bool, true, false, ◌&&◌, ◌||◌, not, Option, none, some, List, [], ◌∷◌,
  str_eq, ltb, leb, if◌then◌else◌, get_elem?,
}
use k8e.Common.Assoc.{lookup, insert}
use Prim.Native.String.{◌++◌ as str_append, len, find, slice}
use text.Mathlib.Text.{starts_with}

pub record UserEntry : Type 0 where
  pub pass : String
  pub role : String

pub record Passwd : Type 0 where
  pub changed : Bool
  pub names : List (String × UserEntry)

-- encoding/csv: the records up to the end or up to an error, and whether there is none; and what
-- WriteAll makes of records.
pub record Csv (T : Type 0) : Type 0 where
  pub read : T → List (List String) × Bool
  pub write : List (List String) → T

-- A file that cannot be opened is `broken`.
pub data PasswdFile (T : Type 0) : Type 0 where
  absent broken : PasswdFile T
  contents : T → PasswdFile T

pub data PasswdError : Type 0 where
  unreadable too_few_columns no_random unwritable : PasswdError

unfoldable pub role_of : List String → String
role_of rest = elim (get_elem? rest 1) [ none ↦ "" | some role ↦ role ]

-- The loop of Read.
unfoldable pub read_records :
    List (List String) → List (String × UserEntry) → PasswdError ⊎ List (String × UserEntry)
unfolding role_of
read_records [] names = inr names
read_records ([] ∷ rows) names = inl too_few_columns
read_records ((pass ∷ []) ∷ rows) names = inl too_few_columns
read_records ((pass ∷ name ∷ rest) ∷ rows) names =
    read_records rows (insert name (record { pass = pass; role = role_of rest }) names)

-- The end of the loop, by io.EOF or by an error of the CSV.
unfoldable pub read_result : Bool → PasswdError ⊎ List (String × UserEntry) → PasswdError ⊎ Passwd
read_result clean (inl e) = inl e
read_result true (inr names) = inr (record { changed = false; names = names })
read_result false (inr names) = inl unreadable

unfoldable pub read_passwd : {T : Type 0} → Csv T → PasswdFile T → PasswdError ⊎ Passwd
unfolding read_result read_records
read_passwd csv absent = inr (record { changed = false; names = [] })
read_passwd csv broken = inl unreadable
read_passwd csv (contents t) =
    let (rows, clean) = csv.read t in read_result clean (read_records rows [])

-- The password of a token K10...::name:password; strings.Index is not 0 and not -1.
unfoldable pub strip_token : String → String → String
strip_token name passwd =
    let prefix = str_append "::" (str_append name ":") in
    let idx = find passwd prefix in
    if ltb 0 idx && leb idx (len passwd) && starts_with passwd "K10"
    then slice passwd (idx + len prefix) (len passwd)
    else passwd

-- An entry that is there.
unfoldable pub update_user : String → String → String → UserEntry → Passwd → Passwd
update_user name role passwd e p =
    let new_pass = not (str_eq passwd "") && not (str_eq e.pass passwd) in
    let new_role = not (str_eq e.role role) in
    let e' : UserEntry = record {
      pass = if new_pass then passwd else e.pass;
      role = if new_role then role else e.role;
    } in
    record { changed = p.changed || (new_pass || new_role); names = insert name e' p.names }

unfoldable pub add_user : String → String → String → Passwd → Passwd
add_user name role passwd p = record {
  changed = true;
  names = insert name (record { pass = passwd; role = role }) p.names;
}

unfoldable pub add_random : String → String → Option String → Passwd → PasswdError ⊎ Passwd
unfolding add_user
add_random name role none p = inl no_random
add_random name role (some token) p = inr (add_user name role token p)

-- `random` is what token.Random answers.
unfoldable pub ensure_stripped :
    String → String → String → Option String → Passwd → PasswdError ⊎ Passwd
unfolding update_user add_user add_random
ensure_stripped name role passwd random p = elim (lookup name p.names) [
  | some e ↦ inr (update_user name role passwd e p)
  | none ↦
      if str_eq passwd "" then add_random name role random p else inr (add_user name role passwd p)
]

unfoldable pub ensure_user :
    String → String → String → Option String → Passwd → PasswdError ⊎ Passwd
unfolding ensure_stripped strip_token
ensure_user name role passwd random p = ensure_stripped name role (strip_token name passwd) random p

unfoldable pub names_of : List (String × UserEntry) → List String
names_of [] = []
names_of ((name, e) ∷ names) = name ∷ names_of names

unfoldable pub users : Passwd → List String
unfolding names_of
users p = names_of p.names

unfoldable pub pass_of : String → Passwd → Option String
pass_of name p = elim (lookup name p.names) [ none ↦ none | some e ↦ some e.pass ]

unfoldable pub rows_of : List (String × UserEntry) → List (List String)
rows_of [] = []
rows_of ((name, e) ∷ names) = (e.pass ∷ name ∷ name ∷ e.role ∷ []) ∷ rows_of names

-- Write: the file that is there afterwards, unless the writing fails.
unfoldable pub write_passwd :
    {T : Type 0} → Csv T → Bool → Passwd → PasswdFile T → PasswdError ⊎ PasswdFile T
unfolding rows_of
write_passwd csv writes p file =
    if p.changed
    then (if writes then inr (contents (csv.write (rows_of p.names))) else inl unwritable)
    else inr file
