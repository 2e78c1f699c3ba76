-- ===== src/Passwd/Reread.antt =====
-- What is read of the password file after it has been written.
use mathlib.Core.Path.{subst}
use k8e.Common.{
  String, ◌≡◌, refl, sym, ap, ◌∙◌, inl, inr, Bool, true, false, List, [], ◌∷◌, arith, Bool-cases,
  ◌≤◌, All, ltb, length,
}
use Prim.Native.String.{len, find}
use k8e.Common.Assoc.{lookup}
use k8e.Passwd.Users.{
  UserEntry, Passwd, Csv, PasswdFile, contents, read_records, read_result, read_passwd, rows_of,
  write_passwd,
}
use k8e.Passwd.Rows.{rows_lem, lookup_lem}
use k8e.Passwd.Tracked.{
  IsTracked, read-IsTracked, EnsureCall, ensure_next, IsFine, ensure_next-IsFine,
}

-- A text without a carriage return, and users of such texts.
unfoldable pub is_plain : String → Bool
is_plain s = ltb (len s) (find s "\r")

abbrev pub IsPlainUser : String × UserEntry → Type 0
IsPlainUser u = (is_plain u.0 ≡ true) × (is_plain u.1.pass ≡ true) × (is_plain u.1.role ≡ true)

abbrev pub IsPlainRow : List String → Type 0
IsPlainRow row = (2 ≤ length row) × All (λ s. is_plain s ≡ true) row

-- What encoding/csv documents of records with two columns or more: they are read as they were written,
-- but for a carriage return before the end of a line.
pub record IsCsv {T : Type 0} (csv : Csv T) : Type 0 where
  pub read-write :
      (rows : List (List String)) → All IsPlainRow rows → csv.read (csv.write rows) ≡ (rows, true)

rows_of-IsPlainRow :
    (m : List (String × UserEntry)) → All IsPlainUser m → All IsPlainRow (rows_of m)
unfolding rows_of
rows_of-IsPlainRow [] plain = tt
rows_of-IsPlainRow ((name, e) ∷ m) ((some_name, some_pass, some_role), plain) = (
  (omega arith, (some_pass, (some_name, (some_name, (some_role, tt))))),
  rows_of-IsPlainRow m plain,
)

-- The file that is written, or left as it is, reads back as the users.
written_lem :
    {T : Type 0} (csv : Csv T) (law : IsCsv csv) (start p : Passwd) (f : PasswdFile T)
    → read_passwd csv f ≡ inr start
    → IsTracked start.names p
    → All IsPlainUser p.names
    → (g : PasswdFile T) × (q : Passwd) × (write_passwd csv true p f ≡ inr g)
      × (read_passwd csv g ≡ inr q)
      × ((j : String) → lookup j q.names ≡ lookup j p.names)
unfolding write_passwd read_passwd read_result lookup
written_lem csv law start p f got t plain = elim (Bool-cases p.changed) [
  | inr clean ↦ (f, start, rw (clean, write_passwd) refl, got, λ j. sym (t.same clean j))
  | inl dirty ↦
      let (read, got_rows, found) = rows_lem p.names [] t.distinct in
      (
        contents (csv.write (rows_of p.names)),
        record { changed = false; names = read },
        rw (dirty, write_passwd) refl,
        ap (λ r. read_result r.1 (read_records r.0 []))
              (law.read-write (rows_of p.names) (rows_of-IsPlainRow p.names plain))
            ∙ ap (read_result true) got_rows,
        λ j. found j ∙ lookup_lem j p.names,
      )
]

-- The users of a file that is read, changed by any calls of EnsureUser that succeed, and written with
-- success, are what is read of the file afterwards: passwords and roles, of every name, when none of
-- them has a carriage return, which encoding/csv may drop. So the mark of a change is never missed, and
-- the columns are read as they are written.
pub reread_lem :
    {T : Type 0} (csv : Csv T) (f : PasswdFile T) (start p : Passwd) (rs : List EnsureCall)
    → IsCsv csv
    → read_passwd csv f ≡ inr start
    → ensure_next rs (inr start) ≡ inr p
    → All IsPlainUser p.names
    → (g : PasswdFile T) × (q : Passwd) × (write_passwd csv true p f ≡ inr g)
      × (read_passwd csv g ≡ inr q)
      × ((name : String) → lookup name q.names ≡ lookup name p.names)
unfolding IsFine
reread_lem csv f start p rs law got ensured plain =
    written_lem csv law start p f got
      (subst (IsFine start.names) ensured
        (ensure_next-IsFine start.names rs (inr start) (read-IsTracked csv f start got)))
      plain
