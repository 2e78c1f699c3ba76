-- ===== src/Passwd/Tests.antt =====
-- The password file at concrete inputs.
use k8e.Common.{
  String, ◌≡◌, refl, ap, ◌∙◌, inr, true, false, none, List, [], ◌∷◌, map, if◌then◌else◌, All,
}
use k8e.Common.Assoc.{lookup, insert}
use k8e.Passwd.Users.{Passwd, Csv, PasswdFile, contents, read_passwd, write_passwd}
use k8e.Passwd.Tracked.{EnsureCall, ensure_next}
use k8e.Passwd.Reread.{is_plain, IsPlainRow, IsCsv, reread_lem}

-- Contents that are records, of which a text with a carriage return is lost.
abbrev kept_text : String → String
kept_text s = if is_plain s then s else ""

abbrev csv : Csv (List (List String))
csv = record { read = λ rows. (map (map kept_text) rows, true); write = λ rows. rows }

kept_row : (row : List String) → All (λ s. is_plain s ≡ true) row → map kept_text row ≡ row
kept_row [] plain = refl
kept_row (s ∷ row) (first, plain) =
    ap (λ b. (if b then s else "") ∷ map kept_text row) first ∙ ap (λ r. s ∷ r) (kept_row row plain)

kept_rows : (rows : List (List String)) → All IsPlainRow rows → map (map kept_text) rows ≡ rows
kept_rows [] plain = refl
kept_rows (row ∷ rows) (first, plain) =
    ap (λ r. r ∷ map (map kept_text) rows) (kept_row row first.1)
    ∙ ap (λ rs. row ∷ rs) (kept_rows rows plain)

csv-IsCsv : IsCsv csv
csv-IsCsv = record { read-write = λ rows plain. ap (λ r. (r, true)) (kept_rows rows plain) }

abbrev file : PasswdFile (List (List String))
file = contents (("s3cret" ∷ "server" ∷ "server" ∷ "k8e:server" ∷ []) ∷ ("old" ∷ "node" ∷ []) ∷ [])

abbrev start : Passwd
start = record {
  changed = false;
  names =
      ("server", record { pass = "s3cret"; role = "k8e:server" })
      ∷ ("node", record { pass = "old"; role = "" })
      ∷ [];
}

abbrev requests : List EnsureCall
requests =
    record { name = "node"; role = "k8e:agent"; passwd = "K10ab::node:fresh"; random = none } ∷ []

abbrev ensured : Passwd
ensured = record {
  changed = true;
  names =
      ("server", record { pass = "s3cret"; role = "k8e:server" })
      ∷ ("node", record { pass = "fresh"; role = "k8e:agent" })
      ∷ [];
}

reread_lem_example :
    (g : PasswdFile (List (List String))) × (q : Passwd) × (write_passwd csv true ensured file
      ≡ inr g)
    × (read_passwd csv g ≡ inr q)
    × ((name : String) → lookup name q.names ≡ lookup name ensured.names)
unfolding read_passwd insert ensure_next lookup is_plain
reread_lem_example =
    reread_lem csv file start ensured requests csv-IsCsv refl refl
      ((refl, refl, refl), ((refl, refl, refl), tt))
