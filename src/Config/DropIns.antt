-- ===== src/Config/DropIns.antt =====
-- Drop-ins below a configuration file that is missing: Parse and FindString.
use text.Mathlib.TextPositions.{eq_refl as text_refl}
use k8e.Common.{
  String, ◌≡◌, refl, sym, ap, ◌∙◌, inl, inr, Bool, true, false, ◌||◌, none, some, List, [], ◌∷◌,
  ◌++◌, map, select, All, arith, str_eq, eq_iff, if◌then◌else◌, Bool-cases,
}
use k8e.Common.Assoc.{contains, contains-append, lookup}
use k8e.Config.Flags.{flag_of}
use k8e.Config.Values.{
  MapItem, Config, empty_config, process_entries, pairs, format_single_arg,
  format_command_line_args,
}
use k8e.Config.Merge.{entries_of, reference}
use k8e.Config.Order.{of_key, merged_lem}
use k8e.Config.Parser.{
  not_exist, Parser, Files, find_start, find_config_file_flag, find_override_flag, flags_of,
  strip_invalid_flags, prepared, prepare_config_files, parse_config_files, read_all,
  read_config_file, command_values, with_values, parse_at, parse, find_found, find_string,
}

-- The entries of several files, in order.
unfoldable pub entries_in : (String → List MapItem) → List String → List MapItem
entries_in file_entries [] = []
entries_in file_entries (file ∷ files) = file_entries file ++ entries_in file_entries files

process_entries-append :
    (trim : String → String) (xs ys : List MapItem) (config : Config)
    → process_entries trim (xs ++ ys) config
      ≡ process_entries trim ys (process_entries trim xs config)
unfolding process_entries
process_entries-append trim [] ys config = refl
process_entries-append trim (x ∷ xs) ys config = process_entries-append trim xs ys _

parse_config_files_lem :
    (trim : String → String) (files : Files) (file_entries : String → List MapItem)
    (names : List String) (config : Config)
    → All (λ f. files.load f ≡ inr (file_entries f)) names
    → parse_config_files trim files names config
      ≡ inr (process_entries trim (entries_in file_entries names) config)
unfolding parse_config_files entries_in process_entries
parse_config_files_lem trim files file_entries [] config loaded = refl
parse_config_files_lem trim files file_entries (file ∷ names) config (first, loaded) =
    rw (first, parse_config_files)
      (parse_config_files_lem trim files file_entries names
          (process_entries trim (file_entries file) config) loaded
        ∙ ap inr (
            sym (
              process_entries-append trim (file_entries file) (entries_in file_entries names)
                config)))

read_dropins :
    (trim : String → String) (files : Files) (file_entries : String → List MapItem)
    (file d : String) (ds : List String)
    → files.stat file ≡ some not_exist
    → files.dot_d_files file ≡ inr (d ∷ ds)
    → All (λ f. files.load f ≡ inr (file_entries f)) (d ∷ ds)
    → read_config_file trim files file
      ≡ inr (
          format_command_line_args
            (process_entries trim (entries_in file_entries (d ∷ ds)) empty_config))
unfolding read_config_file read_all prepare_config_files prepared
read_dropins trim files file_entries file d ds missing dropins loaded =
    let names : prepare_config_files files file ≡ inr (d ∷ ds) =
      rw (dropins, missing, prepare_config_files, prepared) refl in
    ap (read_all trim files) names
    ∙ rw (parse_config_files_lem trim files file_entries (d ∷ ds) empty_config loaded, read_all)
        refl

or_true : (b : Bool) → (b || true) ≡ true
or_true b = ground arith

-- A pair of the key becomes an argument.
contains-formatted :
    (k v : String) (ps : List (String × String))
    → contains v (map (λ q. q.1) (select (of_key k) ps)) ≡ true
    → contains (format_single_arg k v) (map (λ q. format_single_arg q.0 q.1) ps) ≡ true
unfolding contains of_key
contains-formatted k v [] h = cc
contains-formatted k v ((j, t) ∷ ps) h = elim (Bool-cases (str_eq j k)) [
  | inr differs ↦ let later = contains-formatted k v ps (rw differs at h) in rw later (or_true _)
  | inl same ↦ elim (Bool-cases (str_eq t v)) [
    | inl this ↦
        rw ((eq_iff j k).0 same, (eq_iff t v).0 this, text_refl (format_single_arg k v)) refl
    | inr other ↦
        let later = contains-formatted k v ps (rw other at rw same at h) in rw later (or_true _)
  ]
]

contains-select :
    (keep : String → Bool) (a : String) (xs : List String)
    → keep a ≡ true
    → contains a xs ≡ true
    → contains a (select keep xs) ≡ true
unfolding contains
contains-select keep a [] kept h = cc
contains-select keep a (x ∷ xs) kept h = elim (Bool-cases (str_eq x a)) [
  | inl same ↦ rw ((eq_iff x a).0 same, kept, text_refl a) refl
  | inr differs ↦ ground (arith, differs, contains-select keep a xs kept (rw differs at h))
]

strip_kept :
    (p : Parser) (command arg : String) (flags values : List String)
    → lookup command p.valid_flags ≡ some flags
    → contains (flag_of arg) flags ≡ true
    → contains arg values ≡ true
    → contains arg (strip_invalid_flags p command values) ≡ true
unfolding strip_invalid_flags flags_of contains
strip_kept p command arg [] values known valid there = cc
strip_kept p command arg (flag ∷ flags) values known valid there =
    rw (known, strip_invalid_flags, flags_of)
      (contains-select (λ arg. contains (flag_of arg) (flag ∷ flags)) arg values valid there)

contains_between :
    (a : String) (xs ys zs : List String)
    → contains a ys ≡ true
    → contains a (xs ++ ys ++ zs) ≡ true
contains_between a xs ys zs there =
    contains-append a (xs ++ ys) zs ∙ ground (arith, contains-append a xs ys, there)

not_found :
    (list_text : List String → String) (files : Files) (file target : String) (is_set : Bool)
    → find_found list_text files file is_set target (some not_exist)
      ≡ (if is_set then inl not_exist else inr "")
unfolding find_found
not_found list_text files file target false = refl
not_found list_text files file target true = refl

-- The configuration file is missing and has drop-ins, which can be read; the arguments have the
-- command word and no override flag: Parse puts every value that the drop-ins give a valid flag of the
-- command, as they are merged, into the arguments; but FindString, asked for this flag, finds nothing
-- and no error, or fails when the file was named by a flag or the environment.
pub find_string_dropins :
    (trim : String → String) (list_text : List String → String) (p : Parser) (files : Files)
    (file_entries : String → List MapItem) (program command : String)
    (rest prefix suffix flags : List String) (file d : String) (ds : List String) (is_set : Bool)
    (target v : String)
    → let args = program ∷ command ∷ rest in
      find_override_flag p args ≡ none
      → find_start p args ≡ some (prefix, suffix)
      → find_config_file_flag p files args ≡ (file, is_set)
      → str_eq file "" ≡ false
      → files.stat file ≡ some not_exist
      → files.dot_d_files file ≡ inr (d ∷ ds)
      → All (λ f. files.load f ≡ inr (file_entries f)) (d ∷ ds)
      → lookup command p.valid_flags ≡ some flags
      → contains (flag_of (format_single_arg target v)) flags ≡ true
      → contains v (
          map
            (λ q. q.1)
            (reference trim target (entries_of target (entries_in file_entries (d ∷ ds)))))
        ≡ true
      → (find_string list_text p files args target ≡ (if is_set then inl not_exist else inr ""))
        × (result : List String) × (parse trim p files args ≡ inr result)
        × (contains (format_single_arg target v) result ≡ true)
unfolding find_string parse parse_at with_values command_values format_command_line_args
find_string_dropins trim list_text p files file_entries program command rest prefix suffix flags
      file d ds is_set target v no_flag start flag some_file missing dropins loaded known valid
      given =
    let args : List String = program ∷ command ∷ rest in
    let named : (find_config_file_flag p files args).0 ≡ file = ap (λ r. r.0) flag in
    let marked : (find_config_file_flag p files args).1 ≡ is_set = ap (λ r. r.1) flag in
    let config = process_entries trim (entries_in file_entries (d ∷ ds)) empty_config in
    let values = format_command_line_args config in
    let there : contains (format_single_arg target v) values ≡ true =
      contains-formatted target v (pairs config.key_order config.values) (
        ap (λ l. contains v (map (λ q. q.1) l))
          (merged_lem trim target (entries_in file_entries (d ∷ ds)))
        ∙ given) in
    let kept = strip_kept p command (format_single_arg target v) flags values known valid there in
    (
      rw (no_flag, find_string, named, some_file, missing, marked)
          (not_found list_text files file target is_set),
      prefix ++ strip_invalid_flags p command values ++ suffix,
      ap (parse_at trim p files args) start
          ∙ rw (named, some_file, parse_at)
              (ap (with_values p args (prefix, suffix) _)
                (read_dropins trim files file_entries file d ds missing dropins loaded)),
      contains_between (format_single_arg target v) prefix (strip_invalid_flags p command values)
          suffix kept,
    )
