-- ===== src/Config/Parser.antt =====
-- parser.go of pkg/configfilearg: Parse and FindString. The environment and the files are parameters;
-- the regular expressions are functions on texts, and the words of After come with their numbers.
use k8e.Common.{
  ℕ, zero, suc, ◌+◌, String, ◌⊎◌, inl, inr, Bool, true, false, ◌&&◌, not, Option, none, some, List,
  [], ◌∷◌, ◌++◌, str_eq, if◌then◌else◌, get_elem?, select, take, drop,
}
use k8e.Common.Assoc.{contains, lookup}
use Prim.Native.String.{◌++◌ as str_append, len, slice}
use text.Mathlib.Text.{starts_with}
use k8e.Config.Flags.{flag_of}
use k8e.Config.Values.{
  MapItem, Config, empty_config, process_entries, format_command_line_args, find_target_value,
}

pub data ConfigError : Type 0 where
  not_exist failure : ConfigError

-- `after` has a word and the number behind its colon, 0 when there is none; `valid_flags` the names of
-- the flags of a command.
pub record Parser : Type 0 where
  pub after : List (String × ℕ)
  pub config_flags : List String
  pub override_flags : List String
  pub env_name : String
  pub default_config : String
  pub valid_flags : List (String × List String)

-- The environment, os.Stat, the directory of drop-ins (none when it does not exist), and the entries of
-- a file, read and unmarshalled.
pub record Files : Type 0 where
  pub getenv : String → String
  pub stat : String → Option ConfigError
  pub dot_d_files : String → ConfigError ⊎ List String
  pub load : String → ConfigError ⊎ List MapItem

-- The command word and as many arguments behind it, unless they are too few or the last is a flag.
unfoldable pub split_after : ℕ → String → List String → List String × List String
split_after zero word rest = (word ∷ [], rest)
split_after (suc k) word rest = elim (get_elem? rest k) [
  | none ↦ (word ∷ [], rest)
  | some arg ↦
      if starts_with arg "-"
      then (word ∷ [], rest)
      else (word ∷ take (suc k) rest, drop (suc k) rest)
]

unfoldable pub with_prefix :
    String → Option (List String × List String) → Option (List String × List String)
with_prefix word none = none
with_prefix word (some (prefix, suffix)) = some (word ∷ prefix, suffix)

unfoldable pub find_word : List (String × ℕ) → List String → Option (List String × List String)
unfolding split_after with_prefix
find_word after [] = none
find_word after (val ∷ rest) =
    let later = with_prefix val (find_word after rest) in
    elim (lookup val after) [ some skip ↦ some (split_after skip val rest) | none ↦ later ]

unfoldable pub start_of : List (String × ℕ) → List String → Option (List String × List String)
unfolding find_word
start_of [] args = some ([], args)
start_of (word ∷ words) args = find_word (word ∷ words) args

unfoldable pub find_start : Parser → List String → Option (List String × List String)
unfolding start_of
find_start p args = start_of p.after args

-- A flag's value in this argument or the next.
unfoldable pub flag_value : List String → String → List String → Option (String × Bool)
flag_value [] arg rest = none
flag_value (flag ∷ flags) arg rest =
    let more = flag_value flags arg rest in
    if str_eq flag arg
    then (elim rest [ [] ↦ some ("", false) | next ∷ _ ↦ some (next, true) ])
    else if starts_with arg (str_append flag "=")
    then some (slice arg (len flag + 1) (len arg), true)
    else more

unfoldable pub find_flag : Parser → List String → String × Bool
unfolding flag_value
find_flag p [] = (p.default_config, false)
find_flag p (arg ∷ rest) =
    let more = find_flag p rest in
    elim (flag_value p.config_flags arg rest) [ some found ↦ found | none ↦ more ]

unfoldable pub find_config_file_flag : Parser → Files → List String → String × Bool
unfolding find_flag
find_config_file_flag p files args =
    if not (str_eq p.env_name "") && not (str_eq (files.getenv p.env_name) "")
    then (files.getenv p.env_name, true)
    else find_flag p args

unfoldable pub find_override_flag : Parser → List String → Option String
unfolding contains
find_override_flag p [] = none
find_override_flag p (arg ∷ rest) =
    let more = find_override_flag p rest in if contains arg p.override_flags then some arg else more

unfoldable pub flags_of : Option (List String) → List String
flags_of none = []
flags_of (some flags) = flags

unfoldable pub strip_invalid_flags : Parser → String → List String → List String
unfolding flags_of contains flag_of
strip_invalid_flags p command args = elim (flags_of (lookup command p.valid_flags)) [
  | [] ↦ args
  | flag ∷ flags ↦ select (λ arg. contains (flag_of arg) (flag ∷ flags)) args
]

-- The drop-ins stand in for a file that is missing.
unfoldable pub prepared : String → Option ConfigError → List String → ConfigError ⊎ List String
prepared file none dropins = inr (file ∷ dropins)
prepared file (some failure) dropins = inl failure
prepared file (some not_exist) [] = inl not_exist
prepared file (some not_exist) (d ∷ ds) = inr (d ∷ ds)

unfoldable pub prepare_config_files : Files → String → ConfigError ⊎ List String
unfolding prepared
prepare_config_files files file = elim (files.dot_d_files file) [
  | inl e ↦ inl e
  | inr dropins ↦ prepared file (files.stat file) dropins
]

unfoldable pub parse_config_files :
    (String → String) → Files → List String → Config → ConfigError ⊎ Config
parse_config_files trim files [] config = inr config
parse_config_files trim files (file ∷ rest) config = elim (files.load file) [
  | inl e ↦ inl e
  | inr entries ↦ parse_config_files trim files rest (process_entries trim entries config)
]

unfoldable pub read_all :
    (String → String) → Files → ConfigError ⊎ List String → ConfigError ⊎ List String
unfolding parse_config_files
read_all trim files (inl e) = inl e
read_all trim files (inr names) = elim (parse_config_files trim files names empty_config) [
  | inl e ↦ inl e
  | inr config ↦ inr (format_command_line_args config)
]

unfoldable pub read_config_file : (String → String) → Files → String → ConfigError ⊎ List String
unfolding read_all
read_config_file trim files file = read_all trim files (prepare_config_files files file)

-- args[1] is the command.
unfoldable pub command_values : Parser → List String → List String → List String
command_values p (program ∷ command ∷ rest) values = strip_invalid_flags p command values
command_values p args values = values

unfoldable pub with_values :
    Parser
    → List String
    → List String × List String
    → Bool
    → ConfigError ⊎ List String
    → ConfigError ⊎ List String
unfolding command_values
with_values p args (prefix, suffix) is_set (inr values) =
    inr (prefix ++ command_values p args values ++ suffix)
with_values p args split true (inl e) = inl e
with_values p args split false (inl not_exist) = inr args
with_values p args split false (inl failure) = inl failure

unfoldable pub parse_at :
    (String → String)
    → Parser
    → Files
    → List String
    → Option (List String × List String)
    → ConfigError ⊎ List String
unfolding with_values
parse_at trim p files args none = inr args
parse_at trim p files args (some split) =
    let (file, is_set) = find_config_file_flag p files args in
    if str_eq file ""
    then inr args
    else with_values p args split is_set (read_config_file trim files file)

unfoldable pub parse : (String → String) → Parser → Files → List String → ConfigError ⊎ List String
unfolding parse_at
parse trim p files args = parse_at trim p files args (find_start p args)

unfoldable pub find_in_files :
    (List String → String) → Files → List String → String → String → ConfigError ⊎ String
find_in_files list_text files [] target last_val = inr last_val
find_in_files list_text files (file ∷ rest) target last_val = elim (files.load file) [
  | inl e ↦ inl e
  | inr entries ↦
      find_in_files list_text files rest target
        (find_target_value list_text entries target last_val)
]

unfoldable pub find_below :
    (List String → String)
    → Files
    → String
    → String
    → ConfigError ⊎ List String
    → ConfigError ⊎ String
unfolding find_in_files
find_below list_text files file target (inl e) = inl e
find_below list_text files file target (inr dropins) =
    find_in_files list_text files (file ∷ dropins) target ""

unfoldable pub find_found :
    (List String → String)
    → Files
    → String
    → Bool
    → String
    → Option ConfigError
    → ConfigError ⊎ String
unfolding find_below
find_found list_text files file is_set target none =
    find_below list_text files file target (files.dot_d_files file)
find_found list_text files file false target (some not_exist) = inr ""
find_found list_text files file true target (some not_exist) = inl not_exist
find_found list_text files file is_set target (some failure) = inl failure

unfoldable pub find_string :
    (List String → String) → Parser → Files → List String → String → ConfigError ⊎ String
unfolding find_found
find_string list_text p files args target = elim (find_override_flag p args) [
  | some flag ↦ inr flag
  | none ↦
      let (file, is_set) = find_config_file_flag p files args in
      if str_eq file ""
      then inr ""
      else find_found list_text files file is_set target (files.stat file)
]
