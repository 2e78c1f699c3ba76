-- ===== src/Config/Values.antt =====
-- parser.go of pkg/configfilearg: the entries of the configuration files, and the arguments that they
-- become. A value of the YAML is kept as convert.ToString prints it, and strings.TrimSpace is `trim`.
use k8e.Common.{
  ◌-◌, String, Bool, ◌&&◌, Option, none, some, List, [], ◌∷◌, ◌++◌, map, str_eq, leb, ◌==◌,
  if◌then◌else◌,
}
use k8e.Common.Assoc.{contains, lookup, insert}
use Prim.Native.String.{◌++◌ as str_append, len, slice}

-- A string, a list, or something else: a number, a Boolean, null.
pub data Value : Type 0 where
  str : String → Value
  items : List String → Value
  other : String → Value

pub record MapItem : Type 0 where
  pub key : String
  pub value : Value

-- The maps and the slice that parseConfigFiles fills.
pub record Config : Type 0 where
  pub key_order : List String
  pub values : List (String × Value)

abbrev pub empty_config : Config
empty_config = record { key_order = []; values = [] }

unfoldable pub has_suffix : String → String → Bool
has_suffix s t = leb (len t) (len s) && str_eq (slice s (len s - len t) (len s)) t

unfoldable pub trim_suffix : String → String → String
unfolding has_suffix
trim_suffix s t = if has_suffix s t then slice s 0 (len s - len t) else s

-- The key of an entry without its plus.
unfoldable pub key_of : MapItem → String
unfolding trim_suffix
key_of item = trim_suffix item.key "+"

unfoldable pub is_append : MapItem → Bool
unfolding has_suffix
is_append item = has_suffix item.key "+"

-- convert.ToString
unfoldable pub to_text : (List String → String) → Value → String
to_text list_text (str s) = s
to_text list_text (items xs) = list_text xs
to_text list_text (other s) = s

module _ (trim : String → String) where
  unfoldable pub to_slice : Value → List String
  to_slice (str s) = s ∷ []
  to_slice (items xs) = xs
  to_slice (other s) = if str_eq (trim s) "" then [] else trim s ∷ []

  -- What a key has after an entry.
  unfoldable pub updated : Option Value → Bool → Value → Value
  unfolding to_slice
  updated none append v = v
  updated (some old) append v = if append then items (to_slice old ++ to_slice v) else v

  unfoldable pub process_config_entry : MapItem → Config → Config
  unfolding updated key_of is_append
  process_config_entry item config =
      let k = key_of item in
      record {
        key_order =
            if contains k config.key_order then config.key_order else config.key_order ++ k ∷ [];
        values =
            insert k (updated (lookup k config.values) (is_append item) item.value) config.values;
      }

  unfoldable pub process_entries : List MapItem → Config → Config
  unfolding process_config_entry
  process_entries [] config = config
  process_entries (item ∷ rest) config = process_entries rest (process_config_entry item config)

unfoldable pub get_arg_prefix : String → String
get_arg_prefix key = if len key == 1 then "-" else "--"

unfoldable pub format_single_arg : String → String → String
unfolding get_arg_prefix
format_single_arg key value =
    str_append (get_arg_prefix key) (str_append key (str_append "=" value))

-- The texts of a value: an argument each.
unfoldable pub texts_of : Value → List String
texts_of (str s) = s ∷ []
texts_of (items xs) = xs
texts_of (other s) = s ∷ []

unfoldable pub pairs_of : String → Option Value → List (String × String)
unfolding texts_of
pairs_of key none = (key, "") ∷ []
pairs_of key (some v) = map (λ t. (key, t)) (texts_of v)

unfoldable pub pairs : List String → List (String × Value) → List (String × String)
unfolding pairs_of
pairs [] values = []
pairs (k ∷ ks) values = pairs_of k (lookup k values) ++ pairs ks values

-- Keys and values, and then the arguments.
unfoldable pub format_command_line_args : Config → List String
unfolding pairs format_single_arg
format_command_line_args config =
    map (λ p. format_single_arg p.0 p.1) (pairs config.key_order config.values)

-- FindString's own reading of the entries.
unfoldable pub find_target_value : (List String → String) → List MapItem → String → String → String
unfolding key_of is_append to_text
find_target_value list_text [] target last_val = last_val
find_target_value list_text (item ∷ rest) target last_val =
    let v = to_text list_text item.value in
    let found = find_target_value list_text rest target v in
    let appended =
      find_target_value list_text rest target (str_append last_val (str_append "," v)) in
    let skipped = find_target_value list_text rest target last_val in
    if str_eq (key_of item) target then (if is_append item then appended else found) else skipped
