-- ===== src/Config/Tests.antt =====
-- The merge of configuration files at concrete inputs.
use k8e.Common.{String, ◌≡◌, refl, true, false, ◌⊎◌, inr, none, some, List, [], ◌∷◌, select}
use k8e.Common.Assoc.{contains, lookup, insert}
use k8e.Config.Flags.{flag_of}
use k8e.Config.Values.{
  Value, str, items, other, MapItem, empty_config, process_entries, pairs, format_command_line_args,
  format_single_arg, key_of, is_append, to_slice,
}
use k8e.Config.Parser.{
  ConfigError, not_exist, Parser, Files, find_start, find_config_file_flag, find_override_flag,
  read_config_file, prepare_config_files, strip_invalid_flags, parse, find_string,
}
use k8e.Config.Merge.{entries_of, reference, values_since}
use k8e.Config.Order.{of_key, merged_lem}
use k8e.Config.Override.{last_flag, parse_override}
use k8e.Config.DropIns.{entries_in, find_string_dropins}

abbrev same_text : String → String
same_text s = s

abbrev list_text : List String → String
list_text xs = "[]"

abbrev item : String → Value → MapItem
item key value = record { key = key; value = value }

abbrev entries : List MapItem
entries =
    item "tls-san" (str "a")
    ∷ item "debug" (other "true")
    ∷ item "tls-san" (str "b")
    ∷ item "tls-san+" (items ("c" ∷ "d" ∷ []))
    ∷ []

merged_lem_example :
    let config = process_entries same_text entries empty_config in
    select (of_key "tls-san") (pairs config.key_order config.values)
    ≡ reference same_text "tls-san" (entries_of "tls-san" entries)
merged_lem_example = merged_lem same_text "tls-san" entries

abbrev parser : Parser
parser = record {
  after = ("server", 0) ∷ ("agent", 0) ∷ ("etcd-snapshot", 1) ∷ [];
  config_flags = "--config" ∷ "-c" ∷ [];
  override_flags = "--help" ∷ [];
  env_name = "K8E_CONFIG_FILE";
  default_config = "/etc/k8e/config.yaml";
  valid_flags = ("server", "tls-san" ∷ "debug" ∷ []) ∷ [];
}

abbrev load_entries : String → ConfigError ⊎ List MapItem
load_entries file = inr entries

abbrev present : Files
present = record {
  getenv = λ name. "";
  stat = λ file. none;
  dot_d_files = λ file. inr [];
  load = load_entries;
}

abbrev missing : Files
missing = record present {
  stat = λ file. some not_exist;
  dot_d_files = λ file. inr ("/etc/k8e/config.yaml.d/a.yaml" ∷ []);
}

abbrev args : List String
args = "k8e" ∷ "server" ∷ "--debug=false" ∷ []

abbrev result : List String
result =
    "k8e" ∷ "server" ∷ "--tls-san=b" ∷ "--tls-san=c" ∷ "--tls-san=d" ∷ "--debug=true"
    ∷ "--debug=false" ∷ []

parse_override_example : last_flag "debug" result ≡ some "--debug=false"
unfolding parse find_start lookup find_config_file_flag read_config_file prepare_config_files
    strip_invalid_flags format_command_line_args process_entries insert last_flag
parse_override_example =
    parse_override same_text parser present args ("k8e" ∷ "server" ∷ []) ("--debug=false" ∷ [])
      result "debug" "--debug=false" refl refl refl

abbrev one_dropin : String → List MapItem
one_dropin file = entries

find_string_dropins_example :
    (find_string list_text parser missing args "tls-san" ≡ inr "")
    × (result : List String) × (parse same_text parser missing args ≡ inr result)
    × (contains "--tls-san=c" result ≡ true)
unfolding find_override_flag find_start lookup find_config_file_flag contains reference entries_of
    flag_of format_single_arg entries_in key_of values_since is_append to_slice
find_string_dropins_example =
    find_string_dropins same_text list_text parser missing one_dropin "k8e" "server"
      ("--debug=false" ∷ []) ("k8e" ∷ "server" ∷ []) ("--debug=false" ∷ [])
      ("tls-san" ∷ "debug" ∷ []) "/etc/k8e/config.yaml" "/etc/k8e/config.yaml.d/a.yaml" [] false
      "tls-san" "c" refl refl refl refl refl refl (refl, tt) refl refl refl
