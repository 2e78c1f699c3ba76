-- ===== src/Config/Override.antt =====
-- Where Parse puts the values of the configuration file.
use mathlib.Core.Path.{subst}
use mathlib.Core.Sum.{inl-ne-inr, inr-injective}
use k8e.Common.{
  ℕ, zero, suc, String, ◌≡◌, refl, sym, ap, ◌∙◌, ◌⊎◌, inl, inr, Bool, true, false, Option, none,
  some, List, [], ◌∷◌, ◌++◌, str_eq, if◌then◌else◌, Bool-cases, Option-cases, get_elem?,
  take-append-drop,
}
use k8e.Common.Assoc.{lookup}
use text.Mathlib.Text.{starts_with}
use k8e.Config.Flags.{flag_of}
use k8e.Config.Parser.{
  ConfigError, not_exist, failure, Parser, Files, split_after, with_prefix, find_word, start_of,
  find_start, parse_at, find_config_file_flag, command_values, with_values, read_config_file, parse,
}

-- The last argument that sets a flag: the one that the command line's parser goes by.
unfoldable pub last_flag : String → List String → Option String
unfolding flag_of
last_flag f [] = none
last_flag f (arg ∷ args) = elim (last_flag f args) [
  | some later ↦ some later
  | none ↦ if str_eq (flag_of arg) f then some arg else none
]

last_flag-append :
    (f a : String) (xs ys : List String) → last_flag f ys ≡ some a → last_flag f (xs ++ ys) ≡ some a
unfolding last_flag
last_flag-append f a [] ys h = h
last_flag-append f a (x ∷ xs) ys h = rw (last_flag-append f a xs ys h, last_flag) refl

split_after_lem :
    (skip : ℕ) (word : String) (rest : List String)
    → let r = split_after skip word rest in r.0 ++ r.1 ≡ word ∷ rest
unfolding split_after
split_after_lem zero word rest = refl
split_after_lem (suc k) word rest = elim (Option-cases (get_elem? rest k)) [
  | inl few ↦ rw (few, split_after) refl
  | inr (arg, there) ↦
      rw (there, split_after)
        (elim (Bool-cases (starts_with arg "-")) [
          | inl flag ↦ rw flag refl
          | inr plain ↦ rw plain (ap (λ l. word ∷ l) (take-append-drop (suc k) rest))
        ])
]

IsSplit : List String → Option (List String × List String) → Type 0
IsSplit args none = Unit
IsSplit args (some (prefix, suffix)) = prefix ++ suffix ≡ args

with_prefix-IsSplit :
    (word : String) (args : List String) (o : Option (List String × List String))
    → IsSplit args o
    → IsSplit (word ∷ args) (with_prefix word o)
unfolding IsSplit with_prefix
with_prefix-IsSplit word args none h = tt
with_prefix-IsSplit word args (some (prefix, suffix)) h = ap (λ l. word ∷ l) h

find_word-IsSplit :
    (after : List (String × ℕ)) (args : List String) → IsSplit args (find_word after args)
unfolding IsSplit find_word
find_word-IsSplit after [] = tt
find_word-IsSplit after (val ∷ rest) = elim (Option-cases (lookup val after)) [
  | inl other ↦
      rw (other, find_word)
        (with_prefix-IsSplit val rest (find_word after rest) (find_word-IsSplit after rest))
  | inr (skip, found) ↦ rw (found, find_word) (split_after_lem skip val rest)
]

start_of-IsSplit :
    (after : List (String × ℕ)) (args : List String) → IsSplit args (start_of after args)
unfolding IsSplit start_of
start_of-IsSplit [] args = refl
start_of-IsSplit (word ∷ words) args = find_word-IsSplit (word ∷ words) args

-- What the files may make of the arguments.
IsPlaced : List String → List String → List String → List String → Type 0
IsPlaced args prefix suffix result =
    (result ≡ args) ⊎ ((values : List String) × (result ≡ prefix ++ values ++ suffix))

with_values-IsPlaced :
    (p : Parser) (args prefix suffix result : List String) (is_set : Bool)
    (o : ConfigError ⊎ List String)
    → with_values p args (prefix, suffix) is_set o ≡ inr result
    → IsPlaced args prefix suffix result
unfolding with_values IsPlaced
with_values-IsPlaced p args prefix suffix result is_set (inr values) h = inr (
  command_values p args values,
  sym (inr-injective (prefix ++ command_values p args values ++ suffix) result h),
)
with_values-IsPlaced p args prefix suffix result true (inl e) h = absurd (inl-ne-inr h)
with_values-IsPlaced p args prefix suffix result false (inl not_exist) h =
    inl (sym (inr-injective args result h))
with_values-IsPlaced p args prefix suffix result false (inl failure) h = absurd (inl-ne-inr h)

parse_at-IsPlaced :
    (trim : String → String) (p : Parser) (files : Files) (args prefix suffix result : List String)
    → parse_at trim p files args (some (prefix, suffix)) ≡ inr result
    → IsPlaced args prefix suffix result
unfolding parse_at IsPlaced
parse_at-IsPlaced trim p files args prefix suffix result h =
    let (file, is_set) = find_config_file_flag p files args in
    elim (Bool-cases (str_eq (find_config_file_flag p files args).0 "")) [
      | inl no_file ↦ inl (sym (inr-injective args result (rw (no_file, parse_at) at h)))
      | inr some_file ↦
          with_values-IsPlaced p args prefix suffix result (find_config_file_flag p files args).1
            (read_config_file trim files (find_config_file_flag p files args).0)
            (rw (some_file, parse_at) at h)
    ]

-- When Parse succeeds and the command word is found, a flag that is set behind the command keeps its
-- last setting: no entry of the configuration files overrides it, whether they are read, missing or
-- not asked for.
pub parse_override :
    (trim : String → String) (p : Parser) (files : Files) (args prefix suffix result : List String)
    (f a : String)
    → parse trim p files args ≡ inr result
    → find_start p args ≡ some (prefix, suffix)
    → last_flag f suffix ≡ some a
    → last_flag f result ≡ some a
unfolding parse IsPlaced IsSplit find_start
parse_override trim p files args prefix suffix result f a h start set =
    let split = subst (IsSplit args) start (start_of-IsSplit p.after args) in
    elim (parse_at-IsPlaced trim p files args prefix suffix result
      (ap (parse_at trim p files args) (sym start) ∙ h)) [
        | inl same ↦ rw same (rw (sym split) (last_flag-append f a prefix suffix set))
        | inr (values, placed) ↦ rw placed (last_flag-append f a (prefix ++ values) suffix set)
      ]
